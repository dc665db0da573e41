-- ===== src/Routing/Checksum.antt =====
-- The checksum of nb__do_ip_checksum makes the sum over the header come out as that of a valid header.
use net_blocks.Base.{
  ℕ, zero, suc, ◌+◌, ◌-◌, ◌*◌, ◌/◌, ◌%◌, ◌≤◌, ◌<◌, ◌≡◌, refl, ap, ◌∙◌, ◌⊎◌, inl, inr, arith,
}
use net_blocks.Base.Words.{u32}
use net_blocks.Packet.Bytes.{Memory, read_word, write_word}
use net_blocks.Packet.Word.{read_word-write_word, read_word_ext, write_word-outside}
use net_blocks.Routing.{ByteOrder, sum_words, fold_carry, do_ip_checksum}

-- What the C library documents of the conversions.
pub record IsByteOrder (o : ByteOrder) : Type 0 where
  pub ntohs-lt : (n : ℕ) → o.ntohs n < 65536
  pub htons-lt : (n : ℕ) → o.htons n < 65536
  pub ntohs-htons : (n : ℕ) → n < 65536 → o.ntohs (o.htons n) ≡ n
  pub ntohs-zero : o.ntohs 0 ≡ 0

-- The sum of the words, converted, as a number.
pub total : ByteOrder → ℕ → Memory → ℕ → ℕ
total o zero h ptr = 0
total o (suc n) h ptr = o.ntohs (read_word 2 h ptr) + total o n h (ptr + 2)

-- What is written in front of the words, or behind one.
pub read_word-apart :
    (h : Memory) (a v ptr : ℕ)
    → (ptr + 2 ≤ a) ⊎ (a + 2 ≤ ptr)
    → read_word 2 (write_word 2 h a v) ptr ≡ read_word 2 h ptr
read_word-apart h a v ptr (inl before) =
    read_word_ext 2 _ h ptr (λ b lo hi. write_word-outside 2 h a v b (inl (omega arith)))
read_word-apart h a v ptr (inr behind) =
    read_word_ext 2 _ h ptr (λ b lo hi. write_word-outside 2 h a v b (inr (omega arith)))

module _ (o : ByteOrder) (ok : IsByteOrder o) where
  total-lt : (n : ℕ) (h : Memory) (ptr : ℕ) → total o n h ptr ≤ 65535 * n
  unfolding total
  total-lt zero h ptr = omega arith
  total-lt (suc n) h ptr = omega (arith, total-lt n h (ptr + 2), ok.ntohs-lt (read_word 2 h ptr))

  sum_words-total :
      (n : ℕ) (h : Memory) (ptr acc : ℕ)
      → acc + total o n h ptr < 4294967296
      → sum_words o n h ptr acc ≡ acc + total o n h ptr
  unfolding sum_words total
  sum_words-total zero h ptr acc lt = omega arith
  sum_words-total (suc n) h ptr acc lt =
      let now : u32 (acc + o.ntohs (read_word 2 h ptr)) ≡ acc + o.ntohs (read_word 2 h ptr) =
        omega arith in
      rw now (
        sum_words-total n h (ptr + 2) (acc + o.ntohs (read_word 2 h ptr)) (omega arith)
        ∙ omega arith)

  total-behind :
      (n : ℕ) (h : Memory) (a v ptr : ℕ)
      → a + 2 ≤ ptr
      → total o n (write_word 2 h a v) ptr ≡ total o n h ptr
  unfolding total
  total-behind zero h a v ptr le = refl
  total-behind (suc n) h a v ptr le = omega (
    arith,
    ap o.ntohs (read_word-apart h a v ptr (inr le)),
    total-behind n h a v (ptr + 2) (omega arith),
  )

  -- A word that is 0 is set to `v`.
  total-write :
      (n k : ℕ) (h : Memory) (a v ptr : ℕ)
      → k < n
      → a ≡ ptr + 2 * k
      → v < 65536
      → read_word 2 h a ≡ 0
      → total o n (write_word 2 h a v) ptr ≡ total o n h ptr + o.ntohs v
  unfolding total
  total-write zero k h a v ptr lt at fits empty = absurd (omega arith)
  total-write (suc n) zero h a v ptr lt at fits empty =
      let same : ptr ≡ a = omega arith in
      let new : o.ntohs (read_word 2 (write_word 2 h a v) ptr) ≡ o.ntohs v =
        ap o.ntohs (
          ap (read_word 2 (write_word 2 h a v)) same
          ∙ read_word-write_word 2 h a v (omega arith)) in
      let old : o.ntohs (read_word 2 h ptr) ≡ 0 =
        ap o.ntohs (ap (read_word 2 h) same ∙ empty) ∙ ok.ntohs-zero in
      omega (arith, new, old, total-behind n h a v (ptr + 2) (omega arith))
  total-write (suc n) (suc k) h a v ptr lt at fits empty = omega (
    arith,
    ap o.ntohs (read_word-apart h a v ptr (inl (omega arith))),
    total-write n k h a v (ptr + 2) (omega arith) (omega arith) fits empty,
  )

fold_carry-multiple : (m : ℕ) → 1 ≤ m → m ≤ 65536 → fold_carry (fold_carry (65535 * m)) ≡ 65535
unfolding fold_carry
fold_carry-multiple m lo hi =
    let first : fold_carry (65535 * m) ≡ 65535 = omega arith in ap fold_carry first

-- Folding twice leaves a number of 16 bits that is the same modulo 65535.
fold_twice :
    (s : ℕ)
    → s < 4294967296
    → (c : ℕ) × (s ≡ fold_carry (fold_carry s) + 65535 * c) × (fold_carry (fold_carry s) < 65536)
unfolding fold_carry
fold_twice s lt =
    let u : ℕ = s / 65536 in
    let f : ℕ = fold_carry s in
    let once : s ≡ f + 65535 * u = omega arith in
    let small : f < 131071 = omega arith in (u + f / 65536, omega arith, omega arith)

-- Adding what is missing to 16 ones gives 16 ones.
fold_complement :
    (s : ℕ)
    → s ≤ 4294836225 - 65535
    → fold_carry (fold_carry (s + (65535 - fold_carry (fold_carry s) % 65536))) ≡ 65535
fold_complement s lt =
    let (c, is, small) = fold_twice s (omega arith) in
    let whole : s + (65535 - fold_carry (fold_carry s) % 65536) ≡ 65535 * (c + 1) =
      omega (arith, is, small) in
    rw whole (fold_carry-multiple (c + 1) (omega arith) (omega (arith, is, lt)))

do_ip_checksum-sum :
    (o : ByteOrder) (h : Memory) (p n s : ℕ)
    → sum_words o n h p 0 ≡ s
    → do_ip_checksum o h p (2 * n) ≡ o.htons (65535 - fold_carry (fold_carry s) % 65536)
unfolding do_ip_checksum
do_ip_checksum-sum o h p n s sum =
    let half : 2 * n / 2 ≡ n = omega arith in
    ap (λ m. o.htons (65535 - fold_carry (fold_carry (sum_words o m h p 0)) % 65536)) half
    ∙ ap (λ t. o.htons (65535 - fold_carry (fold_carry t) % 65536)) sum

-- A header of an even number of bytes, at most 65534 words, one of whose words is 0: when `nb__do_ip_checksum` of
-- it is put into that word, `nb__do_ip_checksum` of the result is that of no error, `htons(0)`.
pub do_ip_checksum-valid :
    (o : ByteOrder) (h : Memory) (p n k : ℕ)
    → IsByteOrder o
    → k < n
    → n < 65535
    → read_word 2 h (p + 2 * k) ≡ 0
    → do_ip_checksum o (write_word 2 h (p + 2 * k) (do_ip_checksum o h p (2 * n))) p (2 * n)
      ≡ o.htons 0
do_ip_checksum-valid o h p n k ok lt small empty =
    let s = total o n h p in
    let rest : ℕ = 65535 - fold_carry (fold_carry s) % 65536 in
    let bound = total-lt o ok n h p in
    let sum : sum_words o n h p 0 ≡ s =
      sum_words-total o ok n h p 0 (omega (arith, bound)) ∙ omega arith in
    let back : o.ntohs (o.htons rest) ≡ rest = ok.ntohs-htons rest (omega arith) in
    let then : sum_words o n (write_word 2 h (p + 2 * k) (o.htons rest)) p 0 ≡ s + rest =
      sum_words-total o ok n _ p 0 (
        omega (
          arith,
          total-write o ok n k h (p + 2 * k) (o.htons rest) p lt refl (ok.htons-lt rest) empty,
          bound,
          back,
        ))
      ∙ omega (
        arith,
        total-write o ok n k h (p + 2 * k) (o.htons rest) p lt refl (ok.htons-lt rest) empty,
        back,
      ) in
    ap (λ v. do_ip_checksum o (write_word 2 h (p + 2 * k) v) p (2 * n))
      (do_ip_checksum-sum o h p n s sum)
    ∙ do_ip_checksum-sum o _ p n (s + rest) then
    ∙ ap (λ f. o.htons (65535 - f % 65536)) (fold_complement s (omega (arith, bound)))
