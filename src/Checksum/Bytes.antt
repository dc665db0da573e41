-- ===== src/Checksum/Bytes.antt =====
-- The bytes of a packet that compute_checksum of checksum_module.cpp sums, and of what is sent.
use net_blocks.Base.{
  ℕ, ◌+◌, ◌-◌, ◌*◌, ◌/◌, ◌%◌, ◌≤◌, ◌<◌, ◌≡◌, ◌≢◌, ◌⊎◌, inl, inr, refl, sym, ap, ◌∙◌, arith, true,
  some, none, Option, ◌==◌, ◌&&◌, ◌||◌, if◌then◌else◌, Bool-cases,
}
use net_blocks.Framework.{HookStatus, hook_continue, hook_drop}
use net_blocks.Packet.Bytes.{Memory, update, read_word, write_word, IsBytes}
use net_blocks.Packet.Word.{
  write_word-outside, write_word-IsBytes, update-IsBytes, read_word-write_word,
}
use net_blocks.Packet.Whole.{IsWhole, set_integer-IsWhole, get_integer-IsWhole}
use net_blocks.Checksum.{
  ChecksumType, ChecksumLayout, checksum_member, add_words, end_offset, pad, compute_checksum,
  hook_send, hook_ingress,
}
use net_blocks.Checksum.Sum.{add_words-total}

checksum-IsWhole : (offset : ℕ) → (offset % 8 == 0) ≡ true → IsWhole checksum_member offset
checksum-IsWhole offset on = record { on_byte = on; full = refl; unsigned = refl; no_range = refl }

-- The checksum starts on a byte and lies in what is summed, which is not empty.
pub record IsCovered (l : ChecksumLayout) (ct : ChecksumType) (len : ℕ) : Type 0 where
  pub on_byte : (l.offset % 8 == 0) ≡ true
  pub after_headroom : l.headroom ≤ l.offset / 8
  pub before_end : l.offset / 8 + 2 ≤ end_offset l ct len

module _ (l : ChecksumLayout) (ct : ChecksumType) (len : ℕ) where
  -- The packet that `compute_checksum` sums, and the sum.
  unfoldable pub cleared : Memory → ℕ → Memory
  cleared h p = pad l.headroom (end_offset l ct len) (write_word 2 h (p + l.offset / 8) 0) p

  unfoldable pub checksum_of : Memory → ℕ → ℕ
  checksum_of h p =
      add_words ((end_offset l ct len - l.headroom + 1) / 2) (cleared h p) (p + l.headroom) 0

  unfoldable pub saved : Memory → ℕ → ℕ
  saved g q = read_word 2 g (q + l.offset / 8)

  pub compute_checksum_at :
      (h : Memory) (p : ℕ)
      → (l.offset % 8 == 0) ≡ true
      → compute_checksum l ct len h p ≡ some (checksum_of h p, cleared h p)
  unfolding compute_checksum cleared checksum_of
  compute_checksum_at h p on =
      rw (set_integer-IsWhole checksum_member l.offset h p 0 (checksum-IsWhole l.offset on)) refl

  pub hook_send_at :
      (h : Memory) (p : ℕ)
      → (l.offset % 8 == 0) ≡ true
      → hook_send l ct len h p
        ≡ some (write_word 2 (cleared h p) (p + l.offset / 8) (checksum_of h p), hook_continue)
  unfolding hook_send
  hook_send_at h p on =
      rw
        (
          compute_checksum_at h p on,
          set_integer-IsWhole checksum_member l.offset (cleared h p) p (checksum_of h p)
              (checksum-IsWhole l.offset on),
        )
        refl

  pub hook_ingress_at :
      (g : Memory) (q : ℕ)
      → (l.offset % 8 == 0) ≡ true
      → hook_ingress l ct len g q
        ≡ some (
          write_word 2 (cleared g q) (q + l.offset / 8) (saved g q),
          if checksum_of g q == saved g q then hook_continue else hook_drop,
        )
  unfolding hook_ingress saved
  hook_ingress_at g q on =
      rw
        (
          get_integer-IsWhole checksum_member l.offset g q (checksum-IsWhole l.offset on),
          compute_checksum_at g q on,
          set_integer-IsWhole checksum_member l.offset (cleared g q) q (saved g q)
              (checksum-IsWhole l.offset on),
        )
        refl

  pub cleared-IsBytes : (h : Memory) (p : ℕ) → IsBytes h → IsBytes (cleared h p)
  unfolding cleared pad
  cleared-IsBytes h p ok = elim (Bool-cases ((end_offset l ct len - l.headroom) % 2 == 0)) [
    | inl e ↦ rw e (write_word-IsBytes 2 h (p + l.offset / 8) 0 ok)
    | inr e ↦
        rw e (update-IsBytes _ _ 0 (write_word-IsBytes 2 h (p + l.offset / 8) 0 ok) (omega arith))
  ]

  -- The bytes of the checksum, and the byte that pads, are 0; all others stay.
  pub cleared_byte :
      (h : Memory) (p i : ℕ)
      → cleared h p (p + i) ≡ (
          if ((i == l.offset / 8) || (i == l.offset / 8 + 1))
            || ((i == end_offset l ct len) && ((end_offset l ct len - l.headroom) % 2 == 1))
          then 0
          else h (p + i))
  unfolding cleared pad update write_word
  cleared_byte h p i = ground arith

  pub checksum_of-lt : (h : Memory) (p : ℕ) → checksum_of h p < 65536
  unfolding checksum_of
  checksum_of-lt h p = omega (
    arith,
    add_words-total ((end_offset l ct len - l.headroom + 1) / 2) (cleared h p) (p + l.headroom) 0
        (omega arith),
  )

  -- The packet that is sent, where a byte is not of the checksum.
  unfoldable pub sent : Memory → ℕ → Memory
  sent h p = write_word 2 (cleared h p) (p + l.offset / 8) (checksum_of h p)

  pub sent_byte :
      (h : Memory) (p i : ℕ)
      → i ≢ l.offset / 8
      → i ≢ l.offset / 8 + 1
      → sent h p (p + i) ≡ cleared h p (p + i)
  unfolding sent
  sent_byte h p i first second =
      write_word-outside 2 (cleared h p) (p + l.offset / 8) (checksum_of h p) (p + i)
        (outside first second)
    where
      outside :
          i ≢ l.offset / 8
          → i ≢ l.offset / 8 + 1
          → (p + i < p + l.offset / 8) ⊎ (p + l.offset / 8 + 2 ≤ p + i)
      outside first second = ground arith

  -- The byte arrives as it was sent, if it is not of the checksum.
  abbrev pub Arrives : Memory → Memory → ℕ → ℕ → ℕ → Type 0
  Arrives h g p q i =
      i < end_offset l ct len
      → i ≢ l.offset / 8
      → i ≢ l.offset / 8 + 1
      → g (q + i) ≡ sent h p (p + i)

  -- Such a byte is summed alike, the byte that pads included.
  pub summed_byte :
      (h g : Memory) (p q i : ℕ)
      → i < 2 * ((end_offset l ct len - l.headroom + 1) / 2)
      → Arrives h g p q (l.headroom + i)
      → cleared g q (q + l.headroom + i) ≡ cleared h p (p + l.headroom + i)
  summed_byte h g p q i lt same =
      let left : cleared g q (q + l.headroom + i) ≡ cleared g q (q + (l.headroom + i)) =
        ap (cleared g q) (omega arith) in
      let right : cleared h p (p + l.headroom + i) ≡ cleared h p (p + (l.headroom + i)) =
        ap (cleared h p) (omega arith) in
      let middle : cleared g q (q + (l.headroom + i)) ≡ cleared h p (p + (l.headroom + i)) =
        ground (
          arith,
          cleared_byte h p (l.headroom + i),
          cleared_byte g q (l.headroom + i),
          sent_byte h p (l.headroom + i),
        ) in
      left ∙ middle ∙ sym right

  pub saved-sent :
      (h g : Memory) (p q : ℕ)
      → g (q + l.offset / 8) ≡ sent h p (p + l.offset / 8)
      → g (q + l.offset / 8 + 1) ≡ sent h p (p + l.offset / 8 + 1)
      → saved g q ≡ checksum_of h p
  unfolding saved sent read_word
  saved-sent h g p q first second = omega (
    arith,
    read_word-write_word 2 (cleared h p) (p + l.offset / 8) (checksum_of h p) (checksum_of-lt h p),
  )

  pub kept_byte :
      (g : Memory) (q a : ℕ)
      → IsBytes g
      → a ≢ q + end_offset l ct len
      → write_word 2 (cleared g q) (q + l.offset / 8) (saved g q) a ≡ g a
  unfolding cleared pad update write_word read_word saved
  kept_byte g q a ok ne = ground (arith, ok (q + l.offset / 8), ok (q + l.offset / 8 + 1))

  pub saved-arrives :
      (h g : Memory) (p q : ℕ)
      → g (q + l.offset / 8) ≡ sent h p (p + l.offset / 8)
      → g (q + (l.offset / 8 + 1)) ≡ sent h p (p + (l.offset / 8 + 1))
      → saved g q ≡ checksum_of h p
  saved-arrives h g p q first second =
      let left : q + l.offset / 8 + 1 ≡ q + (l.offset / 8 + 1) = omega arith in
      let right : p + (l.offset / 8 + 1) ≡ p + l.offset / 8 + 1 = omega arith in
      saved-sent h g p q first (ap g left ∙ second ∙ ap (sent h p) right)

  -- The bytes of the checksum, where its value is that of the packet sent.
  pub saved_bytes :
      (h g : Memory) (p q : ℕ)
      → IsBytes g
      → IsBytes h
      → saved g q ≡ checksum_of h p
      → (g (q + l.offset / 8) ≡ sent h p (p + l.offset / 8))
        × (g (q + l.offset / 8 + 1) ≡ sent h p (p + l.offset / 8 + 1))
  unfolding saved sent read_word
  saved_bytes h g p q og oh e =
      let word =
        read_word-write_word 2 (cleared h p) (p + l.offset / 8) (checksum_of h p)
          (checksum_of-lt h p) in
      let os =
        write_word-IsBytes 2 (cleared h p) (p + l.offset / 8) (checksum_of h p)
          (cleared-IsBytes h p oh) in
      let b₁ = og (q + l.offset / 8) in
      let b₂ = og (q + l.offset / 8 + 1) in
      let b₃ = os (p + l.offset / 8) in
      let b₄ = os (p + l.offset / 8 + 1) in
      (omega (arith, word, b₁, b₂, b₃, b₄, e), omega (arith, word, b₁, b₂, b₃, b₄, e))

  pub own_byte :
      (h g : Memory) (p q j : ℕ)
      → g (q + l.offset / 8) ≡ sent h p (p + l.offset / 8)
      → g (q + l.offset / 8 + 1) ≡ sent h p (p + l.offset / 8 + 1)
      → (j ≡ l.offset / 8) ⊎ (j ≡ l.offset / 8 + 1)
      → g (q + j) ≡ sent h p (p + j)
  own_byte h g p q j first second (inl e) = rw e first
  own_byte h g p q j first second (inr e) =
      let left : q + j ≡ q + l.offset / 8 + 1 = omega arith in
      let right : p + l.offset / 8 + 1 ≡ p + j = omega arith in
      ap g left ∙ second ∙ ap (sent h p) right

  pub packet-sent :
      (h packet : Memory) (p : ℕ) (status : HookStatus)
      → (l.offset % 8 == 0) ≡ true
      → hook_send l ct len h p ≡ some (packet, status)
      → packet ≡ sent h p
  unfolding sent
  packet-sent h packet p status on sends = sym (
      ap (λ (o : Option (Memory × HookStatus)). elim o [ none ↦ h | some r ↦ r.0 ])
        (sym (hook_send_at h p on) ∙ sends))
