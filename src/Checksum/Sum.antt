-- ===== src/Checksum/Sum.antt =====
-- The sum in checksum_module.cpp is that of all words modulo 2 ^ 16, and shows every change of one byte.
use net_blocks.Base.{
  ℕ, zero, suc, ◌+◌, ◌*◌, ◌%◌, ◌<◌, ◌≡◌, ◌≢◌, ◌⊎◌, inl, inr, refl, sym, ap, ◌∙◌, arith,
}
use net_blocks.Base.Words.{u16}
use net_blocks.Packet.Bytes.{Memory, read_word, IsBytes}
use net_blocks.Checksum.{add_words}

-- The sum of the words as a number.
pub total : ℕ → Memory → ℕ → ℕ
total zero h ptr = 0
total (suc n) h ptr = h ptr + 256 * h (ptr + 1) + total n h (ptr + 2)

pub add_words-total :
    (n : ℕ) (h : Memory) (ptr acc : ℕ)
    → acc < 65536
    → add_words n h ptr acc ≡ (acc + total n h ptr) % 65536
unfolding add_words total read_word
add_words-total zero h ptr acc lt = omega arith
add_words-total (suc n) h ptr acc lt =
    add_words-total n h (ptr + 2) (u16 (acc + read_word 2 h ptr)) (omega arith) ∙ omega arith

same_at : (g h : Memory) (a b i x y : ℕ) → g (a + i) ≡ h (b + i) → x ≡ a + i → y ≡ b + i → g x ≡ h y
same_at g h a b i x y same ex ey = ap g ex ∙ same ∙ ap h (sym ey)

pub total_ext :
    (n : ℕ) (g h : Memory) (a b : ℕ)
    → ((i : ℕ) → i < 2 * n → g (a + i) ≡ h (b + i))
    → total n g a ≡ total n h b
unfolding total
total_ext zero g h a b same = refl
total_ext (suc n) g h a b same = omega (
  arith,
  same_at g h a b 0 a b (same 0 (omega arith)) (omega arith) (omega arith),
  same_at g h a b 1 (a + 1) (b + 1) (same 1 (omega arith)) refl refl,
  total_ext n g h (a + 2) (b + 2) (λ i lt.
      same_at g h a b (i + 2) (a + 2 + i) (b + 2 + i) (same (i + 2) (omega arith)) (omega arith)
        (omega arith)),
)

-- Where one byte differs, the sums differ by as much, times the byte's place in its word.
pub total_one :
    (n : ℕ) (g h : Memory) (a b j : ℕ)
    → j < 2 * n
    → ((i : ℕ) → i < 2 * n → i ≢ j → g (a + i) ≡ h (b + i))
    → (w : ℕ) × ((w ≡ 1) ⊎ (w ≡ 256)) × (total n g a + w * h (b + j) ≡ total n h b + w * g (a + j))
unfolding total
total_one zero g h a b j lt same = absurd (omega arith)
total_one (suc n) g h a b zero lt same =
    let rest = total_ext n g h (a + 2) (b + 2) (λ i k.
      same_at g h a b (i + 2) (a + 2 + i) (b + 2 + i) (same (i + 2) (omega arith) (omega arith))
        (omega arith) (omega arith)) in
    (
      1,
      inl refl,
      omega (
        arith,
        rest,
        same 1 (omega arith) (omega arith),
        ap g (let e : a + 0 ≡ a = omega arith in e),
        ap h (let e : b + 0 ≡ b = omega arith in e),
      ),
    )
total_one (suc n) g h a b (suc zero) lt same =
    let rest = total_ext n g h (a + 2) (b + 2) (λ i k.
      same_at g h a b (i + 2) (a + 2 + i) (b + 2 + i) (same (i + 2) (omega arith) (omega arith))
        (omega arith) (omega arith)) in
    (
      256,
      inr refl,
      omega (
        arith,
        rest,
        same_at g h a b 0 a b (same 0 (omega arith) (omega arith)) (omega arith) (omega arith),
      ),
    )
total_one (suc n) g h a b (suc (suc j)) lt same =
    let (w, is, e) = total_one n g h (a + 2) (b + 2) j (omega arith) (λ i k ne.
      same_at g h a b (i + 2) (a + 2 + i) (b + 2 + i) (same (i + 2) (omega arith) (omega arith))
        (omega arith) (omega arith)) in
    let first =
      same_at g h a b 0 a b (same 0 (omega arith) (omega arith)) (omega arith) (omega arith) in
    let second = same 1 (omega arith) (omega arith) in
    let here : g (a + suc (suc j)) ≡ g (a + 2 + j) = ap g (omega arith) in
    let there : h (b + suc (suc j)) ≡ h (b + 2 + j) = ap h (omega arith) in
    (w, is, rw (here, there) (grind (arith, e, first, second)))

apart :
    (w s t x y : ℕ)
    → (w ≡ 1) ⊎ (w ≡ 256)
    → s + w * y ≡ t + w * x
    → s % 65536 ≡ t % 65536
    → x < 256
    → y < 256
    → x ≢ y
    → ⊥
apart w s t x y (inl one) e sums bx by differs =
    differs (omega (arith, ap (λ n. n * y) one, ap (λ n. n * x) one))
apart w s t x y (inr high) e sums bx by differs =
    differs (omega (arith, ap (λ n. n * y) high, ap (λ n. n * x) high))

-- One byte that differs changes the sum.
pub add_words_one :
    (n : ℕ) (g h : Memory) (a b j : ℕ)
    → IsBytes g
    → IsBytes h
    → j < 2 * n
    → ((i : ℕ) → i < 2 * n → i ≢ j → g (a + i) ≡ h (b + i))
    → g (a + j) ≢ h (b + j)
    → add_words n g a 0 ≢ add_words n h b 0
add_words_one n g h a b j bg bh lt same differs equal =
    let (w, is, e) = total_one n g h a b j lt same in
    let sums : total n g a % 65536 ≡ total n h b % 65536 =
      omega (arith, add_words-total n g a 0 (omega arith), add_words-total n h b 0 (omega arith)) in
    apart w (total n g a) (total n h b) (g (a + j)) (h (b + j)) is e sums (bg (a + j)) (bh (b + j))
      differs
