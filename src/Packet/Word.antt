-- ===== src/Packet/Word.antt =====
-- Laws of the words that `T*` pointers read and write in packet.h.
use Prim.Native.Nat.{ℕ, zero, suc, ◌+◌, ◌*◌, ◌/◌, ◌%◌, ◌^◌, ◌≤◌, ◌<◌}
use mathlib.Core.Path.{◌≡◌, refl, sym, ◌∙◌, ap}
use mathlib.Core.Logic.{◌⊎◌, inl}
use native.Mathlib.Omega.{arith}
use native.Mathlib.Numerals.{towards_suc}
use native.Mathlib.Nat.{div-div-eq-div-mul}
use net_blocks.Packet.Bytes.{Memory, update, read_word, write_word, IsBytes}

pub pow_bytes : (k : ℕ) → 2 ^ (suc k * 8) ≡ 256 * 2 ^ (k * 8)
pow_bytes k = let e : suc k * 8 ≡ k * 8 + 8 = omega arith in rw e (simp towards_suc (omega arith))

pub update-IsBytes : (h : Memory) (a v : ℕ) → IsBytes h → v < 256 → IsBytes (update h a v)
unfolding update
update-IsBytes h a v ok small b = ground (arith, ok b)

pub read_word-lt : (k : ℕ) (h : Memory) (a : ℕ) → IsBytes h → read_word k h a < 2 ^ (k * 8)
unfolding read_word
read_word-lt zero h a ok = omega arith
read_word-lt (suc k) h a ok = omega (arith, ok a, pow_bytes k, read_word-lt k h (a + 1) ok)

-- A word is read from its own bytes only.
pub read_word_ext :
    (k : ℕ) (g h : Memory) (a : ℕ)
    → ((b : ℕ) → a ≤ b → b < a + k → g b ≡ h b)
    → read_word k g a ≡ read_word k h a
unfolding read_word
read_word_ext zero g h a same = refl
read_word_ext (suc k) g h a same = omega (
  arith,
  same a (omega arith) (omega arith),
  read_word_ext k g h (a + 1) (λ b p q. same b (omega arith) (omega arith)),
)

pub write_word-outside :
    (k : ℕ) (h : Memory) (a v b : ℕ) → (b < a) ⊎ (a + k ≤ b) → write_word k h a v b ≡ h b
unfolding write_word update
write_word-outside zero h a v b out = refl
write_word-outside (suc k) h a v b out =
    write_word-outside k (update h a (v % 256)) (a + 1) (v / 256) b (omega arith) ∙ ground arith

pub write_word-IsBytes : (k : ℕ) (h : Memory) (a v : ℕ) → IsBytes h → IsBytes (write_word k h a v)
unfolding write_word
write_word-IsBytes zero h a v ok = ok
write_word-IsBytes (suc k) h a v ok =
    write_word-IsBytes k (update h a (v % 256)) (a + 1) (v / 256)
      (update-IsBytes h a (v % 256) ok (omega arith))

pub read_word-write_word :
    (k : ℕ) (h : Memory) (a v : ℕ) → v < 2 ^ (k * 8) → read_word k (write_word k h a v) a ≡ v
unfolding read_word write_word update
read_word-write_word zero h a v fits = omega arith
read_word-write_word (suc k) h a v fits =
    let h' = update h a (v % 256) in
    omega (
      arith,
      pow_bytes k,
      write_word-outside k h' (a + 1) (v / 256) a (inl (omega arith)),
      self,
      read_word-write_word k h' (a + 1) (v / 256) (omega (arith, pow_bytes k)),
    )
  where
    self : update h a (v % 256) a ≡ v % 256
    self = ground arith

div_shift : (k x y : ℕ) → x < 256 → (x + 256 * y) / 2 ^ (suc k * 8) ≡ y / 2 ^ (k * 8)
div_shift k x y small =
    rw (pow_bytes k, ← div-div-eq-div-mul (x + 256 * y) 256 (2 ^ (k * 8)))
      (ap (λ t. t / 2 ^ (k * 8)) (omega arith))

read_word-update :
    (k : ℕ) (h : Memory) (a v : ℕ) → read_word k (update h a v) (a + 1) ≡ read_word k h (a + 1)
unfolding update
read_word-update k h a v = read_word_ext k (update h a v) h (a + 1) (λ b p q. ground arith)

write_word_same :
    (k : ℕ) (h : Memory) (a v b : ℕ) → IsBytes h → v ≡ read_word k h a → write_word k h a v b ≡ h b
unfolding write_word read_word update
write_word_same zero h a v b ok e = refl
write_word_same (suc k) h a v b ok e =
    let low : v % 256 ≡ h a = omega (arith, ok a) in
    let high : v / 256 ≡ read_word k h (a + 1) = omega (arith, ok a) in
    write_word_same k (update h a (v % 256)) (a + 1) (v / 256) b
      (update-IsBytes h a (v % 256) ok (omega arith))
      (high ∙ sym (read_word-update k h a (v % 256)))
    ∙ ground arith

-- Where the word that is written has the old high part, its high bytes stay as they were.
pub write_word-high :
    (j k : ℕ) (h : Memory) (a v b : ℕ)
    → IsBytes h
    → v / 2 ^ (j * 8) ≡ read_word k h a / 2 ^ (j * 8)
    → a + j ≤ b
    → write_word k h a v b ≡ h b
unfolding write_word read_word update
write_word-high j zero h a v b ok same past = refl
write_word-high zero (suc k) h a v b ok same past = write_word_same (suc k) h a v b ok (omega arith)
write_word-high (suc j) (suc k) h a v b ok same past =
    write_word-high j k (update h a (v % 256)) (a + 1) (v / 256) b
      (update-IsBytes h a (v % 256) ok (omega arith))
      (shifted
        ∙ same
        ∙ div_shift j (h a) (read_word k h (a + 1)) (ok a)
        ∙ ap (λ t. t / 2 ^ (j * 8)) (sym (read_word-update k h a (v % 256))))
      (omega arith)
    ∙ ground arith
  where
    shifted : v / 256 / 2 ^ (j * 8) ≡ v / 2 ^ (suc j * 8)
    shifted = rw (pow_bytes j) (div-div-eq-div-mul v 256 (2 ^ (j * 8)))
