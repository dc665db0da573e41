-- ===== src/Base/Words.antt =====
-- Unsigned machine words, and `|` and `&` with a mask as arithmetic at every width.
mod Step
use Step.{bit_or-halves, bit_and-halves}
use Prim.Native.Nat.{
  ℕ, zero, suc, ◌+◌, ◌-◌, ◌*◌, ◌/◌, ◌%◌, ◌^◌, ◌≤◌, ◌<◌, bit_and, bit_or, bit_or-bitwise,
}
use mathlib.Core.Path.{◌≡◌, refl, ap, ◌∙◌}
use mathlib.Core.WellFounded.{Acc, WellFounded, induction}
use native.Mathlib.Nat.{
  pow-suc, one-le-pow, mod-lt, div-add-mod', mod-eq_of_lt, div-lt_iff_lt-mul, div-div-eq-div-mul,
  mul-add-div_right, div-eq_of_lt, add-zero, mul-add-mod_self_right,
}
use native.Mathlib.Omega.{arith}

abbrev pub u8 : ℕ → ℕ
u8 n = n % 2 ^ 8

abbrev pub u16 : ℕ → ℕ
u16 n = n % 2 ^ 16

abbrev pub u32 : ℕ → ℕ
u32 n = n % 2 ^ 32

abbrev pub u64 : ℕ → ℕ
u64 n = n % 2 ^ 64

bit_or-zero_below : (bound x : ℕ) → x < bound → bit_or x 0 ≡ x
bit_or-zero_below zero x below = absurd (omega arith)
bit_or-zero_below (suc bound) zero below = refl
bit_or-zero_below (suc bound) (suc x) below =
    omega (arith, bit_or-halves (suc x) 0, bit_or-zero_below bound (suc x / 2) (omega arith))

bit_and-zero_below : (bound x : ℕ) → x < bound → bit_and x 0 ≡ 0
bit_and-zero_below zero x below = absurd (omega arith)
bit_and-zero_below (suc bound) zero below = refl
bit_and-zero_below (suc bound) (suc x) below =
    omega (arith, bit_and-halves (suc x) 0, bit_and-zero_below bound (suc x / 2) (omega arith))

pub bit_or-zero : (x : ℕ) → bit_or x 0 ≡ x
bit_or-zero x = bit_or-zero_below (suc x) x (omega arith)

pub bit_and-zero : (x : ℕ) → bit_and x 0 ≡ 0
bit_and-zero x = bit_and-zero_below (suc x) x (omega arith)

-- A shift by one more bit doubles.
shift-suc : (q k : ℕ) → q * 2 ^ suc k ≡ 2 * (q * 2 ^ k)
shift-suc q k = let power = pow-suc 2 k in rw power (ground arith)

-- A field above bit `k` and one below it are put together by `|`.
pub bit_or_fields : (k q r : ℕ) → r < 2 ^ k → bit_or (q * 2 ^ k) r ≡ q * 2 ^ k + r
bit_or_fields zero q r below =
    let none_low : r ≡ 0 = ground arith in rw none_low (ground (arith, bit_or-zero q))
bit_or_fields (suc k) q r below =
    let double = shift-suc q k in
    let rest = bit_or_fields k q (r / 2) (omega arith) in
    let split = bit_or-halves (q * 2 ^ suc k) r in ground (arith, double, rest, split)

zero-bit_or : (a : ℕ) → bit_or 0 a ≡ a
zero-bit_or a = bit_or-bitwise 0 a

pub bit_or_fields_comm : (k q r : ℕ) → r < 2 ^ k → bit_or r (q * 2 ^ k) ≡ r + q * 2 ^ k
bit_or_fields_comm zero q r fits = ground (arith, zero-bit_or q)
bit_or_fields_comm (suc k) q r fits = ground (
  arith,
  bit_or-halves r (q * 2 ^ suc k),
  shift-suc q k,
  bit_or_fields_comm k q (r / 2) (omega arith),
)

-- `&` goes through a split at bit `k`.
pub bit_and_fields :
    (k q m r s : ℕ)
    → r < 2 ^ k
    → s < 2 ^ k
    → bit_and (q * 2 ^ k + r) (m * 2 ^ k + s) ≡ bit_and q m * 2 ^ k + bit_and r s
bit_and_fields zero q m r s hr hs = ground (arith, bit_and-zero 0)
bit_and_fields (suc k) q m r s hr hs = ground (
  arith,
  bit_and-halves (q * 2 ^ suc k + r) (m * 2 ^ suc k + s),
  bit_and-halves r s,
  shift-suc q k,
  shift-suc m k,
  shift-suc (bit_and q m) k,
  pow-suc 2 k,
  bit_and_fields k q m (r / 2) (s / 2),
)

bit_and_ones : (k r : ℕ) → r < 2 ^ k → bit_and r (2 ^ k - 1) ≡ r
bit_and_ones zero r fits = ground (arith, bit_and-zero r)
bit_and_ones (suc k) r fits =
    ground (arith, bit_and-halves r (2 ^ suc k - 1), pow-suc 2 k, bit_and_ones k (r / 2))

split : (k a : ℕ) → a / 2 ^ k * 2 ^ k + a % 2 ^ k ≡ a
split k a = div-add-mod' a (2 ^ k)

-- A mask of `k` low bits is the remainder by `2 ^ k`.
pub bit_and_mask : (k a : ℕ) → bit_and a (2 ^ k - 1) ≡ a % 2 ^ k
bit_and_mask k a =
    let pos : 0 < 2 ^ k = one-le-pow k 2 (omega arith) in
    let low : a % 2 ^ k < 2 ^ k = mod-lt a pos in
    ground (
      arith,
      split k a,
      bit_and_fields k (a / 2 ^ k) 0 (a % 2 ^ k) (2 ^ k - 1),
      bit_and-zero (a / 2 ^ k),
      bit_and_ones k (a % 2 ^ k),
    )

-- A mask that clears the `k` low bits of a number below `2 ^ j * 2 ^ k`.
pub bit_and_clear :
    (j k a : ℕ) → a / 2 ^ k < 2 ^ j → bit_and a ((2 ^ j - 1) * 2 ^ k) ≡ a / 2 ^ k * 2 ^ k
bit_and_clear j k a fits =
    let pos : 0 < 2 ^ k = one-le-pow k 2 (omega arith) in
    let low : a % 2 ^ k < 2 ^ k = mod-lt a pos in
    ground (
      arith,
      split k a,
      bit_and_fields k (a / 2 ^ k) (2 ^ j - 1) (a % 2 ^ k) 0,
      bit_and-zero (a % 2 ^ k),
      bit_and_ones j (a / 2 ^ k),
    )

pub two-pow_add : (a b : ℕ) → 2 ^ (a + b) ≡ 2 ^ a * 2 ^ b
two-pow_add a zero = let e : a + 0 ≡ a = omega arith in rw e (omega arith)
two-pow_add a (suc b) =
    let e : a + suc b ≡ suc (a + b) = omega arith in
    rw (e, pow-suc 2 (a + b), pow-suc 2 b, two-pow_add a b) (omega arith)

pub two-pow-pos : (k : ℕ) → 0 < 2 ^ k
two-pow-pos k = one-le-pow k 2 (omega arith)

mask_parts : (p q : ℕ) → 0 < p → 0 < q → (q ≤ p * q) × (p * q - 1 - (q - 1) ≡ (p - 1) * q)
mask_parts zero q hp hq = absurd (omega arith)
mask_parts (suc p) q hp hq =
    let e : suc p - 1 ≡ p = omega arith in (grind arith, rw e (omega arith))

-- Arithmetic of a number split at bit `k`.
pub fields-lt : (k w q r : ℕ) → k ≤ w → q < 2 ^ (w - k) → r < 2 ^ k → q * 2 ^ k + r < 2 ^ w
fields-lt k w q r le hq hr =
    let e : w ≡ w - k + k = omega arith in
    let sum : 2 ^ w ≡ 2 ^ (w - k) * 2 ^ k = ap (λ t. 2 ^ t) e ∙ two-pow_add (w - k) k in
    rw sum (in_rectangle q r (2 ^ (w - k)) (2 ^ k) hq hr)
  where
    in_rectangle : (q r d p : ℕ) → q < d → r < p → q * p + r < d * p
    in_rectangle q r d p hq hr = grind arith

pub high-lt : (k w a : ℕ) → k ≤ w → a < 2 ^ w → a / 2 ^ k < 2 ^ (w - k)
high-lt k w a le fits =
    let e : w ≡ w - k + k = omega arith in
    let sum : 2 ^ w ≡ 2 ^ (w - k) * 2 ^ k = ap (λ t. 2 ^ t) e ∙ two-pow_add (w - k) k in
    (div-lt_iff_lt-mul (two-pow-pos k)).1 (omega arith)

pub fields-div : (k q r : ℕ) → r < 2 ^ k → (q * 2 ^ k + r) / 2 ^ k ≡ q
fields-div k q r fits =
    mul-add-div_right (two-pow-pos k) q r ∙ ap (λ t. q + t) (div-eq_of_lt fits) ∙ add-zero q

pub fields-mod : (k q r : ℕ) → r < 2 ^ k → (q * 2 ^ k + r) % 2 ^ k ≡ r
fields-mod k q r fits = mul-add-mod_self_right q (2 ^ k) r ∙ mod-eq_of_lt fits

-- Numbers that agree from bit `k` on agree from a later bit on.
pub high_same : (k w a b : ℕ) → k ≤ w → a / 2 ^ k ≡ b / 2 ^ k → a / 2 ^ w ≡ b / 2 ^ w
high_same k w a b le same =
    let e : w ≡ k + (w - k) = omega arith in
    let sum : 2 ^ w ≡ 2 ^ k * 2 ^ (w - k) = ap (λ t. 2 ^ t) e ∙ two-pow_add k (w - k) in
    rw (
      sum,
      ← div-div-eq-div-mul a (2 ^ k) (2 ^ (w - k)),
      ← div-div-eq-div-mul b (2 ^ k) (2 ^ (w - k)),
      same,
    )

-- The complement, at `w` bits, of a mask of `k` low bits clears those bits.
pub bit_and_complement :
    (w k a : ℕ)
    → k ≤ w
    → a < 2 ^ w
    → bit_and a (2 ^ w - 1 - (2 ^ k - 1) % 2 ^ w) ≡ a / 2 ^ k * 2 ^ k
bit_and_complement w k a le fits =
    let sum : 2 ^ w ≡ 2 ^ (w - k) * 2 ^ k = ap (λ t. 2 ^ t) e ∙ two-pow_add (w - k) k in
    let parts = mask_parts (2 ^ (w - k)) (2 ^ k) (two-pow-pos (w - k)) (two-pow-pos k) in
    let small : (2 ^ k - 1) % 2 ^ w ≡ 2 ^ k - 1 =
      mod-eq_of_lt (omega (arith, parts, two-pow-pos k)) in
    let mask : 2 ^ w - 1 - (2 ^ k - 1) ≡ (2 ^ (w - k) - 1) * 2 ^ k = omega (arith, parts) in
    rw (small, mask)
      (bit_and_clear (w - k) k a ((div-lt_iff_lt-mul (two-pow-pos k)).1 (omega arith)))
  where
    e : w ≡ w - k + k
    e = omega arith
