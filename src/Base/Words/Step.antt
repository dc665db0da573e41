-- ===== src/Base/Words/Step.antt =====
-- `bit_or` and `bit_and` by halves: the rest of the digits, and the lowest one.
use Prim.Native.Nat.{
  ℕ, zero, suc, ◌+◌, ◌-◌, ◌*◌, ◌/◌, ◌%◌, ◌≤◌, min, max, digits, bitwise, bit_and, bit_or,
  bit_and-bitwise, bit_or-bitwise,
}
use mathlib.Core.Path.{◌≡◌, refl, ap, ◌∙◌}
use native.Mathlib.Omega.{arith}

module _ (alone : ℕ → ℕ) (digit : ℕ → ℕ → ℕ) where
  -- One more unit of fuel than the number needs is not used.
  spare_unit :
      (fuel x y : ℕ) → x ≤ fuel → digits alone digit (suc fuel) x y ≡ digits alone digit fuel x y
  spare_unit zero zero y le = refl
  spare_unit (suc fuel) zero y le = refl
  spare_unit zero (suc x) y le = absurd (omega arith)
  spare_unit (suc fuel) (suc x) y le = rw (spare_unit fuel (suc x / 2) (y / 2) (omega arith))

  spare_fuel :
      (spare fuel x y : ℕ)
      → fuel ≡ x + spare
      → digits alone digit fuel x y ≡ bitwise alone digit x y
  spare_fuel zero fuel x y e =
      let same : fuel ≡ x = omega arith in ap (λ n. digits alone digit n x y) same
  spare_fuel (suc spare) zero x y e = absurd (omega arith)
  spare_fuel (suc spare) (suc fuel) x y e =
      spare_unit fuel x y (omega arith) ∙ spare_fuel spare fuel x y (omega arith)

  halves :
      (x y : ℕ)
      → bitwise alone digit (suc x) y
        ≡ bitwise alone digit (suc x / 2) (y / 2) * 2 + digit (suc x % 2) (y % 2)
  halves x y =
      let rest = spare_fuel (x - suc x / 2) x (suc x / 2) (y / 2) (omega arith) in
      omega (arith, rest)

pub bit_or-halves : (x y : ℕ) → bit_or x y ≡ bit_or (x / 2) (y / 2) * 2 + max (x % 2) (y % 2)
bit_or-halves zero y = simp bit_or-bitwise (omega arith)
bit_or-halves (suc x) y = simp bit_or-bitwise (halves (λ d. d) max x y)

pub bit_and-halves : (x y : ℕ) → bit_and x y ≡ bit_and (x / 2) (y / 2) * 2 + min (x % 2) (y % 2)
bit_and-halves zero y = simp bit_and-bitwise (omega arith)
bit_and-halves (suc x) y = simp bit_and-bitwise (halves (λ d. 0) min x y)
