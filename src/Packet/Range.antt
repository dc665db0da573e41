-- ===== src/Packet/Range.antt =====
-- `set_custom_range` of packet.h: the bit size of a member with a range of values.
use native.Mathlib.Nat.{pow-suc, pow-le-pow_right, add-mod_right, mod-eq_of_lt}
use net_blocks.Base.{
  ℕ, zero, suc, ◌+◌, ◌-◌, ◌*◌, ◌/◌, ◌%◌, ◌^◌, ◌≤◌, ◌<◌, ◌≡◌, refl, ◌∙◌, false, none, if◌then◌else◌,
  inl, inr, some, arith, ◌==◌, Bool-cases,
}
use net_blocks.Packet.{IntegerMember, count_bits, set_custom_range}
use net_blocks.Packet.Aligned.{IsWellFormed, Fits}

two-pow-pred : (c : ℕ) → 2 ^ suc c ≡ 2 * 2 ^ c
two-pow-pred c = omega (arith, pow-suc 2 c)

count_bits-zero : (fuel : ℕ) → count_bits fuel 0 ≡ 0
unfolding count_bits
count_bits-zero zero = refl
count_bits-zero (suc fuel) = refl

-- The bound from below, from the one for half the number.
low_bound :
    (r c : ℕ)
    → 0 < r
    → (r / 2 ≡ 0 → c ≡ 0)
    → (0 < r / 2 → 2 ^ (c - 1) ≤ r / 2)
    → r / 2 < 2 ^ c
    → 2 ^ c ≤ r
low_bound r zero pos z low high = omega arith
low_bound r (suc c) pos z low high = ground (arith, two-pow-pred c)

-- The loop counts the bits of `r`: enough of them, and none to spare.
pub count_bits_lem :
    (fuel r : ℕ)
    → r < 2 ^ fuel
    → (r < 2 ^ count_bits fuel r)
      × (count_bits fuel r ≤ fuel)
      × (0 < r → 2 ^ (count_bits fuel r - 1) ≤ r)
unfolding count_bits
count_bits_lem zero r fits = omega arith
count_bits_lem (suc fuel) r fits = elim (Bool-cases (r == 0)) [
  | inl e ↦ rw e (ground arith)
  | inr e ↦
      let (high, le, low) = count_bits_lem fuel (r / 2) (omega (arith, two-pow-pred fuel)) in
      let c = count_bits fuel (r / 2) in
      let least : 2 ^ c ≤ r =
        low_bound r c (ground arith) (λ z. rw (z, count_bits-zero fuel)) low high in
      let shift : suc c - 1 ≡ c = omega arith in
      rw e (omega (arith, two-pow-pred c), omega arith, λ pos. rw shift least)
]

-- `set_custom_range` with a range that is not empty, of an unsigned `T` of at most 64 bits, gives a member of the least size in which every
-- value of the range fits, so that such a value can be stored and read back.
pub set_custom_range-Fits :
    (m : IntegerMember) (lo hi : ℕ)
    → m.bytes ≤ 8
    → 0 < m.bytes
    → m.is_signed ≡ false
    → lo < hi
    → hi < 2 ^ (8 * m.bytes)
    → (m' : IntegerMember) × (set_custom_range m lo hi ≡ some m')
      × IsWellFormed m'
      × ((v : ℕ) → lo ≤ v → v < hi → Fits m' v)
      × (1 < hi - lo → 2 ^ (m'.bit_size - 1) ≤ hi - lo - 1)
unfolding set_custom_range
set_custom_range-Fits m lo hi word pos plain range cap = (
  m',
  rw size (nonempty (hi - lo) (omega arith)),
  record { word = word; nonempty = pos; size = omega (arith, bits.1) },
  λ v above below. record {
    above = above;
    below = omega (arith, bits.0);
    machine = omega (arith, pow-le-pow_right {n = 2} (omega arith) {j = 64} width);
    nonnegative = λ signed. absurd (cc);
  },
  λ two. bits.2 (omega arith),
)
  where
    bits :
        (hi - lo - 1 < 2 ^ count_bits (8 * m.bytes) (hi - lo - 1))
        × (count_bits (8 * m.bytes) (hi - lo - 1) ≤ 8 * m.bytes)
        × (0 < hi - lo - 1 → 2 ^ (count_bits (8 * m.bytes) (hi - lo - 1) - 1) ≤ hi - lo - 1)
    bits = count_bits_lem (8 * m.bytes) (hi - lo - 1) (omega arith)

    m' : IntegerMember
    m' = record m { bit_size = count_bits (8 * m.bytes) (hi - lo - 1); range_base = lo }

    width : 8 * m.bytes ≤ 64
    width = omega arith

    shift : hi + 2 ^ (8 * m.bytes) - lo ≡ hi - lo + 2 ^ (8 * m.bytes)
    shift = omega arith

    size : (hi + 2 ^ (8 * m.bytes) - lo) % 2 ^ (8 * m.bytes) ≡ hi - lo
    size = rw shift (add-mod_right (hi - lo) (2 ^ (8 * m.bytes)) ∙ mod-eq_of_lt (omega arith))

    nonempty :
        (n : ℕ)
        → 0 < n
        → (if n == 0
            then none
            else some (record m { bit_size = count_bits (8 * m.bytes) (n - 1); range_base = lo }))
          ≡ some (record m { bit_size = count_bits (8 * m.bytes) (n - 1); range_base = lo })
    nonempty n h = ground arith
