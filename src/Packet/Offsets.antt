-- ===== src/Packet/Offsets.antt =====
-- The offsets of the members in a chain: order, alignment, no overlap.
use net_blocks.Base.{
  ℕ, ◌+◌, ◌-◌, ◌%◌, ◌≤◌, ◌<◌, ◌≡◌, refl, true, false, inl, inr, List, [], ◌∷◌, ◌++◌, arith,
  Bool-cases,
}
use native.Mathlib.Nat.{div-add-mod', mod-lt, le_refl}
use net_blocks.Packet.{
  byte_size, align_to, Member, integer, byte_array, get_size, place, get_offset,
}

-- Members are aligned to a positive number of bits.
abbrev pub IsPlaceable : Member → Type 0
IsPlaceable (integer m) = 0 < m.align
IsPlaceable (byte_array n aligned) = Unit {0}

abbrev pub AllPlaceable : List Member → Type 0
AllPlaceable [] = Unit {0}
AllPlaceable (m ∷ ms) = IsPlaceable m × AllPlaceable ms

pub le-align_to : (v a : ℕ) → 0 < a → v ≤ align_to v a
unfolding align_to
le-align_to v a pos = grind (arith, div-add-mod' (v + a - 1) a, mod-lt (v + a - 1) pos)

pub align_to-lt : (v a : ℕ) → 0 < a → align_to v a < v + a
unfolding align_to
align_to-lt v a pos = grind (arith, div-add-mod' (v + a - 1) a)

le-place : (m : Member) (end : ℕ) → IsPlaceable m → end ≤ place m end
unfolding place
le-place (integer m) end ok = elim (Bool-cases m.aligned) [
  | inl e ↦ rw e (le-align_to end m.align ok)
  | inr e ↦ rw e (le_refl end)
]
le-place (byte_array n true) end ok = le-align_to end byte_size (omega arith)
le-place (byte_array n false) end ok = le_refl end

-- Members with positive alignments do not overlap: each starts at or after the end of every member
-- before it.
pub get_offset_disjoint :
    (m p : Member) (between before : List Member)
    → IsPlaceable m
    → AllPlaceable between
    → IsPlaceable p
    → get_offset p before + get_size p ≤ get_offset m (between ++ p ∷ before)
unfolding get_offset
get_offset_disjoint m p [] before hm hb hp = le-place m (get_offset p before + get_size p) hm
get_offset_disjoint m p (q ∷ between) before hm (hq, hb) hp =
    let ih = get_offset_disjoint q p between before hq hb hp in
    let step = le-place m (get_offset q (between ++ p ∷ before) + get_size q) hm in omega arith

-- The members that `member_flags::aligned` puts on a byte.
abbrev pub IsByteAligned : Member → Type 0
IsByteAligned (integer k) = (k.aligned ≡ true) × (k.align ≡ 8)
IsByteAligned (byte_array n flag) = flag ≡ true

-- A member with the aligned flag and the default alignment starts on a byte, less than 8 bits
-- past the end of the member before it.
pub get_offset_aligned :
    (m p : Member) (ps : List Member)
    → IsByteAligned m
    → (get_offset m [] % 8 ≡ 0)
      × (get_offset m (p ∷ ps) % 8 ≡ 0)
      × (get_offset m (p ∷ ps) < get_offset p ps + get_size p + 8)
unfolding get_offset place
get_offset_aligned (integer k) p ps (flag, eight) =
    let end = get_offset p ps + get_size p in
    rw (flag, eight) (refl, unfold align_to in omega arith, align_to-lt end 8 (omega arith))
get_offset_aligned (byte_array n flag) p ps ok =
    let end = get_offset p ps + get_size p in
    rw ok (refl, unfold align_to in omega arith, align_to-lt end 8 (omega arith))
