-- ===== src/Packet/Unaligned.antt =====
-- Members of packet.h that start inside a byte and end in it.
use Prim.Native.Nat.{bit_and, bit_or}
use native.Mathlib.Nat.{mod-eq_of_lt, mod-lt, pow-le-pow_right}
use net_blocks.Base.{
  ℕ, zero, suc, ◌+◌, ◌-◌, ◌*◌, ◌/◌, ◌%◌, ◌^◌, ◌≤◌, ◌<◌, ◌≡◌, ◌≢◌, refl, ap, ◌∙◌, inl, inr, true,
  false, some, arith, ◌==◌, leb, if◌then◌else◌, Bool-cases,
}
use net_blocks.Base.Words.{
  u8, bit_or_fields_comm, bit_and_mask, two-pow_add, two-pow-pos, fields-lt, fields-div,
}
use net_blocks.Packet.{
  byte_size, IntegerMember, extract_bits_lower, set_bits_lower, lower_bits, get_raw, set_raw,
  get_integer, set_integer,
}
use net_blocks.Packet.Bytes.{Memory, update, IsBytes}
use net_blocks.Packet.Aligned.{Fits, get_value_mask-some, stored_raw}

-- A mask of 8 bits or more, shifted, leaves the bits below the shift when it is complemented.
cleared_mask : (s : ℕ) → s < 8 → 255 - u8 (255 * 2 ^ s) ≡ 2 ^ s - 1
cleared_mask zero h = refl
cleared_mask (suc zero) h = refl
cleared_mask (suc (suc zero)) h = refl
cleared_mask (suc (suc (suc zero))) h = refl
cleared_mask (suc (suc (suc (suc zero)))) h = refl
cleared_mask (suc (suc (suc (suc (suc zero))))) h = refl
cleared_mask (suc (suc (suc (suc (suc (suc zero)))))) h = refl
cleared_mask (suc (suc (suc (suc (suc (suc (suc zero))))))) h = refl
cleared_mask (suc (suc (suc (suc (suc (suc (suc (suc s)))))))) h = absurd (omega arith)

long_mask : (k : ℕ) → 8 ≤ k → u8 (2 ^ k - 1) ≡ 255
long_mask k h =
    let e : k ≡ 8 + (k - 8) = omega arith in
    let sum : 2 ^ k ≡ 2 ^ 8 * 2 ^ (k - 8) = ap (λ t. 2 ^ t) e ∙ two-pow_add 8 (k - 8) in
    omega (arith, sum, two-pow-pos (k - 8))

-- The byte that `set_bits_lower` leaves when the member starts past the first byte of the packet.
lower_byte :
    (byte offset s raw n : ℕ)
    → byte < 256
    → 8 ≤ offset
    → s < 8
    → raw < 2 ^ n
    → s + n ≤ 8
    → u8 (bit_or (bit_and byte (255 - u8 (u8 (2 ^ offset - 1) * 2 ^ s))) (u8 raw * 2 ^ s))
      ≡ byte % 2 ^ s + raw * 2 ^ s
lower_byte byte offset s raw n hb far hs fits room =
    let narrow : 2 ^ n ≤ 2 ^ (8 - s) =
      pow-le-pow_right {n = 2} (omega arith) {i = n} {j = 8 - s} (omega arith) in
    let byte_wide : 2 ^ (8 - s) ≤ 2 ^ 8 =
      pow-le-pow_right {n = 2} (omega arith) {j = 8} (omega arith) in
    let low : byte % 2 ^ s < 2 ^ s = mod-lt byte (two-pow-pos s) in
    let sum : raw * 2 ^ s + byte % 2 ^ s < 2 ^ 8 =
      fields-lt s 8 raw (byte % 2 ^ s) (omega arith) (omega arith) low in
    rw
      (
        long_mask offset far,
        cleared_mask s hs,
        bit_and_mask s byte,
        mod-eq_of_lt {n = raw} {m = 256} (omega arith),
        bit_or_fields_comm s raw (byte % 2 ^ s) low,
      )
      (mod-eq_of_lt (omega arith))

-- What `extract_bits_lower` reads of a byte whose low `s` bits are `low` and whose others are `raw`.
upper_part :
    (s n low raw : ℕ)
    → s < 8
    → n < 64
    → low < 2 ^ s
    → raw < 2 ^ n
    → s + n ≤ 8
    → (if s + n == byte_size
        then some (u8 ((low + raw * 2 ^ s) / 2 ^ s))
        else some (bit_and (u8 ((low + raw * 2 ^ s) / 2 ^ s)) (u8 (2 ^ n - 1))))
      ≡ some raw
upper_part s n low raw hs hn hl fits room =
    let narrow : 2 ^ n ≤ 2 ^ 8 = pow-le-pow_right {n = 2} (omega arith) {j = 8} (omega arith) in
    let order : low + raw * 2 ^ s ≡ raw * 2 ^ s + low = omega arith in
    rw
      (
        order,
        fields-div s raw low hl,
        mod-eq_of_lt {n = raw} {m = 256} (omega arith),
        mod-eq_of_lt {n = 2 ^ n - 1} {m = 256} (omega (arith, two-pow-pos n)),
        bit_and_mask n raw,
        mod-eq_of_lt fits,
      )
      (elim (Bool-cases (s + n == byte_size)) [ inl e ↦ rw e | inr e ↦ rw e ])

set_bits_lower_lem :
    (h : Memory) (base from to raw n : ℕ)
    → IsBytes h
    → 8 ≤ from
    → from < 64
    → to - from ≡ n
    → from % 8 + n ≤ 8
    → raw < 2 ^ n
    → set_bits_lower h base from to raw
      ≡ some
          (update h (base + from / 8) (h (base + from / 8) % 2 ^ (from % 8) + raw * 2 ^ (from % 8)))
unfolding set_bits_lower
set_bits_lower_lem h base from to raw n hb far near len room fits =
    let small : leb n byte_size ≡ true = ground arith in
    rw (len, small, get_value_mask-some from near)
      (ap (λ t. some (update h (base + from / 8) t))
        (lower_byte (h (base + from / 8)) from (from % 8) raw n (hb _) far (omega arith) fits room))

extract_bits_lower_lem :
    (h : Memory) (base from to raw n low : ℕ)
    → to - from ≡ n
    → from % 8 + n ≤ 8
    → raw < 2 ^ n
    → low < 2 ^ (from % 8)
    → h (base + from / 8) ≡ low + raw * 2 ^ (from % 8)
    → extract_bits_lower h base from to ≡ some raw
unfolding extract_bits_lower
extract_bits_lower_lem h base from to raw n low len room fits hl byte =
    let small : leb n byte_size ≡ true = ground arith in
    rw (len, small, byte, get_value_mask-some n (omega arith))
      (upper_part (from % 8) n low raw (omega arith) (omega arith) hl fits room)

-- A member that starts inside a byte, past the first byte and in the first 64 bits of the packet, and
-- ends in the same byte, with a value that fits: `set_integer` then `get_integer` gives the value back. But every bit above the member's first
-- one is overwritten, so the members that share the rest of the byte become 0.
pub set_integer_clobbers :
    (m : IntegerMember) (offset : ℕ) (h : Memory) (base v : ℕ)
    → IsBytes h
    → offset % 8 ≢ 0
    → 8 ≤ offset
    → offset < 64
    → 0 < m.bit_size
    → offset % 8 + m.bit_size ≤ 8
    → Fits m v
    → (h' : Memory) × (set_integer m offset h base v ≡ some h')
      × (get_integer m offset h' base ≡ some v)
      × (h' (base + offset / 8)
          ≡ h (base + offset / 8) % 2 ^ (offset % 8) + (v - m.range_base) * 2 ^ (offset % 8))
      × ((a : ℕ) → a ≢ base + offset / 8 → h' a ≡ h a)
unfolding set_integer set_raw get_integer get_raw update
set_integer_clobbers m offset h base v hb inside far near pos room fits =
    (written, stored, read_back, ground arith, ground arith)
  where
    n : ℕ
    n = m.bit_size

    raw : ℕ
    raw = v - m.range_base

    s : ℕ
    s = offset % 8

    addr : ℕ
    addr = base + offset / 8

    byte : ℕ
    byte = h addr % 2 ^ s + raw * 2 ^ s

    written : Memory
    written = update h addr byte

    unaligned : (offset % 8 == 0) ≡ false
    unaligned = ground arith

    whole : lower_bits offset m.bit_size ≡ m.bit_size
    whole = unfold lower_bits in ground arith

    rest : offset + n - (offset + n) ≡ 0
    rest = omega arith

    stored : set_integer m offset h base v ≡ some written
    stored = rw (
      stored_raw m v fits,
      unaligned,
      whole,
      get_value_mask-some n (omega arith),
      bit_and_mask n raw,
      mod-eq_of_lt fits.below,
      rest,
      set_bits_lower_lem h base offset (offset + n) raw n hb far near (omega arith) room fits.below,
    )

    read_back : get_integer m offset written base ≡ some v
    read_back =
        rw
          (
            unaligned,
            whole,
            rest,
            extract_bits_lower_lem written base offset (offset + n) raw n (h addr % 2 ^ s)
                (omega arith) room fits.below (mod-lt (h addr) (two-pow-pos s)) (ground arith),
          )
          (ap some (ground arith))
