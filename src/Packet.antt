-- ===== src/Packet.antt =====
-- include/core/packet.h: members of a programmable packet layout, and the integers that are read
-- and written in them. Bytes lie at addresses; the generated code runs on a little-endian machine.
-- `none` stands for a failed assertion and for a shift past the width, which is undefined.
pub mod Bytes
pub mod Word
pub mod Aligned
pub mod Unaligned
pub mod Range
pub mod Offsets
pub mod Whole
pub mod Local
mod Examples
use Prim.Native.Nat.{bit_and, bit_or}
use net_blocks.Base.{
  ℕ, zero, suc, ◌+◌, ◌-◌, ◌*◌, ◌/◌, ◌%◌, ◌^◌, Bool, true, false, ◌&&◌, Option, none, some, List, [],
  ◌∷◌, ltb, leb, ◌==◌, if◌then◌else◌,
}
use net_blocks.Base.Words.{u8, u64}
use Bytes.{Memory, update, read_word, write_word}

abbrev pub byte_size : ℕ
byte_size = 8

unfoldable pub align_to : ℕ → ℕ → ℕ
align_to v a = (v + a - 1) / a * a

-- `generic_integer_member<T, BITS>`: `bytes` is `sizeof(T)`, `aligned` the one member flag.
pub record IntegerMember : Type 0 where
  pub bytes : ℕ
  pub is_signed : Bool
  pub aligned : Bool
  pub align : ℕ
  pub bit_size : ℕ
  pub range_base : ℕ

-- The subclasses of `dynamic_member`; `byte_array` is `byte_array_member<N>`, with its flag.
pub data Member : Type 0 where
  integer : IntegerMember → Member
  byte_array : ℕ → Bool → Member

unfoldable pub get_size : Member → ℕ
get_size (integer m) = m.bit_size
get_size (byte_array n aligned) = n * byte_size

unfoldable pub place : Member → ℕ → ℕ
unfolding align_to
place (integer m) end = if m.aligned then align_to end m.align else end
place (byte_array n aligned) end = if aligned then align_to end byte_size else end

-- The list holds the members that `m_prev` leads through, the nearest first.
unfoldable pub get_offset : Member → List Member → ℕ
unfolding place get_size
get_offset m [] = 0
get_offset m (p ∷ ps) = place m (get_offset p ps + get_size p)

-- `get_addr`: an address only where the offset is a whole number of bytes.
unfoldable pub get_addr : ℕ → ℕ → Option ℕ
get_addr offset base = if offset % byte_size == 0 then some (base + offset / byte_size) else none

infixl 5 ◌>>=◌
abbrev pub ◌>>=◌ : {A B : Type 0} → Option A → (A → Option B) → Option B
none >>= f = none
some a >>= f = f a

abbrev pub guard : Bool → Option (Unit {0})
guard true = some tt
guard false = none

infixl 5 ◌>>◌
abbrev pub ◌>>◌ : {B : Type 0} → Option (Unit {0}) → Option B → Option B
m >> k = m >>= λ _. k

-- `(1ull << n_bits) - 1`
unfoldable pub get_value_mask : ℕ → Option ℕ
get_value_mask n_bits = if ltb n_bits 64 then some (2 ^ n_bits - 1) else none

-- A `T` that is widened to `unsigned long long`: a signed one extends its sign.
unfoldable pub widen : IntegerMember → ℕ → ℕ
widen m x =
    if m.is_signed && leb (2 ^ (byte_size * m.bytes - 1)) x
    then x + 2 ^ 64 - 2 ^ (byte_size * m.bytes)
    else x

unfoldable pub extract_bits_lower : Memory → ℕ → ℕ → ℕ → Option ℕ
extract_bits_lower h base bit_start bit_end = do
  guard (leb (bit_end - bit_start) byte_size)
  let num_bits = bit_end - bit_start
  let bit_shift = bit_start % byte_size
  let value = u8 (h (base + bit_start / byte_size) / 2 ^ bit_shift)
  if bit_shift + num_bits == byte_size
      then some value
      else get_value_mask num_bits >>= λ mask. some (bit_and value (u8 mask))

unfoldable pub extract_bits_upper : IntegerMember → Memory → ℕ → ℕ → ℕ → Option ℕ
extract_bits_upper m h base bit_start bit_end = do
  guard (bit_start % byte_size == 0)
  let num_bits = bit_end - bit_start
  let value = widen m (read_word m.bytes h (base + bit_start / byte_size))
  if num_bits == m.bytes * byte_size
      then some value
      else get_value_mask num_bits >>= λ mask. some (bit_and value mask)

-- `int num_bits = bit_end = bit_start`: the mask has `bit_start` bits.
pub set_bits_lower : Memory → ℕ → ℕ → ℕ → ℕ → Option Memory
set_bits_lower h base bit_start bit_end val = do
  guard (leb (bit_end - bit_start) byte_size)
  let num_bits = bit_start
  let bit_shift = bit_start % byte_size
  let addr = base + bit_start / byte_size
  mask ← get_value_mask num_bits
  let cleared = bit_and (h addr) (255 - u8 (u8 mask * 2 ^ bit_shift))
  some (update h addr (u8 (bit_or cleared (u8 val * 2 ^ bit_shift))))

unfoldable pub set_bits_upper : IntegerMember → Memory → ℕ → ℕ → ℕ → ℕ → Option Memory
set_bits_upper m h base bit_start bit_end val = do
  guard (bit_start % byte_size == 0)
  let num_bits = bit_end - bit_start
  let addr = base + bit_start / byte_size
  let width = m.bytes * byte_size
  let old = read_word m.bytes h addr
  if num_bits == width
      then some (write_word m.bytes h addr val)
      else (get_value_mask num_bits >>= λ mask. some (
          write_word m.bytes h addr
            (bit_or (bit_and old (2 ^ width - 1 - mask % 2 ^ width)) val % 2 ^ width)))

-- The bits of an unaligned member that share its first byte.
pub lower_bits : ℕ → ℕ → ℕ
lower_bits offset size =
    if ltb size (byte_size - offset % byte_size) then size else byte_size - offset % byte_size

module _ (m : IntegerMember) (offset : ℕ) where
  unfoldable pub get_raw : Memory → ℕ → Option ℕ
  get_raw h base =
      let bit_end = offset + m.bit_size in
      let lb = lower_bits offset m.bit_size in
      if offset % 8 == 0
      then extract_bits_upper m h base offset bit_end
      else if bit_end - (offset + lb) == 0
      then extract_bits_lower h base offset (offset + lb)
      else (do
        low ← extract_bits_lower h base offset (offset + lb)
        high ← extract_bits_upper m h base (offset + lb) bit_end
        some (bit_or low (u64 (high * 2 ^ lb))))

  unfoldable pub get_integer : Memory → ℕ → Option ℕ
  get_integer h base = do
    value ← get_raw h base
    some (if m.range_base == 0 then value else u64 (value + m.range_base))

  unfoldable pub set_raw : Memory → ℕ → ℕ → Option Memory
  set_raw h base val =
      let bit_end = offset + m.bit_size in
      let lb = lower_bits offset m.bit_size in
      if offset % 8 == 0 then set_bits_upper m h base offset bit_end val else (do
        mask ← get_value_mask lb
        h' ← set_bits_lower h base offset (offset + lb) (bit_and val mask)
        if bit_end - (offset + lb) == 0
            then some h'
            else set_bits_upper m h' base (offset + lb) bit_end (val / 2 ^ lb))

  unfoldable pub set_integer : Memory → ℕ → ℕ → Option Memory
  set_integer h base val =
      set_raw h base (if m.range_base == 0 then val else u64 (val + 2 ^ 64 - m.range_base))

-- `set_custom_range`: the loop that counts the bits of `range_size - 1`, on fuel.
unfoldable pub count_bits : ℕ → ℕ → ℕ
count_bits zero r = 0
count_bits (suc fuel) r = let rest = count_bits fuel (r / 2) in if r == 0 then 0 else suc rest

-- `T` wraps the difference; an empty range fails the assertion. `T` has `8 * bytes` bits, which
-- bounds the rounds of the loop.
unfoldable pub set_custom_range : IntegerMember → ℕ → ℕ → Option IntegerMember
unfolding count_bits
set_custom_range m range_base range_cap =
    let range_size =
      (range_cap + 2 ^ (byte_size * m.bytes) - range_base) % 2 ^ (byte_size * m.bytes) in
    if range_size == 0
    then none
    else some (record m {
      bit_size = count_bits (byte_size * m.bytes) (range_size - 1);
      range_base = range_base;
    })
