-- ===== src/Packet/Whole.antt =====
-- Members of packet.h that start on a byte and take all of an unsigned type: words in memory.
use net_blocks.Base.{ℕ, ◌+◌, ◌-◌, ◌*◌, ◌/◌, ◌%◌, ◌≡◌, true, false, some, arith, ◌==◌, refl}
use net_blocks.Packet.{
  IntegerMember, set_integer, get_integer, set_raw, get_raw, set_bits_upper, extract_bits_upper,
  widen, byte_size,
}
use net_blocks.Packet.Bytes.{Memory, read_word, write_word}

-- Such a member, at an offset in bits.
pub record IsWhole (m : IntegerMember) (offset : ℕ) : Type 0 where
  pub on_byte : (offset % 8 == 0) ≡ true
  pub full : m.bit_size ≡ m.bytes * byte_size
  pub unsigned : m.is_signed ≡ false
  pub no_range : m.range_base ≡ 0

pub set_integer-IsWhole :
    (m : IntegerMember) (offset : ℕ) (h : Memory) (base v : ℕ)
    → IsWhole m offset
    → set_integer m offset h base v ≡ some (write_word m.bytes h (base + offset / 8) v)
unfolding set_integer set_raw set_bits_upper
set_integer-IsWhole m offset h base v w =
    let full : (offset + m.bit_size - offset == m.bytes * byte_size) ≡ true =
      ground (arith, w.full) in
    rw (w.no_range, w.on_byte, full) refl

pub get_integer-IsWhole :
    (m : IntegerMember) (offset : ℕ) (h : Memory) (base : ℕ)
    → IsWhole m offset
    → get_integer m offset h base ≡ some (read_word m.bytes h (base + offset / 8))
unfolding get_integer get_raw extract_bits_upper widen
get_integer-IsWhole m offset h base w =
    let full : (offset + m.bit_size - offset == m.bytes * byte_size) ≡ true =
      ground (arith, w.full) in
    rw (w.no_range, w.on_byte, full, w.unsigned) refl
