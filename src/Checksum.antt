-- ===== src/Checksum.antt =====
-- src/modules/checksum_module.cpp: the sum of the 16-bit words of a packet, put into the packet on send
-- and compared on ingress. Addresses of the packet are those of its first byte; `computed_total_len` is
-- what `get_integer` gives for that member, which no other write of this module touches.
pub mod Sum
pub mod Bytes
mod Trip
mod Examples
use net_blocks.Base.{
  ℕ, zero, suc, ◌+◌, ◌-◌, ◌/◌, ◌%◌, Option, none, some, ◌==◌, false, if◌then◌else◌,
}
use net_blocks.Base.Words.{u16}
use net_blocks.Framework.{HookStatus, hook_continue, hook_drop}
use net_blocks.Packet.{IntegerMember, get_integer, set_integer, ◌>>=◌}
use net_blocks.Packet.Bytes.{Memory, update, read_word}

pub data ChecksumType : Type 0 where
  full_packet header_only : ChecksumType

-- `new generic_integer_member<unsigned short>(0)`
abbrev pub checksum_member : IntegerMember
checksum_member = record {
  bytes = 2;
  is_signed = false;
  aligned = false;
  align = 8;
  bit_size = 16;
  range_base = 0;
}

-- The layout: the offset of the checksum in bits, `get_headroom()` and `net_packet.get_total_size()`.
pub record ChecksumLayout : Type 0 where
  pub offset : ℕ
  pub headroom : ℕ
  pub total_size : ℕ

-- The loop of `compute_checksum` over the words from `ptr` on.
unfoldable pub add_words : ℕ → Memory → ℕ → ℕ → ℕ
add_words zero h ptr checksum = checksum
add_words (suc left) h ptr checksum =
    add_words left h (ptr + 2) (u16 (checksum + read_word 2 h ptr))

-- The end of what is summed.
unfoldable pub end_offset : ChecksumLayout → ChecksumType → ℕ → ℕ
end_offset l full_packet computed_total_len = computed_total_len + l.headroom
end_offset l header_only computed_total_len = l.total_size - 1

-- The byte that pads an odd number of bytes.
unfoldable pub pad : ℕ → ℕ → Memory → ℕ → Memory
unfolding update
pad so eo h p = if (eo - so) % 2 == 0 then h else update h (p + eo) 0

-- `compute_checksum`: the sum, and the packet that it leaves.
unfoldable pub compute_checksum :
    ChecksumLayout → ChecksumType → ℕ → Memory → ℕ → Option (ℕ × Memory)
compute_checksum l ct computed_total_len h p = do
  reset ← set_integer checksum_member l.offset h p 0
  let so = l.headroom
  let eo = end_offset l ct computed_total_len
  let padded = pad so eo reset p
  some (add_words ((eo - so + 1) / 2) padded (p + so) 0, padded)

unfoldable pub hook_send :
    ChecksumLayout → ChecksumType → ℕ → Memory → ℕ → Option (Memory × HookStatus)
hook_send l ct computed_total_len h p = do
  (checksum, padded) ← compute_checksum l ct computed_total_len h p
  sent ← set_integer checksum_member l.offset padded p checksum
  some (sent, hook_continue)

unfoldable pub hook_ingress :
    ChecksumLayout → ChecksumType → ℕ → Memory → ℕ → Option (Memory × HookStatus)
hook_ingress l ct computed_total_len h p = do
  checksum_saved ← get_integer checksum_member l.offset h p
  (checksum, padded) ← compute_checksum l ct computed_total_len h p
  restored ← set_integer checksum_member l.offset padded p checksum_saved
  some (restored, if checksum == checksum_saved then hook_continue else hook_drop)

-- `network_module::hook_ingress` without IP compatibility, and then `hook_ingress`: the length is read from the
-- member `total_len` of the packet, which starts at this offset in bits.
unfoldable pub network_ingress :
    ChecksumLayout
    → ChecksumType
    → (total_len : IntegerMember) → ℕ
    → Memory
    → ℕ
    → Option (Memory × HookStatus)
unfolding hook_ingress
network_ingress l ct total_len at h p =
    get_integer total_len at h p >>= λ n. hook_ingress l ct n h p
