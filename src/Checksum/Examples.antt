-- ===== src/Checksum/Examples.antt =====
-- A packet at 4: two bytes of headroom, the checksum, and five bytes that follow.
use net_blocks.Base.{
  ℕ, inl, inr, ◌&&◌, leb, true, ◌==◌, if◌then◌else◌, ◌%◌, ◌≡◌, ◌≢◌, refl, some, arith,
}
use net_blocks.Framework.{hook_continue, hook_drop}
use net_blocks.Packet.{IntegerMember, get_integer, get_raw, extract_bits_upper, widen}
use net_blocks.Packet.Bytes.{Memory, IsBytes, update, read_word, write_word}
use net_blocks.Packet.Word.{write_word-IsBytes, update-IsBytes}
use net_blocks.Checksum.{full_packet, ChecksumLayout, hook_send, network_ingress, end_offset, pad}
use net_blocks.Checksum.Bytes.{IsCovered, cleared, checksum_of, sent, cleared-IsBytes, hook_send_at}
use net_blocks.Checksum.Trip.{HasLen, hook_ingress-unchanged, hook_ingress-changed}

abbrev layout : ChecksumLayout
layout = record { offset = 16; headroom = 2; total_size = 10 }

-- The length 7 stands in the four bytes from 8 on.
abbrev bytes : Memory
bytes a = if a == 8 then 7 else if leb 9 a && leb a 11 then 0 else a % 256

-- `generic_integer_member<int>`
abbrev total_len : IntegerMember
total_len = record {
  bytes = 4;
  is_signed = true;
  aligned = true;
  align = 8;
  bit_size = 32;
  range_base = 0;
}

covered : IsCovered layout full_packet 7
unfolding end_offset
covered = record { on_byte = refl; after_headroom = omega arith; before_end = omega arith }

-- What is sent for it.
abbrev packet : Memory
packet = sent layout full_packet 7 bytes 4

sends : hook_send layout full_packet 7 bytes 4 ≡ some (packet, hook_continue)
unfolding sent
sends = hook_send_at layout full_packet 7 bytes 4 refl

bytes-IsBytes : IsBytes bytes
bytes-IsBytes a = ground arith

packet-IsBytes : IsBytes packet
unfolding sent
packet-IsBytes =
    write_word-IsBytes 2 (cleared layout full_packet 7 bytes 4) 6
      (checksum_of layout full_packet 7 bytes 4)
      (cleared-IsBytes layout full_packet 7 bytes 4 bytes-IsBytes)

packet_byte : packet 12 ≡ 12
unfolding sent cleared pad update write_word end_offset
packet_byte = refl

has_len : HasLen layout full_packet total_len 32 7 packet 4
unfolding end_offset sent cleared pad update write_word read_word get_integer get_raw
    extract_bits_upper widen
has_len = record {
  bytes = record {
    formed = record { word = omega arith; nonempty = omega arith; size = omega arith };
    whole_bytes = refl;
    plain = inl refl;
  };
  on_byte = refl;
  after_headroom = omega arith;
  before_end = omega arith;
  holds = refl;
}

-- It arrives unchanged.
hook_ingress-unchanged_example :
    (kept : Memory) × (network_ingress layout full_packet total_len 32 packet 4
      ≡ some (kept, hook_continue))
    × ((a : ℕ) → a ≢ 13 → kept a ≡ packet a)
unfolding end_offset
hook_ingress-unchanged_example =
    hook_ingress-unchanged layout full_packet total_len 32 7 bytes packet packet 4 4 hook_continue
      covered packet-IsBytes packet-IsBytes sends has_len (λ i le lt. refl)

-- It arrives with a byte of the payload changed.
hook_ingress-changed_example :
    (kept : Memory) × (network_ingress layout full_packet total_len 32 (update packet 12 99) 4
      ≡ some (kept, hook_drop))
unfolding end_offset
hook_ingress-changed_example =
    hook_ingress-changed layout full_packet total_len 32 7 bytes (update packet 12 99) packet 4 4 8
      hook_continue covered (update-IsBytes packet 12 99 packet-IsBytes (omega arith)) bytes-IsBytes
      packet-IsBytes sends has_len (omega arith) (omega arith) (inr (omega arith))
      (λ i le lt ne. unfold update in ground arith)
      (λ e. unfold update in omega (arith, packet_byte))
