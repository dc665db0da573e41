-- ===== src/Routing/Examples.antt =====
-- A header at 100 on a little-endian machine.
use net_blocks.Base.{ℕ, ◌+◌, ◌*◌, ◌/◌, ◌%◌, refl, arith}
use net_blocks.Packet.Bytes.{Memory}
use net_blocks.Routing.{ByteOrder, IpLayout}
use net_blocks.Routing.Checksum.{IsByteOrder}

abbrev pub swap : ℕ → ℕ
swap n = n % 256 * 256 + n / 256 % 256

abbrev pub order : ByteOrder
order = record { ntohs = swap; htons = swap }

pub order-IsByteOrder : IsByteOrder order
order-IsByteOrder = record {
  ntohs-lt = λ n. omega arith;
  htons-lt = λ n. omega arith;
  ntohs-htons = λ n lt. omega arith;
  ntohs-zero = refl;
}

abbrev layout : IpLayout
layout = record {
  vide = 14;
  total_len = 16;
  iff = 18;
  ttl = 22;
  protocol = 23;
  header_checksum = 24;
  dst_global_id = 26;
  src_global_id = 30;
}

abbrev memory : Memory
memory a = 0
