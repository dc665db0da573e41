-- ===== src/Ipc/Examples.antt =====
-- The second of three packets is late, the third is dropped.
use net_blocks.Base.{
  Option, inl, ℕ, ◌+◌, ◌%◌, ◌<◌, ◌≡◌, refl, inr, false, true, some, List, [], ◌∷◌, arith,
}
use net_blocks.Framework.{HookStatus, hook_continue}
use net_blocks.Packet.{IntegerMember, ◌>>=◌}
use net_blocks.Packet.Aligned.{Fits}
use net_blocks.Packet.Bytes.{Memory, IsBytes}
use net_blocks.Queue.{DataQueue, insert_data_queue}
use net_blocks.Inorder.{deliver}
use net_blocks.Payload.{Sizes, Outgoing, packet_len, payload_send, network_send, set_computed}
use net_blocks.Payload.Trip.{memory_of, IsLenMember, payload_send-IsBytes, peer_layout}
use net_blocks.Ipc.{Transport, ipc_deinit, ipc_mtu, send_packet, poll_packet}
use net_blocks.Ipc.Delivered.{payload_send-poll_packet}
use net_blocks.Ipc.Conserved.{Call, send_all, count, count_kept, held, send_packet-conserved}

abbrev empty_transport : Transport
empty_transport = record {
  simulate_out_of_order = true;
  simulate_packet_drop = true;
  out_of_order_store = 0;
  out_of_order_len = 0;
  written = [];
}

abbrev three_calls : List Call
three_calls =
    record { drop = 1; late = 2; buff = 70; len = 64 }
    ∷ record { drop = 3; late = 5; buff = 71; len = 64 }
    ∷ record { drop = 10; late = 1; buff = 72; len = 64 }
    ∷ []

send_packet-conserved_example :
    (t : Transport) × (send_all empty_transport three_calls ≡ some t)
    × (count 71 64 (ipc_deinit t).written
        ≡ held 71 64 empty_transport + count_kept true 71 64 three_calls)
send_packet-conserved_example = send_packet-conserved 71 64 empty_transport three_calls (
  (λ e. omega arith),
  omega arith,
  ((λ e. omega arith), omega arith, ((λ e. omega arith), omega arith, tt)),
)

abbrev plain_transport : Transport
plain_transport = record {
  simulate_out_of_order = false;
  simulate_packet_drop = false;
  out_of_order_store = 0;
  out_of_order_len = 0;
  written = [];
}

abbrev sizes : Sizes
sizes = record { headroom = 24; total_size = 63 }

abbrev outgoing : Outgoing
outgoing = record { memory = λ a. a % 256; computed_total_len = 0; ret_len = 0; sent = [] }

abbrev queue : DataQueue
queue = record { elems = λ i. 0; sizes = λ i. 0; current_elems = 0 }

abbrev no_memory : Memory
no_memory a = 0

-- `generic_integer_member<int>`, at byte 56 of the packet.
abbrev len_member : IntegerMember
len_member = record {
  bytes = 4;
  is_signed = true;
  aligned = true;
  align = 8;
  bit_size = 32;
  range_base = 0;
}

abbrev packet : Option (Outgoing × HookStatus)
packet = payload_send sizes (some (len_member, 448)) outgoing 100 500 3

-- What the socket carries: the packet at 100, behind 24 bytes.
abbrev carried : ℕ → ℕ
carried i = memory_of packet (124 + i)

len_member-IsLenMember : IsLenMember sizes len_member 448
len_member-IsLenMember = record {
  bytes = record {
    formed = record { word = omega arith; nonempty = omega arith; size = omega arith };
    whole_bytes = refl;
    plain = inl refl;
  };
  on_byte = refl;
  after_headroom = omega arith;
  before_payload = omega arith;
}

len_member-Fits : Fits len_member 41
len_member-Fits = record {
  above = omega arith;
  below = omega arith;
  machine = omega arith;
  nonnegative = λ e. (refl, omega arith);
}

packet-IsBytes : IsBytes (memory_of packet)
packet-IsBytes =
    payload_send-IsBytes sizes len_member 448 outgoing 100 500 3 len_member-IsLenMember
      (unfold packet_len in len_member-Fits) (λ a. omega arith)

payload_send-poll_packet_example :
    (out : Outgoing) × (g : Memory) × (packet ≡ some (out, hook_continue))
    × ((network_send sizes out 100).0.sent ≡ (124, 41) ∷ [])
    × ((t : Transport) × (send_packet plain_transport 0 0 124 41 ≡ some t)
        × (t.written ≡ (124, 41) ∷ []))
    × (poll_packet ipc_mtu 24 700 no_memory (some (41, carried)) ≡ (41, 700, g))
    × ((set_computed (some (len_member, 448)) g 700 0 >>= λ k.
          deliver (peer_layout sizes) queue 700 k)
        ≡ insert_data_queue queue 762 3)
    × ((j : ℕ) → j < 3 → g (762 + j) ≡ (500 + j) % 256)
payload_send-poll_packet_example =
    payload_send-poll_packet plain_transport sizes len_member 448 outgoing 0 0 100 700 500 3 0
      no_memory carried queue (record { in_order = refl; no_drop = refl; none_held = refl })
      (omega arith) (omega arith) (omega arith) len_member-IsLenMember len_member-Fits
      (λ a. omega arith) (λ a. omega arith) (λ i. packet-IsBytes (124 + i)) (inr (omega arith))
      (λ i lt. refl)
