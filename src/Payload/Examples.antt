-- ===== src/Payload/Examples.antt =====
-- Three bytes from 500 go into a packet at 100 with ten bytes of headers behind two of headroom.
use net_blocks.Base.{◌%◌, ◌≡◌, refl, none, some, []}
use net_blocks.Packet.{◌>>=◌}
use net_blocks.Queue.{DataQueue}
use net_blocks.Payload.{Sizes, Outgoing, set_total_len, payload_send, packet_len}

abbrev sizes : Sizes
sizes = record { headroom = 2; total_size = 13 }

abbrev outgoing : Outgoing
outgoing = record { memory = λ a. a % 256; computed_total_len = 0; ret_len = 0; sent = [] }

abbrev queue : DataQueue
queue = record { elems = λ i. 0; sizes = λ i. 0; current_elems = 0 }

-- The module reports the length, and the packet has 13 bytes.
three_bytes :
    (payload_send sizes none outgoing 100 500 3 >>= λ r. some r.0.computed_total_len) ≡ some 13
unfolding payload_send packet_len set_total_len
three_bytes = refl
