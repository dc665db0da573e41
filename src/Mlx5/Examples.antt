-- ===== src/Mlx5/Examples.antt =====
-- A card that has received three packets since it was set up.
use net_blocks.Base.{ℕ, ◌+◌, ◌≡◌, refl, some, arith, false, true, [], ◌∷◌, ◌==◌, if◌then◌else◌}
use net_blocks.Mlx5.{
  Transport, Card, init_transport, mlx5_try_recv, poll_packet, get_recv_cycle, mlx5_try_send,
  mlx5_get_next_send_buffer,
}
use net_blocks.Mlx5.Count.{Kept}
use net_blocks.Mlx5.Ring.{IsRing, mlx5_try_recv_lem, init_transport-IsRing}
use net_blocks.Mlx5.Device.{
  Verbs, found, is_up, search_ports, after_ports, search_devices, try_devices,
}
use net_blocks.Mlx5.Search.{IsAnswering, IsSearch, try_devices_lem}
use net_blocks.Mlx5.Poll.{IsReturned, poll_packet_lem, next_packet, returned_then}

abbrev three_packets : Transport
three_packets = record (init_transport 5000 10000) { wqe_id = λ i. 0; wqe_counter = λ i. 2 }

three_packets-IsRing : IsRing three_packets 0 0
unfolding init_transport
three_packets-IsRing =
    let r = init_transport-IsRing 5000 10000 in
    record {
      ring = record {
        batches = r.ring.batches;
        index = r.ring.index;
        same_posted = r.ring.same_posted;
      };
      cycle = r.cycle;
      rest = r.rest;
    }

mlx5_try_recv_lem_example :
    (tr' : Transport) × (k' : ℕ) × (mlx5_try_recv three_packets ≡ some (3, tr'))
    × IsRing tr' 3 k'
    × Kept three_packets tr'
unfolding init_transport get_recv_cycle
mlx5_try_recv_lem_example =
    mlx5_try_recv_lem three_packets 0 0 3 three_packets-IsRing refl (omega arith) (omega arith)

abbrev card : Card
card = record { transport = three_packets; pending_recv = 0 }

poll_packet_lem_example :
    (c' : Card) × (k' : ℕ) × (known : ℕ) × (known ≡ 3)
    × (poll_packet card 64 ≡ some (next_packet card 64 0 known, c'))
    × IsReturned c' (returned_then 0 known) known k'
unfolding init_transport get_recv_cycle
poll_packet_lem_example =
    poll_packet_lem card 64 0 0 0 3
      (record { ring = three_packets-IsRing; waits = refl; place = refl }) refl (omega arith)
      (omega arith)

-- A short packet is sent inline, and the send buffers are used in turn.
sends_inline :
    ((mlx5_try_send three_packets 989).0 ≡ true) × ((mlx5_try_send three_packets 990).0 ≡ false)
unfolding mlx5_try_send init_transport
sends_inline = (refl, refl)

second_buffer : (mlx5_get_next_send_buffer (mlx5_get_next_send_buffer three_packets).1).0 ≡ 6024
unfolding mlx5_get_next_send_buffer init_transport
second_buffer = refl

-- Three devices with two ports each, of which the second port of the last one is up.
abbrev three_devices : Verbs
three_devices = record {
  num_devices = 3;
  open_device = λ i. true;
  query_device = λ i. some 2;
  netdev = λ i. if i == 0 then "lo" else "eth0";
  query_port = λ i q. some (if i + q == 4 then 5 else 3);
  close_device = λ i. true;
  ibv_port_active = 4;
  ibv_port_active_defer = 5;
}

three_devices-IsAnswering : IsAnswering three_devices
three_devices-IsAnswering = record {
  opens = λ i. refl;
  closes = λ i. refl;
  device = λ i e. cc;
  few = λ i count e. let two : 2 ≡ count = cc in omega arith;
  port = λ i q e. cc;
}

try_devices_lem_example : IsSearch three_devices "eth0" 3 0 [] (try_devices three_devices "eth0")
try_devices_lem_example = try_devices_lem three_devices "eth0" three_devices-IsAnswering

-- The device `lo` stays open.
leaves_open : try_devices three_devices "eth0" ≡ found 2 2 (2 ∷ 0 ∷ [])
unfolding try_devices search_devices after_ports search_ports is_up
leaves_open = refl
