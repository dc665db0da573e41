-- ===== src/Linux/Examples.antt =====
-- The buffers for the stack of src/impls/simple.cpp.
use net_blocks.Base.{ℕ, ◌+◌, ◌≤◌, ◌<◌, ◌≡◌, refl, some}
use net_blocks.Layout.{get_headroom}
use net_blocks.Protocol.Examples.{simple, simple_protocol, simple_made, simple-HasNoRange}
use net_blocks.Linux.{linux_mtu, send_buffer_size, send_packet}
use net_blocks.Linux.Room.{send_buffer_size-headroom}
use net_blocks.Ipc

send_buffer_size-headroom_example :
    (n : ℕ) × (get_headroom simple_protocol.net_packet ≡ some n)
    × (n + linux_mtu ≤ send_buffer_size)
    × (Ipc.send_buffer_size < n + Ipc.ipc_mtu)
send_buffer_size-headroom_example =
    send_buffer_size-headroom simple simple_protocol simple-HasNoRange simple_made

sends_all : send_packet (λ buff len. len) 100 41 ≡ 41
unfolding send_packet
sends_all = refl
