-- ===== src/Linux/Room.antt =====
-- The buffers that the transports hand out have to hold a packet with its headroom, which
-- src/core/framework.cpp computes from the layout.
use net_blocks.Base.{ℕ, ◌+◌, ◌≤◌, ◌<◌, ◌≡◌, some, arith}
use net_blocks.Layout.{get_headroom}
use net_blocks.Protocol.Settings.{Config}
use net_blocks.Protocol.Modules.{Protocol}
use net_blocks.Protocol.{init_protocol}
use net_blocks.Protocol.Sizes.{HasNoRange, unsent_bytes, init_protocol-sizes}
use net_blocks.Linux.{linux_mtu, send_buffer_size}
use net_blocks.Ipc

-- Without custom ranges, the 32 bytes that the Linux transport adds are enough for the headroom of every
-- configuration. The IPC transport adds none: its buffer is too small for a packet of full size with any headroom.
pub send_buffer_size-headroom :
    (c : Config) (s : Protocol)
    → HasNoRange c
    → init_protocol c ≡ some s
    → (n : ℕ) × (get_headroom s.net_packet ≡ some n)
      × (n + linux_mtu ≤ send_buffer_size)
      × (Ipc.send_buffer_size < n + Ipc.ipc_mtu)
unfolding send_buffer_size Ipc.send_buffer_size unsent_bytes
send_buffer_size-headroom c s n h =
    (unsent_bytes c, (init_protocol-sizes c s n h).0, ground arith, ground arith)
