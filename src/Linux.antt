-- ===== src/Linux.antt =====
-- runtime/nb_linux_transport.c: packets over a raw socket. `read`, `write` and `malloc` are the system's:
-- what they give is an argument.
mod Room
mod Examples
use net_blocks.Base.{ℕ, ◌+◌, Option}
use net_blocks.Packet.Bytes.{Memory}
use net_blocks.Ipc

abbrev pub linux_mtu : ℕ
linux_mtu = 1024

-- `nb__poll_packet`, word for word that of the IPC transport.
unfoldable pub poll_packet : ℕ → ℕ → Memory → Option (ℕ × (ℕ → ℕ)) → ℕ × ℕ × Memory
poll_packet = Ipc.poll_packet linux_mtu

-- `nb__send_packet` returns what `write` returns for the buffer and the length.
unfoldable pub send_packet : (ℕ → ℕ → ℕ) → ℕ → ℕ → ℕ
send_packet write buff len = write buff len

-- `nb__request_send_buffer`: the bytes that it asks `malloc` for.
unfoldable pub send_buffer_size : ℕ
send_buffer_size = linux_mtu + 32
