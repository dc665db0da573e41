-- ===== src/Ipc.antt =====
-- runtime/nb_ipc_transport.c: sending over a socket that keeps packets whole, with simulated loss
-- and reordering, and receiving from it. The numbers that `rand` gives are arguments; what `write` puts on the socket is a list,
-- and `write` is taken to succeed.
pub mod Conserved
mod Delivered
mod Examples
use net_blocks.Base.{
  ℕ, ◌+◌, ◌-◌, ◌%◌, Bool, ◌&&◌, Option, none, some, List, [], ◌∷◌, ◌++◌, ltb, leb, ◌==◌,
  if◌then◌else◌,
}
use net_blocks.Packet.Bytes.{Memory}

abbrev pub out_of_order_chance : ℕ
out_of_order_chance = 5

abbrev pub packet_drop_chance : ℕ
packet_drop_chance = 5

abbrev pub ipc_mtu : ℕ
ipc_mtu = 1024

-- The static variables, and the packets on the socket in the order of the writes: contents and lengths.
pub record Transport : Type 0 where
  pub simulate_out_of_order : Bool
  pub simulate_packet_drop : Bool
  pub out_of_order_store : ℕ
  pub out_of_order_len : ℕ
  pub written : List (ℕ × ℕ)

-- The write at the end of `nb__send_packet`, with that of a pending packet.
unfoldable pub write_packet : Transport → ℕ → ℕ → Transport
write_packet t buff len =
    if t.out_of_order_len == 0
    then record t { written = t.written ++ (buff, len) ∷ [] }
    else record t {
      written = t.written ++ (buff, len) ∷ (t.out_of_order_store, t.out_of_order_len) ∷ [];
      out_of_order_len = 0;
    }

-- `nb__send_packet`, where `rand` gives `drop` for the loss and `late` for the order. `none` is a copy past the
-- end of `out_of_order_store`, which the C code does not check for.
unfoldable pub send_packet : Transport → ℕ → ℕ → ℕ → ℕ → Option Transport
unfolding write_packet
send_packet t drop late buff len =
    if t.simulate_packet_drop && (drop % packet_drop_chance == 0)
    then some t
    else if ((t.out_of_order_len == 0) && t.simulate_out_of_order)
        && (late % out_of_order_chance == 0)
    then if leb len ipc_mtu
      then some (record t { out_of_order_len = len; out_of_order_store = buff })
      else none
    else some (write_packet t buff len)

-- `nb__ipc_deinit` writes the packet that is still pending.
unfoldable pub ipc_deinit : Transport → Transport
ipc_deinit t = if t.out_of_order_len == 0 then t else record t {
  written = t.written ++ (t.out_of_order_store, t.out_of_order_len) ∷ [];
  out_of_order_len = 0;
}

-- `memcpy` of `n` bytes out of an array of their own.
unfoldable pub copy_in : ℕ → Memory → ℕ → (ℕ → ℕ) → Memory
copy_in n h dst source a = if leb dst a && ltb a (dst + n) then source (a - dst) else h a

-- `nb__poll_packet`: what `*size` is then, the pointer that is returned, and the memory. `read` fails with
-- `none`, or gives a length and what the static buffer holds then; `malloc` gives `buf`.
unfoldable pub poll_packet : ℕ → ℕ → ℕ → Memory → Option (ℕ × (ℕ → ℕ)) → ℕ × ℕ × Memory
unfolding copy_in
poll_packet mtu headroom buf h none = (0, 0, h)
poll_packet mtu headroom buf h (some (len, temp_buf)) =
    if len == 0 then (0, 0, h) else (len, buf, copy_in mtu h (buf + headroom) temp_buf)

-- `nb__request_send_buffer`: the bytes that it asks `malloc` for.
unfoldable pub send_buffer_size : ℕ
send_buffer_size = ipc_mtu
