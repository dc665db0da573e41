-- ===== src/Ipc/Delivered.antt =====
-- A payload on its way from one stack to another: payload_module.cpp and network_module.cpp, the socket of
-- nb_ipc_transport.c, and the delivery by inorder_module.cpp.
use net_blocks.Base.{
  ℕ, ◌+◌, ◌-◌, ◌^◌, ◌≤◌, ◌<◌, ◌≡◌, ◌≢◌, ◌⊎◌, refl, ap, ◌∙◌, true, false, some, [], ◌∷◌, ◌++◌, arith,
  ltb, leb, ◌==◌, if◌then◌else◌,
}
use net_blocks.Framework.{hook_continue}
use net_blocks.Packet.{IntegerMember, ◌>>=◌}
use net_blocks.Packet.Aligned.{Fits}
use net_blocks.Packet.Bytes.{Memory, IsBytes}
use net_blocks.Queue.{DataQueue, insert_data_queue}
use net_blocks.Inorder.{deliver}
use net_blocks.Payload.{Sizes, Outgoing, payload_at, payload_send, network_send, set_computed}
use net_blocks.Payload.Trip.{memory_of, IsLenMember, peer_layout, payload_send-deliver}
use net_blocks.Ipc.{Transport, ipc_mtu, write_packet, send_packet, copy_in, poll_packet}

-- No loss and no reordering is simulated.
pub record IsPlain (t : Transport) : Type 0 where
  pub in_order : t.simulate_out_of_order ≡ false
  pub no_drop : t.simulate_packet_drop ≡ false
  pub none_held : t.out_of_order_len ≡ 0

send_packet-plain :
    (t : Transport) (drop late buff len : ℕ)
    → IsPlain t
    → (t' : Transport) × (send_packet t drop late buff len ≡ some t')
      × (t'.written ≡ t.written ++ (buff, len) ∷ [])
unfolding send_packet write_packet
send_packet-plain t drop late buff len plain =
    let free : (t.out_of_order_len == 0) ≡ true = ground (arith, plain.none_held) in
    (
      record t { written = t.written ++ (buff, len) ∷ [] },
      rw (plain.no_drop, plain.in_order, free) refl,
      refl,
    )

copy_in_lem :
    (n : ℕ) (h : Memory) (dst i : ℕ) (source : ℕ → ℕ)
    → i < n
    → copy_in n h dst source (dst + i) ≡ source i
unfolding copy_in
copy_in_lem n h dst i source lt =
    let low : leb dst (dst + i) ≡ true = ground arith in
    let high : ltb (dst + i) (dst + n) ≡ true = ground arith in
    let at : dst + i - dst ≡ i = omega arith in rw (low, high) (ap source at)

poll_packet-some :
    (mtu headroom buf : ℕ) (h : Memory) (len : ℕ) (temp : ℕ → ℕ)
    → len ≢ 0
    → poll_packet mtu headroom buf h (some (len, temp))
      ≡ (len, buf, copy_in mtu h (buf + headroom) temp)
unfolding poll_packet
poll_packet-some mtu headroom buf h len temp ne =
    let more : (len == 0) ≡ false = ground arith in rw more refl

copy_in-IsBytes :
    (n : ℕ) (h : Memory) (dst : ℕ) (source : ℕ → ℕ)
    → IsBytes h
    → ((i : ℕ) → source i < 256)
    → IsBytes (copy_in n h dst source)
unfolding copy_in
copy_in-IsBytes n h dst source ok bytes a = ground (arith, ok a, bytes (a - dst))

-- Without simulated losses and delays, without IP compatibility, and for a packet with headers that fits into 1024
-- bytes, whose length fits into the member `total_len`, and a buffer that does not overlap the packet: a payload that
-- is sent is written on the socket as one packet, from behind the headroom on. If the peer's `read` gives the bytes
-- of that packet, `nb__poll_packet` returns the buffer `buf` with the length of the packet; the peer reads the length
-- from the bytes there, and the delivery queues the payload with its length, at an address where its bytes are, or
-- nothing if it is empty.
pub payload_send-poll_packet :
    (t : Transport) (z : Sizes) (m : IntegerMember) (at : ℕ) (s : Outgoing)
    (drop late p buf buff len computed : ℕ) (h : Memory) (temp_buf : ℕ → ℕ) (queue : DataQueue)
    → IsPlain t
    → z.headroom + 1 < z.total_size
    → z.total_size < 2 ^ 30
    → z.total_size - z.headroom - 1 + len ≤ ipc_mtu
    → IsLenMember z m at
    → Fits m (z.total_size - z.headroom - 1 + len)
    → IsBytes s.memory
    → IsBytes h
    → ((i : ℕ) → temp_buf i < 256)
    → (buff + len ≤ p) ⊎ (payload_at z p + len ≤ buff)
    → ((i : ℕ)
        → i < z.total_size - z.headroom - 1 + len
        → temp_buf i ≡ memory_of (payload_send z (some (m, at)) s p buff len) (p + z.headroom + i))
    → let n = z.total_size - z.headroom - 1 + len in
      (out : Outgoing) × (g : Memory) × (payload_send z (some (m, at)) s p buff len
        ≡ some (out, hook_continue))
      × ((network_send z out p).0.sent ≡ s.sent ++ (p + z.headroom, n) ∷ [])
      × ((t' : Transport) × (send_packet t drop late (p + z.headroom) n ≡ some t')
          × (t'.written ≡ t.written ++ (p + z.headroom, n) ∷ []))
      × (poll_packet ipc_mtu z.headroom buf h (some (n, temp_buf)) ≡ (n, buf, g))
      × ((set_computed (some (m, at)) g buf computed >>= λ k. deliver (peer_layout z) queue buf k)
          ≡ (if len == 0 then some queue else insert_data_queue queue (payload_at z buf) len))
      × ((j : ℕ) → j < len → g (payload_at z buf + j) ≡ s.memory (buff + j))
payload_send-poll_packet t z m at s drop late p buf buff len computed h temp_buf queue plain room
      small fits place holds ok oh ob apart read =
    let n = z.total_size - z.headroom - 1 + len in
    let g = copy_in ipc_mtu h (buf + z.headroom) temp_buf in
    let (out, handed, _, sent, delivered, bytes) =
      payload_send-deliver z m at s p buf buff len computed g queue (omega arith) (omega arith)
        place holds ok (copy_in-IsBytes ipc_mtu h (buf + z.headroom) temp_buf oh ob) apart
        arrives in
    (
      out,
      g,
      handed,
      sent,
      send_packet-plain t drop late (p + z.headroom) n plain,
      poll_packet-some ipc_mtu z.headroom buf h n temp_buf (λ e. omega arith),
      delivered,
      bytes,
    )
  where
    arrives :
        (i : ℕ)
        → z.headroom ≤ i
        → i < z.headroom + (z.total_size - z.headroom - 1 + len)
        → copy_in ipc_mtu h (buf + z.headroom) temp_buf (buf + i)
          ≡ memory_of (payload_send z (some (m, at)) s p buff len) (p + i)
    arrives i lo hi =
        let here : buf + i ≡ buf + z.headroom + (i - z.headroom) = omega arith in
        let there : p + z.headroom + (i - z.headroom) ≡ p + i = omega arith in
        ap (copy_in ipc_mtu h (buf + z.headroom) temp_buf) here
        ∙ copy_in_lem ipc_mtu h (buf + z.headroom) (i - z.headroom) temp_buf (omega arith)
        ∙ read (i - z.headroom) (omega arith)
        ∙ ap (memory_of (payload_send z (some (m, at)) s p buff len)) there
