-- ===== src/Ipc/Conserved.antt =====
-- The transport of nb_ipc_transport.c loses nothing but what it drops on purpose.
use net_blocks.Base.{
  Option, some, inl, inr, Bool-cases, refl, true, leb, ◌≤◌, ℕ, ◌+◌, ◌%◌, ◌≡◌, ◌≢◌, ap, ◌∙◌, Bool,
  ◌&&◌, List, [], ◌∷◌, ◌++◌, arith, ◌==◌, if◌then◌else◌,
}
use net_blocks.Packet.{◌>>=◌}
use net_blocks.Ipc.{
  packet_drop_chance, out_of_order_chance, ipc_mtu, Transport, write_packet, send_packet,
  ipc_deinit,
}

-- A call of `nb__send_packet`, with what `rand` gives.
pub record Call : Type 0 where
  pub drop : ℕ
  pub late : ℕ
  pub buff : ℕ
  pub len : ℕ

unfoldable pub send_all : Transport → List Call → Option Transport
send_all t [] = some t
send_all t (c ∷ cs) = send_packet t c.drop c.late c.buff c.len >>= λ t'. send_all t' cs

-- The lengths are those of packets on the socket.
abbrev pub HaveLen : List Call → Type 0
HaveLen [] = Unit {0}
HaveLen (c ∷ cs) = (c.len ≢ 0) × (c.len ≤ ipc_mtu) × HaveLen cs

-- How often a packet occurs.
unfoldable pub is_packet : ℕ → ℕ → ℕ → ℕ → ℕ
is_packet b l buff len = if (buff == b) && (len == l) then 1 else 0

unfoldable pub count : ℕ → ℕ → List (ℕ × ℕ) → ℕ
unfolding is_packet
count b l [] = 0
count b l ((buff, len) ∷ ps) = is_packet b l buff len + count b l ps

-- How often a packet occurs among the calls that are not dropped.
unfoldable pub count_kept : Bool → ℕ → ℕ → List Call → ℕ
unfolding is_packet
count_kept dropping b l [] = 0
count_kept dropping b l (c ∷ cs) =
    (if dropping && (c.drop % packet_drop_chance == 0) then 0 else is_packet b l c.buff c.len)
    + count_kept dropping b l cs

abbrev pub pending : ℕ → ℕ → Transport → ℕ
pending b l t =
    if t.out_of_order_len == 0 then 0 else is_packet b l t.out_of_order_store t.out_of_order_len

count-append : (b l : ℕ) (ps qs : List (ℕ × ℕ)) → count b l (ps ++ qs) ≡ count b l ps + count b l qs
unfolding count
count-append b l [] qs = omega arith
count-append b l ((buff, len) ∷ ps) qs = omega (arith, count-append b l ps qs)

count-one :
    (b l : ℕ) (ps : List (ℕ × ℕ)) (buff len : ℕ)
    → count b l (ps ++ (buff, len) ∷ []) ≡ count b l ps + is_packet b l buff len
unfolding count
count-one b l ps buff len = omega (arith, count-append b l ps ((buff, len) ∷ []))

count-two :
    (b l : ℕ) (ps : List (ℕ × ℕ)) (buff len buff' len' : ℕ)
    → count b l (ps ++ (buff, len) ∷ (buff', len') ∷ [])
      ≡ count b l ps + is_packet b l buff len + is_packet b l buff' len'
unfolding count
count-two b l ps buff len buff' len' =
    omega (arith, count-append b l ps ((buff, len) ∷ (buff', len') ∷ []))

-- What is written or pending.
abbrev pub held : ℕ → ℕ → Transport → ℕ
held b l t = count b l t.written + pending b l t

write_packet-held :
    (b l : ℕ) (t : Transport) (buff len : ℕ)
    → held b l (write_packet t buff len) ≡ held b l t + is_packet b l buff len
unfolding write_packet
write_packet-held b l t buff len =
    let one = count-one b l t.written buff len in
    let two = count-two b l t.written buff len t.out_of_order_store t.out_of_order_len in
    ground (arith, one, two)

send_packet-held :
    (b l : ℕ) (t : Transport) (drop late buff len : ℕ)
    → len ≢ 0
    → len ≤ ipc_mtu
    → (t' : Transport) × (send_packet t drop late buff len ≡ some t')
      × (t'.simulate_packet_drop ≡ t.simulate_packet_drop)
      × (held b l t'
          ≡ held b l t
            + (if t.simulate_packet_drop && (drop % packet_drop_chance == 0)
                then 0
                else is_packet b l buff len))
unfolding send_packet
send_packet-held b l t drop late buff len long short =
    let fits : leb len ipc_mtu ≡ true = ground (arith, short) in
    elim (Bool-cases (t.simulate_packet_drop && (drop % packet_drop_chance == 0))) [
      | inl e ↦ (t, rw e refl, refl, rw e (omega arith))
      | inr e ↦
          elim (Bool-cases (
            ((t.out_of_order_len == 0) && t.simulate_out_of_order)
            && (late % out_of_order_chance == 0))) [
              | inl d ↦ (
                record t { out_of_order_len = len; out_of_order_store = buff },
                rw (e, d, fits) refl,
                refl,
                rw e (ground (arith, d, long)),
              )
              | inr d ↦
                  let now = write_packet-held b l t buff len in
                  (
                    write_packet t buff len,
                    rw (e, d) refl,
                    (unfold write_packet in ground arith),
                    rw e now,
                  )
            ]
    ]

send_all-held :
    (b l : ℕ) (t : Transport) (cs : List Call)
    → HaveLen cs
    → (t' : Transport) × (send_all t cs ≡ some t')
      × (held b l t' ≡ held b l t + count_kept t.simulate_packet_drop b l cs)
unfolding send_all count_kept
send_all-held b l t [] long = (t, refl, omega arith)
send_all-held b l t (c ∷ cs) (now, short, long) =
    let (t', sent, flag, here) = send_packet-held b l t c.drop c.late c.buff c.len now short in
    let (u, done, later) = send_all-held b l t' cs long in
    let same = ap (λ d. count_kept d b l cs) flag in
    (u, rw sent done, omega (arith, here, later, same))

ipc_deinit-held : (b l : ℕ) (t : Transport) → count b l (ipc_deinit t).written ≡ held b l t
unfolding ipc_deinit
ipc_deinit-held b l t =
    let one = count-one b l t.written t.out_of_order_store t.out_of_order_len in ground (arith, one)

-- Packets that are not empty and have at most 1024 bytes, sent in any order of losses and delays: when the
-- transport is closed, each has been written as often as it was sent and not dropped, on top of what was there
-- before, so that reordering neither loses nor repeats a packet.
pub send_packet-conserved :
    (b l : ℕ) (t : Transport) (cs : List Call)
    → HaveLen cs
    → (t' : Transport) × (send_all t cs ≡ some t')
      × (count b l (ipc_deinit t').written ≡ held b l t + count_kept t.simulate_packet_drop b l cs)
send_packet-conserved b l t cs long =
    let (t', sent, e) = send_all-held b l t cs long in (t', sent, ipc_deinit-held b l t' ∙ e)
