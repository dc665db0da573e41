-- ===== src/Mlx5/Poll.antt =====
-- The packets that nb_mlx5_transport.cc returns.
use net_blocks.Base.{
  ℕ, ◌+◌, ◌-◌, ◌*◌, ◌%◌, ◌≤◌, ◌≡◌, refl, ap, ◌∙◌, true, false, Option, none, some, arith, leb, ◌==◌,
  if◌then◌else◌, Bool-cases, inl, inr, length,
}
use Prim.Native.Nat.{max}
use net_blocks.Mlx5.{
  Transport, Card, mlx5_try_recv, ibv_frame_size, take_pending, poll_packet,
  mlx5_get_next_recv_buffer, mlx5_mtu,
}
use net_blocks.Mlx5.Ring.{IsRing, mlx5_try_recv_lem}
use net_blocks.Mlx5.Count.{Shows, Kept}

-- Of `counted` packets, `returned` were given to the caller of `nb__poll_packet`.
pub record IsReturned (c : Card) (returned counted k : ℕ) : Type 0 where
  pub ring : IsRing c.transport counted k
  pub waits : counted ≡ returned + c.pending_recv
  pub place : c.transport.recv_buffer_index ≡ returned % 4096

-- The place of a packet in the receive buffers, in the order in which the card fills them.
abbrev pub packet_at : Transport → ℕ → ℕ
packet_at tr n = tr.recv_buffer + ibv_frame_size * (n % 4096)

-- What `nb__poll_packet` returns while `counted` packets are known.
abbrev pub next_packet : Card → ℕ → ℕ → ℕ → Option (ℕ × ℕ)
next_packet c headroom returned counted =
    if leb counted returned
    then none
    else some (packet_at c.transport returned - headroom, mlx5_mtu)

-- The packets that are returned then.
abbrev pub returned_then : ℕ → ℕ → ℕ
returned_then returned counted = if leb counted returned then returned else returned + 1

take_pending-IsReturned :
    (c : Card) (headroom returned counted k : ℕ)
    → IsReturned c returned counted k
    → (take_pending c headroom).0 ≡ next_packet c headroom returned counted
      × IsReturned (take_pending c headroom).1 (returned_then returned counted) counted k
unfolding take_pending mlx5_get_next_recv_buffer
take_pending-IsReturned c headroom returned counted k r = elim (Bool-cases (c.pending_recv == 0)) [
  | inl e ↦
      let none_left : leb counted returned ≡ true = ground (arith, e, r.waits) in
      (rw (e, none_left) refl, rw (e, none_left) r)
  | inr e ↦
      let some_left : leb counted returned ≡ false = ground (arith, e, r.waits) in
      (
        rw (e, some_left, r.place) refl,
        rw (e, some_left)
            record {
              ring = record {
                ring = record {
                  batches = r.ring.ring.batches;
                  index = r.ring.ring.index;
                  same_posted = r.ring.ring.same_posted;
                };
                cycle = r.ring.cycle;
                rest = r.ring.rest;
              };
              waits = ground (arith, e, r.waits);
              place = ap (λ i. (i + 1) % 4096) r.place ∙ omega arith;
            },
      )
]

-- `nb__poll_packet` returns. It gives the next packet of those that the card has filled, the address in
-- front of it by the headroom, and none if all are returned; the ring stays in order. The card shows
-- `new` packets, no more than 33550335 packets old, and has room for them in the buffers posted.
pub poll_packet_lem :
    (c : Card) (headroom returned counted k new : ℕ)
    → IsReturned c returned counted k
    → Shows c.transport new
    → new ≤ 512 * length c.transport.posted
    → counted ≤ new + 33550335
    → (c' : Card) × (k' : ℕ) × (known : ℕ) × (known
        ≡ (if c.pending_recv == 0 then max counted new else counted))
      × (poll_packet c headroom ≡ some (next_packet c headroom returned known, c'))
      × IsReturned c' (returned_then returned known) known k'
unfolding poll_packet
poll_packet_lem c headroom returned counted k new r shows room recent =
    elim (Bool-cases (c.pending_recv == 0)) [
      | inl e ↦
          let (tr, k', runs, ring, kept) =
            mlx5_try_recv_lem c.transport counted k new r.ring shows room recent in
          let ready : Card = record { transport = tr; pending_recv = new - counted } in
          let still : IsReturned ready returned (max counted new) k' = record {
            ring = ring;
            waits = ground (arith, e, r.waits);
            place = kept.same_index ∙ r.place;
          } in
          let (given, next) =
            take_pending-IsReturned ready headroom returned (max counted new) k' still in
          (
            (take_pending ready headroom).1,
            k',
            max counted new,
            rw e refl,
            polled e runs (given ∙ same_place kept (max counted new)),
            next,
          )
      | inr e ↦
          let (given, next) = take_pending-IsReturned c headroom returned counted k r in
          (
            (take_pending c headroom).1,
            k,
            counted,
            rw e refl,
            rw e (ap (λ (p : Option (ℕ × ℕ)). some (p, (take_pending c headroom).1)) given),
            next,
          )
    ]
  where
    same_place :
        {tr : Transport}
        → Kept c.transport tr
        → (known : ℕ)
        → next_packet
            (record { transport = tr; pending_recv = new - counted })
            headroom
            returned
            known
          ≡ next_packet c headroom returned known
    same_place kept known =
        ap
          (λ b.
            if leb known returned
            then none
            else some (b + ibv_frame_size * (returned % 4096) - headroom, mlx5_mtu))
          kept.same_buffer

    polled :
        {tr : Transport} {p : Option (ℕ × ℕ)}
        → (c.pending_recv == 0) ≡ true
        → mlx5_try_recv c.transport ≡ some (new - counted, tr)
        → (take_pending (record { transport = tr; pending_recv = new - counted }) headroom).0 ≡ p
        → poll_packet c headroom
          ≡ some (
            p,
            (take_pending (record { transport = tr; pending_recv = new - counted }) headroom).1,
          )
    polled {tr} {p} e runs given = rw e (
        ap
          (λ (o : Option (ℕ × Transport)). elim o [
            | none ↦ none
            | some (ret, t) ↦
                some (take_pending (record { transport = t; pending_recv = ret }) headroom)
          ])
          runs
        ∙ ap
            (λ (q : Option (ℕ × ℕ)). some (
              q,
              (take_pending (record { transport = tr; pending_recv = new - counted }) headroom).1,
            ))
            given)
