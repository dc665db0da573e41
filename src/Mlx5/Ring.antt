-- ===== src/Mlx5/Ring.antt =====
-- The receive buffers that mlx5_impl/transport.cc posts.
use net_blocks.Base.{
  ℕ, zero, suc, ◌+◌, ◌-◌, ◌*◌, ◌%◌, ◌≤◌, ◌<◌, ◌≡◌, refl, ap, ◌∙◌, true, Option, none, some, arith,
  leb, Bool-cases, inl, inr, ◌++◌, List, [], ◌∷◌, length, length-append,
}
use Prim.Native.Nat.{max}
use net_blocks.Mlx5.{
  Transport, get_packet_count, post_all, post_recv, post_loop, mlx5_try_recv, init_transport,
  ibv_frame_size,
}
use net_blocks.Mlx5.Count.{cycle_after, Shows, Kept, get_packet_count_lem}

-- The first `n` buffers that are posted: their indices go round the eight buffers.
pub posts : ℕ → ℕ → ℕ → List (ℕ × ℕ)
posts zero recv_buffer per_size = []
posts (suc n) recv_buffer per_size =
    posts n recv_buffer per_size ++ (n % 8, recv_buffer + per_size * (n % 8)) ∷ []

length-posts : (n recv_buffer per_size : ℕ) → length (posts n recv_buffer per_size) ≡ n
unfolding posts
length-posts zero b s = refl
length-posts (suc n) b s =
    length-append (posts n b s) ((n % 8, b + s * (n % 8)) ∷ []) ∙ omega (arith, length-posts n b s)

-- Of `n` packets that were counted, all but `recvs_to_post` filled `k` buffers, which are posted again.
pub record Posted (tr : Transport) (n k : ℕ) : Type 0 where
  pub batches : n ≡ 512 * k + tr.recvs_to_post
  pub index : tr.recv_index_to_post ≡ k % 8
  pub same_posted : tr.posted ≡ posts (8 + k) tr.recv_buffer tr.per_size

-- The transport has counted `n` packets, and every buffer that is full is posted again.
pub record IsRing (tr : Transport) (n k : ℕ) : Type 0 where
  pub ring : Posted tr n k
  pub cycle : tr.recv_index_cycle ≡ cycle_after n
  pub rest : tr.recvs_to_post < 512

-- What the loop of `mlx5_try_recv` leaves.
record Looped (tr tr' : Transport) (n : ℕ) : Type 0 where
  batches_posted : ℕ
  ring : Posted tr' n batches_posted
  rest : tr'.recvs_to_post < 512
  cycle : tr'.recv_index_cycle ≡ tr.recv_index_cycle
  kept : Kept tr tr'

post_recv-Posted :
    (tr : Transport) (n k : ℕ)
    → leb 512 tr.recvs_to_post ≡ true
    → Posted tr n k
    → Posted (post_recv tr) n (suc k)
unfolding post_recv posts
post_recv-Posted tr n k more p = record {
  batches = ground (arith, more, p.batches);
  index = ap (λ i. (i + 1) % 8) p.index ∙ omega arith;
  same_posted =
      ap (λ i. tr.posted ++ (i, tr.recv_buffer + tr.per_size * i) ∷ [])
        (p.index ∙ (let r : k % 8 ≡ (8 + k) % 8 = omega arith in r))
      ∙ ap (λ ps. ps ++ ((8 + k) % 8, tr.recv_buffer + tr.per_size * ((8 + k) % 8)) ∷ [])
          p.same_posted
      ∙ ap (λ n. posts n tr.recv_buffer tr.per_size)
          (let e : suc (8 + k) ≡ 8 + suc k = omega arith in e);
}

post_loop-Looped :
    (fuel : ℕ) (tr : Transport) (n k : ℕ)
    → tr.recvs_to_post < fuel
    → Posted tr n k
    → (tr' : Transport) × (post_loop fuel tr ≡ some tr') × Looped tr tr' n
unfolding post_loop post_recv
post_loop-Looped zero tr n k lt p = absurd (omega arith)
post_loop-Looped (suc fuel) tr n k lt p = elim (Bool-cases (leb 512 tr.recvs_to_post)) [
  | inl e ↦
      let (tr', runs, l) =
        post_loop-Looped fuel (post_recv tr) n (suc k) (ground (arith, e, lt))
          (post_recv-Posted tr n k e p) in
      (
        tr',
        rw e runs,
        record {
          batches_posted = l.batches_posted;
          ring = l.ring;
          rest = l.rest;
          cycle = l.cycle;
          kept = record {
            same_size = l.kept.same_size;
            same_buffer = l.kept.same_buffer;
            same_index = l.kept.same_index;
          };
        },
      )
  | inr e ↦ (
    tr,
    rw e refl,
    record {
      batches_posted = k;
      ring = p;
      rest = ground (arith, e);
      cycle = refl;
      kept = record { same_size = refl; same_buffer = refl; same_index = refl };
    },
  )
]

mlx5_try_recv_at :
    (tr counted tr' : Transport) (ret : ℕ)
    → get_packet_count tr ≡ (ret, counted)
    → post_loop
        (tr.recvs_to_post + ret + 1)
        (record counted { recvs_to_post = counted.recvs_to_post + ret })
      ≡ some tr'
    → mlx5_try_recv tr ≡ some (ret, tr')
unfolding mlx5_try_recv
mlx5_try_recv_at tr counted tr' ret count runs =
    ap
      (λ (p : ℕ × Transport).
        elim (post_loop (tr.recvs_to_post + p.0 + 1)
          (record p.1 { recvs_to_post = p.1.recvs_to_post + p.0 })) [
            | none ↦ none
            | some t ↦ some (p.0, t)
          ])
      count
    ∙ ap (λ (o : Option Transport). elim o [ none ↦ none | some t ↦ some (ret, t) ]) runs

-- While the transport has counted `seen` packets and posted every full buffer again, and the card, which has
-- room for the buffers posted, shows the packet count `new`, no more than 33550335 packets old:
-- `mlx5_try_recv` returns, it reports the packets that are new, and posts every full buffer again, in the order of the ring.
pub mlx5_try_recv_lem :
    (tr : Transport) (seen k new : ℕ)
    → IsRing tr seen k
    → Shows tr new
    → new ≤ 512 * length tr.posted
    → seen ≤ new + 33550335
    → (tr' : Transport) × (k' : ℕ) × (mlx5_try_recv tr ≡ some (new - seen, tr'))
      × IsRing tr' (max seen new) k'
      × Kept tr tr'
mlx5_try_recv_lem tr seen k new r shows room recent =
    let posted : length tr.posted ≡ 8 + k =
      ap length r.ring.same_posted ∙ length-posts (8 + k) tr.recv_buffer tr.per_size in
    let near : new ≤ seen + 4096 = omega (arith, r.ring.batches) in
    let (tr1, count, c) = get_packet_count_lem tr seen new r.cycle shows near recent in
    let ready = record tr1 { recvs_to_post = tr1.recvs_to_post + (new - seen) } in
    let ring : Posted ready (max seen new) k = record {
      batches = omega (arith, r.ring.batches, c.to_post);
      index = c.index ∙ r.ring.index;
      same_posted = rw (c.same_posted, c.kept.same_buffer, c.kept.same_size) r.ring.same_posted;
    } in
    let enough : ready.recvs_to_post < tr.recvs_to_post + (new - seen) + 1 =
      omega (arith, c.to_post) in
    let (tr', runs, l) =
      post_loop-Looped (tr.recvs_to_post + (new - seen) + 1) ready (max seen new) k enough ring in
    (
      tr',
      l.batches_posted,
      mlx5_try_recv_at tr tr1 tr' (new - seen) count runs,
      record { ring = l.ring; cycle = l.cycle ∙ c.cycle; rest = l.rest },
      record {
        same_size = l.kept.same_size ∙ c.kept.same_size;
        same_buffer = l.kept.same_buffer ∙ c.kept.same_buffer;
        same_index = l.kept.same_index ∙ c.kept.same_index;
      },
    )

init_transport-posted : (b s i : ℕ) → post_all 8 0 b s ≡ posts 8 b s
unfolding post_all posts
init_transport-posted b s i = refl

-- The ring that `mlx5_try_transport` sets up: nothing is counted, and the eight buffers are posted.
pub init_transport-IsRing :
    (send_buffer recv_buffer : ℕ) → IsRing (init_transport send_buffer recv_buffer) 0 0
unfolding init_transport
init_transport-IsRing send_buffer recv_buffer = record {
  ring = record {
    batches = refl;
    index = refl;
    same_posted = init_transport-posted recv_buffer (ibv_frame_size * 512) 0;
  };
  cycle = refl;
  rest = omega arith;
}
