-- ===== src/Accept/Drained.antt =====
-- After `nb__accept` no packet of the accepted source waits, and all others still do.
use net_blocks.Base.{
  ℕ, zero, suc, ◌+◌, ◌-◌, ◌^◌, ◌≤◌, ◌<◌, ◌≡◌, ◌≢◌, refl, ap, ◌∙◌, true, false, some, List, [], ◌∷◌,
  arith, ltb, ◌==◌, Bool-cases, inl, inr,
}
use native.Mathlib.Decide.{dec_lt}
use net_blocks.Queue.{AcceptQueue, put, remove_at}
use net_blocks.Signaling.{signaled}
use net_blocks.Accept.{
  is_from, run_packet, run_first, run_ingress, accept_loop, accepted, accept_all, accept,
}

-- A weight of what waits, from a source and a packet.
abbrev Weight : Type 0
Weight = ℕ → ℕ → ℕ → ℕ

unfoldable pub sum : ℕ → (ℕ → ℕ) → ℕ
sum zero f = 0
sum (suc n) f = sum n f + f n

abbrev pub weigh : Weight → AcceptQueue → ℕ → ℕ
weigh w q i = w (q.src_app_id i) (q.src_host_id i) (q.packet i)

abbrev pub weigh_waiting : Weight → AcceptQueue → ℕ
weigh_waiting w q = sum q.current_elems (weigh w q)

unfoldable pub weigh_packets : Weight → ℕ → ℕ → List ℕ → ℕ
weigh_packets w a h [] = 0
weigh_packets w a h (p ∷ ps) = w a h p + weigh_packets w a h ps

sum_ext : (n : ℕ) (f g : ℕ → ℕ) → ((k : ℕ) → k < n → f k ≡ g k) → sum n f ≡ sum n g
unfolding sum
sum_ext zero f g same = refl
sum_ext (suc n) f g same =
    let rest = sum_ext n f g (λ k p. same k (omega arith)) in
    let here = same n (omega arith) in omega (arith, rest, here)

-- One place with another value.
sum_change :
    (n i : ℕ) (f g : ℕ → ℕ) → i < n → ((k : ℕ) → k ≢ i → g k ≡ f k) → sum n g + f i ≡ sum n f + g i
unfolding sum
sum_change zero i f g below same = absurd (omega arith)
sum_change (suc n) i f g below same = elim (dec_lt i n) [
  | yes p ↦
      let rest = sum_change n i f g p same in
      let here = same n (λ e. omega arith) in omega (arith, rest, here)
  | no p ↦
      let last : i ≡ n = omega arith in
      let rest = sum_ext n g f (λ k q. same k (λ e. omega arith)) in
      let fi = ap f last in let gi = ap g last in omega (arith, rest, fi, gi)
]

remove_at-other :
    (w : Weight) (q : AcceptQueue) (i k : ℕ) → k ≢ i → weigh w (remove_at q i) k ≡ weigh w q k
unfolding remove_at put
remove_at-other w q i k ne = let other : (k == i) ≡ false = ground arith in rw other refl

remove_at-here :
    (w : Weight) (q : AcceptQueue) (i : ℕ)
    → weigh w (remove_at q i) i ≡ weigh w q (q.current_elems - 1)
unfolding remove_at put
remove_at-here w q i = let here : (i == i) ≡ true = ground arith in rw here refl

remove_at-sum :
    (w : Weight) (q : AcceptQueue) (i n : ℕ)
    → q.current_elems ≡ suc n
    → i < suc n
    → weigh_waiting w q ≡ sum n (weigh w (remove_at q i)) + weigh w q i
unfolding sum
remove_at-sum w q i n count below =
    let f = weigh w q in
    let g = weigh w (remove_at q i) in
    let whole : weigh_waiting w q ≡ sum n f + f n = ap (λ m. sum m f) count in
    let here : g i ≡ f n =
      remove_at-here w q i ∙ ap f (let e : q.current_elems - 1 ≡ n = omega (arith, count) in e) in
    elim (dec_lt i n) [
      | yes p ↦
          let rest = sum_change n i f g p (λ k ne. remove_at-other w q i k ne) in
          omega (arith, whole, here, rest)
      | no p ↦
          let last : i ≡ n = omega arith in
          let rest = sum_ext n g f (λ k q'. remove_at-other w q i k (λ e. omega arith)) in
          let fi = ap f last in omega (arith, whole, rest, fi)
    ]

remove_at-current : (q : AcceptQueue) (i : ℕ) → (remove_at q i).current_elems ≡ q.current_elems - 1
unfolding remove_at
remove_at-current q i = refl

-- No packet of the source waits among the elements below `n`.
abbrev pub NoneFrom : ℕ → ℕ → AcceptQueue → ℕ → Type 0
NoneFrom a h q n = (k : ℕ) → k < n → is_from a h q k ≡ false

remove_at-NoneFrom :
    (a h : ℕ) (q : AcceptQueue) (i : ℕ) → NoneFrom a h q i → NoneFrom a h (remove_at q i) i
unfolding remove_at put is_from
remove_at-NoneFrom a h q i before k p =
    let other : (k == i) ≡ false = ground arith in rw other (before k p)

-- What the loop leaves and runs, of the queue `q`.
pub record IsDrained (w : Weight) (a h : ℕ) (q q' : AcceptQueue) (ps : List ℕ) : Type 0 where
  pub none_left : NoneFrom a h q' q'.current_elems
  pub conserved : weigh_waiting w q ≡ weigh_waiting w q' + weigh_packets w a h ps

weigh_packets-run_packet :
    (w : Weight) (a h p : ℕ) (ps : List ℕ)
    → w a h 0 ≡ 0
    → weigh_packets w a h (run_packet p ps) ≡ w a h p + weigh_packets w a h ps
unfolding weigh_packets run_packet
weigh_packets-run_packet w a h p ps null = elim (Bool-cases (p == 0)) [
  | inl e ↦
      let same : p ≡ 0 = ground (arith, e) in
      let nothing = ap (w a h) same ∙ null in rw e (omega (arith, nothing))
  | inr e ↦ rw e refl
]

is_from-weigh :
    (w : Weight) (a h : ℕ) (q : AcceptQueue) (i : ℕ)
    → is_from a h q i ≡ true
    → weigh w q i ≡ w a h (q.packet i)
unfolding is_from
is_from-weigh w a h q i e =
    let app : q.src_app_id i ≡ a = ground (arith, e) in
    let host : q.src_host_id i ≡ h = ground (arith, e) in cc

extend_before :
    (a h : ℕ) (q : AcceptQueue) (i : ℕ)
    → NoneFrom a h q i
    → is_from a h q i ≡ false
    → NoneFrom a h q (i + 1)
extend_before a h q i before here k p = elim (dec_lt k i) [
  | yes below ↦ before k below
  | no above ↦ let same : k ≡ i = omega arith in ap (is_from a h q) same ∙ here
]

-- The ingress path adds nothing to this queue.
abbrev pub IsQuiet : (ℕ → AcceptQueue → AcceptQueue) → Type 0
IsQuiet run = (packet : ℕ) (q : AcceptQueue) → run packet q ≡ q

quiet :
    (run : ℕ → AcceptQueue → AcceptQueue) (packet : ℕ) (q : AcceptQueue)
    → IsQuiet run
    → run_ingress run packet q ≡ q
unfolding run_ingress
quiet run packet q same = elim (Bool-cases (packet == 0)) [
  | inl e ↦ rw e refl
  | inr e ↦ rw e (same packet q)
]

accept_loop_lem :
    (run : ℕ → AcceptQueue → AcceptQueue) (w : Weight) (a h fuel : ℕ) (q : AcceptQueue) (i : ℕ)
    → IsQuiet run
    → w a h 0 ≡ 0
    → q.current_elems < i + fuel
    → i ≤ q.current_elems
    → NoneFrom a h q i
    → (ps : List ℕ) × (q' : AcceptQueue) × (accept_loop run fuel a h q i ≡ some (ps, q'))
      × IsDrained w a h q q' ps
unfolding accept_loop run_first
accept_loop_lem run w a h zero q i same null enough le before = absurd (omega arith)
accept_loop_lem run w a h (suc fuel) q i same null enough le before =
    elim (Bool-cases (ltb i q.current_elems)) [
      | inr e ↦
          let last : q.current_elems ≡ i = ground (arith, e) in
          (
            [],
            q,
            rw e refl,
            record {
              none_left = λ k p. before k (omega (arith, last));
              conserved = unfold weigh_packets in omega arith;
            },
          )
      | inl e ↦
          let more : i < q.current_elems = ground (arith, e) in
          elim (Bool-cases (is_from a h q i)) [
            | inl m ↦
                let count = remove_at-current q i in
                let (ps, q', done, rest) =
                  accept_loop_lem run w a h fuel (remove_at q i) i same null (omega (arith, count))
                    (omega (arith, count)) (remove_at-NoneFrom a h q i before) in
                let moved = remove_at-sum w q i (q.current_elems - 1) (omega arith) (omega arith) in
                let own = is_from-weigh w a h q i m in
                let ran = weigh_packets-run_packet w a h (q.packet i) ps null in
                let conserved = rest.conserved in
                let total = ap (λ n. sum n (weigh w (remove_at q i))) count in
                (
                  run_packet (q.packet i) ps,
                  q',
                  rw (e, m, quiet run (q.packet i) q same) (ap (run_first (q.packet i)) done),
                  record {
                    none_left = rest.none_left;
                    conserved = omega (arith, moved, own, ran, conserved, total);
                  },
                )
            | inr m ↦
                let (ps, q', done, rest) =
                  accept_loop_lem run w a h fuel q (i + 1) same null (omega arith) (omega arith)
                    (extend_before a h q i before m) in
                (ps, q', rw (e, m) done, rest)
          ]
    ]

last_sum :
    (w : Weight) (q : AcceptQueue)
    → q.current_elems ≢ 0
    → weigh_waiting w q ≡ sum (q.current_elems - 1) (weigh w q) + weigh w q (q.current_elems - 1)
unfolding sum
last_sum w q waits =
    let n = q.current_elems - 1 in
    let count : q.current_elems ≡ suc n = omega arith in ap (λ m. sum m (weigh w q)) count

established :
    (a h : ℕ) (ps : List ℕ) (q : AcceptQueue)
    → h < 2 ^ 32
    → accept_all a h (some (ps, q)) ≡ accepted a h signaled ps q
unfolding accept_all
established a h ps q int = ap (λ n. accepted a n signaled ps q) (omega arith)

-- `nb__accept` runs the packet of the last element first.
pub accept_first :
    (run : ℕ → AcceptQueue → AcceptQueue) (fuel : ℕ) (w : ℕ → ℕ → ℕ → ℕ) (q : AcceptQueue)
    → IsQuiet run
    → ((a h : ℕ) → w a h 0 ≡ 0)
    → q.current_elems ≢ 0
    → q.current_elems ≤ fuel
    → q.src_host_id (q.current_elems - 1) < 2 ^ 32
    → let index = q.current_elems - 1 in
      let a = q.src_app_id index in
      let h = q.src_host_id index in
      (ps : List ℕ) × (q' : AcceptQueue) × (accept run fuel q
        ≡ accepted a h signaled (run_packet (q.packet index) ps) q')
      × IsDrained w a h q q' (run_packet (q.packet index) ps)
unfolding accept run_first
accept_first run fuel w q same null waits enough int =
    let index = q.current_elems - 1 in
    let a = q.src_app_id index in
    let h = q.src_host_id index in
    let popped : AcceptQueue = record q { current_elems = index } in
    let full : (q.current_elems == 0) ≡ false = ground arith in
    let (ps, q', done, rest) =
      accept_loop_lem run w a h fuel popped 0 same (null a h) (omega arith) (omega arith)
        (λ k p. absurd (omega arith)) in
    let whole : weigh_waiting w q ≡ sum index (weigh w q) + weigh w q index = last_sum w q waits in
    let ran = weigh_packets-run_packet w a h (q.packet index) ps (null a h) in
    let conserved = rest.conserved in
    (
      ps,
      q',
      rw (full, quiet run (q.packet index) popped same)
          (ap (λ r. accept_all a h (run_first (q.packet index) r)) done
            ∙ established a h (run_packet (q.packet index) ps) q' int),
      record { none_left = rest.none_left; conserved = omega (arith, whole, ran, conserved) },
    )
