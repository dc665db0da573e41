-- ===== src/Mlx5/Count.antt =====
-- The count of new packets in mlx5_impl/transport.cc.
use net_blocks.Base.{
  ℕ, ◌+◌, ◌-◌, ◌%◌, ◌≤◌, ◌<◌, ◌≡◌, refl, sym, ap, ◌∙◌, true, false, arith, ltb, leb, ◌==◌,
  if◌then◌else◌, ◌||◌, Bool-cases, inl, inr,
}
use Prim.Native.Nat.{max}
use native.Mathlib.Decide.{dec_lt}
use net_blocks.Mlx5.{Transport, get_recv_cycle, total_cycles, get_packet_count}

-- The number of the cycle in which the card has received `n` packets in all.
abbrev pub cycle_after : ℕ → ℕ
cycle_after n = (total_cycles - 1 + n) % total_cycles

-- The entry that is looked at next shows `n` packets.
abbrev pub Shows : Transport → ℕ → Type 0
Shows tr n = get_recv_cycle (tr.wqe_id tr.cqe_idx) (tr.wqe_counter tr.cqe_idx) ≡ cycle_after n

-- The state after an entry that shows something new.
abbrev next_entry : Transport → Transport
next_entry tr = record tr {
  cqe_idx = (tr.cqe_idx + 1) % 8;
  recv_index_cycle = get_recv_cycle (tr.wqe_id tr.cqe_idx) (tr.wqe_counter tr.cqe_idx);
}

-- A new entry, or one that the card wrote less than a whole round of the cycles ago.
pub cycle_difference :
    (new seen : ℕ)
    → new ≤ seen + 4096
    → seen ≤ new + 33550335
    → (cycle_after new + total_cycles - cycle_after seen) % total_cycles
      ≡ (if leb seen new then new - seen else total_cycles + new - seen)
cycle_difference new seen near recent = elim (Bool-cases (leb seen new)) [
  | inl e ↦ let le : seen ≤ new = ground (arith, e) in rw e (omega arith)
  | inr e ↦ let lt : new < seen = ground (arith, e) in rw e (omega arith)
]

-- The receive buffers and the place of the next packet stay.
pub record Kept (tr tr' : Transport) : Type 0 where
  pub same_size : tr'.per_size ≡ tr.per_size
  pub same_buffer : tr'.recv_buffer ≡ tr.recv_buffer
  pub same_index : tr'.recv_buffer_index ≡ tr.recv_buffer_index

-- The state that is left when the newest of `n` and `seen` packets are counted.
pub record Counted (tr tr' : Transport) (seen new : ℕ) : Type 0 where
  pub cycle : tr'.recv_index_cycle ≡ cycle_after (max seen new)
  pub to_post : tr'.recvs_to_post ≡ tr.recvs_to_post
  pub index : tr'.recv_index_to_post ≡ tr.recv_index_to_post
  pub same_posted : tr'.posted ≡ tr.posted
  pub kept : Kept tr tr'

get_packet_count_at :
    (tr : Transport) (diff : ℕ)
    → (get_recv_cycle (tr.wqe_id tr.cqe_idx) (tr.wqe_counter tr.cqe_idx)
          + total_cycles
          - tr.recv_index_cycle)
        % total_cycles
      ≡ diff
    → get_packet_count tr
      ≡ (if (diff == 0) || ltb 4096 diff then (0, tr) else (diff, next_entry tr))
unfolding get_packet_count
get_packet_count_at tr diff e = rw e refl

nothing_new :
    (tr : Transport) (seen new diff : ℕ)
    → tr.recv_index_cycle ≡ cycle_after seen
    → ((diff == 0) || ltb 4096 diff) ≡ true
    → new ≤ seen
    → get_packet_count tr
      ≡ (if (diff == 0) || ltb 4096 diff then (0, tr) else (diff, next_entry tr))
    → (tr' : Transport) × (get_packet_count tr ≡ (new - seen, tr')) × Counted tr tr' seen new
nothing_new tr seen new diff at e le count =
    let none_new : new - seen ≡ 0 = omega arith in
    let same : max seen new ≡ seen = omega arith in
    (
      tr,
      rw none_new (count ∙ (rw e refl)),
      record {
        cycle = at ∙ ap cycle_after (sym same);
        to_post = refl;
        index = refl;
        same_posted = refl;
        kept = record { same_size = refl; same_buffer = refl; same_index = refl };
      },
    )

pub get_packet_count_lem :
    (tr : Transport) (seen new : ℕ)
    → tr.recv_index_cycle ≡ cycle_after seen
    → Shows tr new
    → new ≤ seen + 4096
    → seen ≤ new + 33550335
    → (tr' : Transport) × (get_packet_count tr ≡ (new - seen, tr')) × Counted tr tr' seen new
get_packet_count_lem tr seen new at shows near recent =
    let diff : ℕ = if leb seen new then new - seen else total_cycles + new - seen in
    let same : (get_recv_cycle (tr.wqe_id tr.cqe_idx) (tr.wqe_counter tr.cqe_idx)
            + total_cycles
            - tr.recv_index_cycle)
          % total_cycles
        ≡ diff =
      ap (λ n. (n + total_cycles - tr.recv_index_cycle) % total_cycles) shows
      ∙ ap (λ n. (cycle_after new + total_cycles - n) % total_cycles) at
      ∙ cycle_difference new seen near recent in
    let count = get_packet_count_at tr diff same in
    elim (dec_lt seen new) [
      | yes lt ↦
          let is : diff ≡ new - seen = ground (arith, lt) in
          let some_new : ((diff == 0) || ltb 4096 diff) ≡ false = ground (arith, is, lt, near) in
          (
            next_entry tr,
            count
                ∙ ap (λ b. if b then (0, tr) else (diff, next_entry tr)) some_new
                ∙ ap (λ d. (d, next_entry tr)) is,
            record {
              cycle = shows ∙ ap cycle_after (let m : new ≡ max seen new = omega arith in m);
              to_post = refl;
              index = refl;
              same_posted = refl;
              kept = record { same_size = refl; same_buffer = refl; same_index = refl };
            },
          )
      | no le ↦ nothing_new tr seen new diff at (ground (arith, le, recent)) (omega arith) count
    ]
