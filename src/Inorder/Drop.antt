-- ===== src/Inorder/Drop.antt =====
-- The strategy `drop_out_of_order` of inorder_module.cpp, over the packets of a connection.
use net_blocks.Base.{
  ℕ, ◌+◌, ◌≤◌, ◌<◌, ◌≡◌, refl, sym, ap, ◌∙◌, inl, inr, true, false, Option, none, some, List, [],
  ◌∷◌, ◌++◌, arith, ltb, length, if◌then◌else◌, Bool-cases,
}
use mathlib.Core.List.{append-nil, append_assoc}
use net_blocks.Queue.{DataQueue}
use net_blocks.Queue.Refine.{contents}
use net_blocks.Framework.{HookStatus, hook_continue, hook_drop}
use net_blocks.Inorder.{
  Flow, PacketLayout, Result, ok, out_of_bounds, out_of_fuel, drop_out_of_order, deliver,
  ingress_drop, hook_ingress, or_out_of_bounds,
}
use net_blocks.Inorder.Flush.{payload_of, payloads_of, deliver_lem}

abbrev pub sequence_in : Flow → ℕ → ℕ
sequence_in f p = (f.packet p).sequence_number

abbrev pub len_in : Flow → ℕ → ℕ
len_in f p = (f.packet p).computed_total_len

-- The packets that are newer than all before them, where `last` is the newest so far, and the newest at the end.
unfoldable pub newer : (ℕ → ℕ) → ℕ → List ℕ → List ℕ
newer seq last [] = []
newer seq last (p ∷ ps) = if ltb last (seq p) then p ∷ newer seq (seq p) ps else newer seq last ps

unfoldable pub newest : (ℕ → ℕ) → ℕ → List ℕ → ℕ
newest seq last [] = last
newest seq last (p ∷ ps) = newest seq (if ltb last (seq p) then seq p else last) ps

-- The sequence numbers increase, from above `last` on.
abbrev pub Increases : (ℕ → ℕ) → ℕ → List ℕ → Type 0
Increases seq last [] = Unit {0}
Increases seq last (p ∷ ps) = (last < seq p) × Increases seq (seq p) ps

-- The hook on each packet in turn.
unfoldable pub receive_all : PacketLayout → Flow → List ℕ → Result Flow
receive_all l f [] = ok f
receive_all l f (p ∷ ps) = elim (hook_ingress drop_out_of_order l f p) [
  | ok (g, s) ↦ receive_all l g ps
  | out_of_bounds ↦ out_of_bounds
  | out_of_fuel ↦ out_of_fuel
]

abbrev delivered : Flow → ℕ → DataQueue → Flow
delivered f p q = record f { last_recv_sequence = sequence_in f p; input_queue = q }

ingress_new :
    (l : PacketLayout) (f : Flow) (p : ℕ) (q : DataQueue)
    → ltb f.last_recv_sequence (sequence_in f p) ≡ true
    → deliver l f.input_queue p (len_in f p) ≡ some q
    → hook_ingress drop_out_of_order l f p ≡ ok (delivered f p q, hook_continue)
unfolding hook_ingress ingress_drop
ingress_new l f p q new runs = rw new (
    ap
      (λ (o : Option DataQueue). or_out_of_bounds (elim o as (λ _. Option (Flow × HookStatus)) [
        | none ↦ none
        | some q' ↦ some (delivered f p q', hook_continue)
      ]))
      runs)

ingress_old :
    (l : PacketLayout) (f : Flow) (p : ℕ)
    → ltb f.last_recv_sequence (sequence_in f p) ≡ false
    → hook_ingress drop_out_of_order l f p ≡ ok (f, hook_drop)
unfolding hook_ingress ingress_drop
ingress_old l f p old = rw old refl

receive_next :
    (l : PacketLayout) (f g : Flow) (p : ℕ) (s : HookStatus) (ps : List ℕ)
    → hook_ingress drop_out_of_order l f p ≡ ok (g, s)
    → receive_all l f (p ∷ ps) ≡ receive_all l g ps
unfolding receive_all
receive_next l f g p s ps e =
    ap
      (λ (r : Result (Flow × HookStatus)). elim r as (λ _. Result Flow) [
        | ok (g', s') ↦ receive_all l g' ps
        | out_of_bounds ↦ out_of_bounds
        | out_of_fuel ↦ out_of_fuel
      ])
      e

-- With drop_out_of_order and room in the queue for all packets: whatever the order in which packets arrive, the hook
-- accepts exactly those whose sequence number is above all before it. Their payloads come into the queue in that order, their numbers
-- increase, and the last number received is the largest so far.
pub receive_all_lem :
    (l : PacketLayout) (f : Flow) (ps : List ℕ)
    → f.input_queue.current_elems + length ps ≤ 512
    → (g : Flow) × (receive_all l f ps ≡ ok g)
      × (contents (g.input_queue)
          ≡ contents (f.input_queue)
            ++ payloads_of l (len_in f) (newer (sequence_in f) f.last_recv_sequence ps))
      × Increases
          (sequence_in f)
          f.last_recv_sequence
          (newer (sequence_in f) f.last_recv_sequence ps)
      × (g.last_recv_sequence ≡ newest (sequence_in f) f.last_recv_sequence ps)
unfolding newer newest payloads_of
receive_all_lem l f [] room =
    (f, unfold receive_all in refl, sym (append-nil (contents f.input_queue)), tt, refl)
receive_all_lem l f (p ∷ ps) room = elim (Bool-cases (ltb f.last_recv_sequence (sequence_in f p))) [
  | inl new ↦
      let (q, runs, more, count) = deliver_lem l f.input_queue (len_in f) p (omega arith) in
      let (g, all, queue, up, last) =
        receive_all_lem l (delivered f p q) ps (omega (arith, count)) in
      (
        g,
        receive_next l f (delivered f p q) p hook_continue ps (ingress_new l f p q new runs) ∙ all,
        rw new (
            queue
            ∙ ap (λ c. c ++ payloads_of l (len_in f) (newer (sequence_in f) (sequence_in f p) ps))
                more
            ∙ append_assoc (contents f.input_queue) (payload_of l (len_in f) p)
                (payloads_of l (len_in f) (newer (sequence_in f) (sequence_in f p) ps))),
        rw new (ground (arith, new), up),
        rw new last,
      )
  | inr old ↦
      let (g, all, queue, up, last) = receive_all_lem l f ps (omega arith) in
      (
        g,
        receive_next l f f p hook_drop ps (ingress_old l f p old) ∙ all,
        rw old queue,
        rw old up,
        rw old last,
      )
]
