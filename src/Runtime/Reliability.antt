-- ===== src/Runtime/Reliability.antt =====
-- A step of the main loop of nb_runtime.c with the hooks of reliable_module.cpp and the timers: what the packet of
-- the step acknowledges is not sent again in it.
use net_blocks.Base.{
  ℕ, ◌+◌, ◌^◌, ◌%◌, ◌<◌, ◌≡◌, ◌≢◌, sym, ap, fun_ext, subst, ◌∙◌, some, List, ◌++◌, map, length,
  arith, ◌==◌, false,
}
use net_blocks.Framework.{Module, hook_continue, hook_drop}
use net_blocks.Timer.{Ptr, null, Timers, max_timer_allocs, check_timers}
use net_blocks.Timer.Segment.{NotIn, IsRunning}
use net_blocks.Timer.Sorted.{timeout_in}
use net_blocks.Timer.Due.{due, SameOn-except, SameOn-trans, due_cong, map-due_cong, IsSorted-cong}
use net_blocks.Reliable.{
  Link, Sizes, State, callbacks, redelivery_buffer_size, redelivery_timer_callback, hook_send,
  hook_ingress,
}
use net_blocks.Reliable.Redeliver.{
  IsWaiting, argument_in, callback_in, resent, all_resent, check_timers_lem,
}
use net_blocks.Reliable.Acknowledge.{Acknowledged, hook_ingress-hook_send}
use net_blocks.Runtime.{Operations, main_loop_step}

-- The step on the state of the reliable module, where the packet `q` is polled. The callbacks of
-- `nb__cycle_connections` do not touch this state.
abbrev pub operations : Sizes → List (Module State) → ℕ → ℕ → ℕ → ℕ → ℕ → Operations State
operations z modules sequence p_ack c fuel q = record {
  poll_packet = λ w. (q, w);
  run_ingress_step = λ p w. (hook_ingress z modules sequence p_ack c w p).0;
  cycle_connections = λ w. w;
  check_timers = λ now w. check_timers (callbacks z) fuel now w;
}

main_loop_step_at :
    (z : Sizes) (modules : List (Module State)) (sequence p_ack c fuel q now : ℕ)
    (sent acked : State)
    → q ≢ null
    → hook_ingress z modules sequence p_ack c sent q ≡ (acked, hook_drop)
    → main_loop_step (operations z modules sequence p_ack c fuel q) now sent
      ≡ check_timers (callbacks z) fuel now acked
unfolding main_loop_step
main_loop_step_at z modules sequence p_ack c fuel q now sent acked nq ingress =
    let polled : (q == null) ≡ false = ground (arith, nq) in
    rw polled (ap (λ s. check_timers (callbacks z) fuel now s) (ap (λ r. r.0) ingress))

-- The timers of the other packets, after the acknowledgement.
Acknowledged-IsWaiting :
    (state : State) (ts : Timers) (l : Link) (t seq : ℕ) (xs : List Ptr)
    → NotIn t xs
    → IsWaiting ts xs
    → Acknowledged state ts l t seq xs
    → IsWaiting state.0 xs
Acknowledged-IsWaiting state ts l t seq xs out w a = record {
  running = a.running;
  sorted =
      IsSorted-cong (timeout_in ts.timer) (timeout_in state.0.timer) xs
        (SameOn-except _ _ t xs out (λ q ne. sym (a.others q ne).2)) w.sorted;
  redelivers =
      SameOn-trans (callback_in state.0) (callback_in ts) (λ p. redelivery_timer_callback) xs
        (SameOn-except _ _ t xs out (λ q ne. (a.others q ne).0)) w.redelivers;
  room = w.room;
}

Acknowledged-due :
    (state : State) (ts : Timers) (l : Link) (t seq now : ℕ) (xs : List Ptr)
    → NotIn t xs
    → Acknowledged state ts l t seq xs
    → due (timeout_in state.0.timer) now xs ≡ due (timeout_in ts.timer) now xs
Acknowledged-due state ts l t seq now xs out a =
    due_cong _ _ now xs (SameOn-except _ _ t xs out (λ q ne. (a.others q ne).2))

Acknowledged-resent :
    (z : Sizes) (state : State) (ts : Timers) (l : Link) (t seq now : ℕ) (xs : List Ptr)
    → NotIn t xs
    → Acknowledged state ts l t seq xs
    → all_resent z state.1 (argument_in state.0) (due (timeout_in state.0.timer) now xs)
      ≡ all_resent z l (argument_in ts) (due (timeout_in ts.timer) now xs)
Acknowledged-resent z state ts l t seq now xs out a =
    ap (all_resent z state.1 (argument_in state.0)) (Acknowledged-due state ts l t seq now xs out a)
    ∙ map-due_cong (resent z state.1) (argument_in state.0) (argument_in ts) (timeout_in ts.timer)
        now xs (SameOn-except _ _ t xs out (λ q ne. (a.others q ne).1))
    ∙ ap (λ f. map f (due (timeout_in ts.timer) now xs))
        (fun_ext (λ p.
          ap (λ len. (argument_in ts p + z.headroom, len)) (a.same_packets (argument_in ts p))))

-- While a timer is free, fewer than 1024 run, in order and for redelivery: after a packet is sent at any time, let a step of the
-- main loop, 50 ms or more before the end of time, poll an acknowledgement for its slot, with fuel for the
-- other timers. The step ends; it sends again the packets of the other timers that are due, each once and in order, and
-- not the packet acknowledged, even if its own timer is due. As many timers run as before it was sent.
pub main_loop_step-acknowledged :
    (z : Sizes) (modules : List (Module State)) (sequence p_ack c fuel : ℕ)
    → (ts : Timers) (l : Link) (sent_at now p q : ℕ) (xs : List Ptr) → p ≢ 0
    → ts.free_list ≢ null
    → NotIn ts.free_list xs
    → length xs < max_timer_allocs
    → IsWaiting ts xs
    → q ≢ p
    → q ≢ null
    → (l.packet q).ack_sequence_number ≢ 0
    → (l.packet q).ack_sequence_number % redelivery_buffer_size
      ≡ (l.packet p).sequence_number % redelivery_buffer_size
    → now + 50 < 2 ^ 64
    → length (due (timeout_in ts.timer) now xs) < fuel
    → (sent after : State) × (ys : List Ptr) × (hook_send (ts, l) sent_at p
        ≡ some (sent, hook_continue))
      × (main_loop_step (operations z modules sequence p_ack c fuel q) now sent ≡ some after)
      × (after.1.sent
          ≡ l.sent ++ all_resent z l (argument_in ts) (due (timeout_in ts.timer) now xs))
      × IsRunning after.0 ys
      × (length ys ≡ length xs)
main_loop_step-acknowledged z modules sequence p_ack c fuel ts l sent_at now p q xs np some_free out
      room w nqp nq acks same small enough =
    let (sent, acked, sends, ingress, a, _) =
      hook_ingress-hook_send z modules sequence p_ack c ts l sent_at p q
        (l.packet q).ack_sequence_number xs np some_free out room w.running nqp acks same same in
    let t = ts.free_list in
    let seq = (l.packet p).sequence_number in
    let (ts', ys, runs, c') =
      check_timers_lem z fuel now acked.0 acked.1 xs small
        (subst (λ ds. length ds < fuel) (sym (Acknowledged-due acked ts l t seq now xs out a))
          enough)
        (Acknowledged-IsWaiting acked ts l t seq xs out w a) in
    (
      sent,
      (
        ts',
        record acked.1 {
          sent =
              acked.1.sent
              ++ all_resent z acked.1 (argument_in acked.0) (due (timeout_in acked.0.timer) now xs);
        },
      ),
      ys,
      sends,
      main_loop_step_at z modules sequence p_ack c fuel q now sent acked nq ingress ∙ runs,
      ap
            (λ ms.
              ms
              ++ all_resent z acked.1 (argument_in acked.0) (due (timeout_in acked.0.timer) now xs))
            a.same_sent
          ∙ ap (λ ms. l.sent ++ ms) (Acknowledged-resent z acked ts l t seq now xs out a),
      c'.waiting.running,
      c'.count,
    )
