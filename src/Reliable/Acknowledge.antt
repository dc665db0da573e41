-- ===== src/Reliable/Acknowledge.antt =====
-- What an acknowledgement does to the timers of reliable_module.cpp.
use net_blocks.Base.{
  ℕ, ◌%◌, ◌<◌, ◌≡◌, ◌≢◌, refl, ap, subst, ◌∙◌, inl, inr, Option, none, some, List, [], ◌∷◌, arith,
  ltb, ◌==◌, if◌then◌else◌, Bool-cases, length, false,
}
use net_blocks.Queue.{put}
use net_blocks.Framework.{Module, HookStatus, hook_continue, hook_drop}
use net_blocks.Timer.{
  Ptr, null, Timers, max_timer_allocs, update, alloc_timer, insert_timer, remove_timer,
  return_timer,
}
use net_blocks.Timer.Segment.{NotIn, IsRunning, Linked-frame, Same-except}
use net_blocks.Timer.Sorted.{insert_sorted, timeout_in, SameData}
use net_blocks.Timer.Unlink.{erase}
use net_blocks.Timer.Insert.{insert_timer_lem}
use net_blocks.Timer.Remove.{remove_timer_lem}
use net_blocks.Timer.Due.{Has-insert_sorted}
use net_blocks.Reliable.{
  Link, Sizes, State, redelivery_buffer_size, redelivery_timer_callback, deadline, update_packet,
  keep_packet, hook_send, acknowledge, hook_ingress,
}

erase-insert_sorted :
    (timeout : Ptr → ℕ) (to : ℕ) (t : Ptr) (xs : List Ptr)
    → NotIn t xs
    → erase t (insert_sorted timeout to t xs) ≡ xs
unfolding erase insert_sorted
erase-insert_sorted timeout to t [] out = ground arith
erase-insert_sorted timeout to t (x ∷ xs) (ne, out) = elim (Bool-cases (ltb to (timeout x))) [
  | inl e ↦ rw e (ground arith)
  | inr e ↦ rw e (
      let other : (x == t) ≡ false = ground (arith, ne) in
      rw other (ap (λ ys. x ∷ ys) (erase-insert_sorted timeout to t xs out)))
]

return_timer-IsRunning :
    (ts : Timers) (t : Ptr) (xs : List Ptr)
    → NotIn t xs
    → IsRunning ts xs
    → IsRunning (return_timer ts t) xs
unfolding return_timer update
return_timer-IsRunning ts t xs out l =
    Linked-frame ts.timer (return_timer ts t).timer null ts.head xs
      (Same-except (return_timer ts t).timer ts.timer t t t xs (λ q ne _ _. ground arith) out out
        out)
      l

return_timer-free_list : (ts : Timers) (t : Ptr) → (return_timer ts t).free_list ≡ t
unfolding return_timer
return_timer-free_list ts t = refl

return_timer-others :
    (ts : Timers) (t q : Ptr) → q ≢ t → SameData ((return_timer ts t).timer q) (ts.timer q)
unfolding return_timer update
return_timer-others ts t q ne = ground arith

keep_packet_len :
    (l : Link) (p t q : ℕ)
    → ((keep_packet l p t).packet q).computed_total_len ≡ (l.packet q).computed_total_len
unfolding keep_packet update_packet
keep_packet_len l p t q = ground arith

keep_packet_sent : (l : Link) (p t : ℕ) → (keep_packet l p t).sent ≡ l.sent
unfolding keep_packet
keep_packet_sent l p t = refl

-- A state in which a packet waits in its slot and its timer runs among the timers `xs`.
record IsKept (ts : Timers) (l : Link) (p t seq : ℕ) (xs : List Ptr) : Type 0 where
  slot : l.redelivery_buffer (seq % redelivery_buffer_size) ≡ p
  timer : (l.packet p).redelivery_timer ≡ t
  to : ℕ
  timeout : Ptr → ℕ
  running : IsRunning ts (insert_sorted timeout to t xs)

-- What the acknowledgement leaves.
pub record Acknowledged (state : State) (ts : Timers) (l : Link) (t seq : ℕ) (xs : List Ptr)
    : Type 0 where
  pub running : IsRunning state.0 xs
  pub free : state.0.free_list ≡ t
  pub slot : state.1.redelivery_buffer (seq % redelivery_buffer_size) ≡ 0
  pub same_packets :
      (q : ℕ) → (state.1.packet q).computed_total_len ≡ (l.packet q).computed_total_len
  pub same_sent : state.1.sent ≡ l.sent
  pub others : (q : Ptr) → q ≢ t → SameData (state.0.timer q) (ts.timer q)

acknowledge-IsKept :
    (ts : Timers) (l : Link) (p t seq ack_seq : ℕ) (xs : List Ptr)
    → p ≢ 0
    → NotIn t xs
    → ack_seq % redelivery_buffer_size ≡ seq % redelivery_buffer_size
    → IsKept ts l p t seq xs
    → Acknowledged (acknowledge (ts, l) ack_seq) ts l t seq xs
unfolding acknowledge put
acknowledge-IsKept ts l p t seq ack_seq xs np out same k =
    let waits : (p == 0) ≡ false = ground (arith, np) in
    let removed =
      remove_timer_lem ts t (insert_sorted k.timeout k.to t xs) k.running
        (Has-insert_sorted k.timeout k.to t t xs (inl refl)) in
    rw (same, k.slot, waits, k.timer)
      record {
        running = return_timer-IsRunning (remove_timer ts t) t xs out (
            subst (IsRunning (remove_timer ts t)) (erase-insert_sorted k.timeout k.to t xs out)
              removed.running);
        free = return_timer-free_list (remove_timer ts t) t;
        slot = ground arith;
        same_packets = λ q. refl;
        same_sent = refl;
        others = λ q ne. (
          (return_timer-others (remove_timer ts t) t q ne).0 ∙ (removed.others q ne).0,
          (return_timer-others (remove_timer ts t) t q ne).1 ∙ (removed.others q ne).1,
          (return_timer-others (remove_timer ts t) t q ne).2 ∙ (removed.others q ne).2,
        );
      }

-- A slot that is empty makes an acknowledgement do nothing.
acknowledge-empty :
    (state : State) (ack_seq : ℕ)
    → state.1.redelivery_buffer (ack_seq % redelivery_buffer_size) ≡ 0
    → acknowledge state ack_seq ≡ state
unfolding acknowledge
acknowledge-empty (ts, l) ack_seq slot = rw slot refl

keep_packet-IsKept :
    (ts : Timers) (l : Link) (p t to : ℕ) (timeout : Ptr → ℕ) (xs : List Ptr)
    → IsRunning ts (insert_sorted timeout to t xs)
    → IsKept ts (keep_packet l p t) p t (l.packet p).sequence_number xs
unfolding keep_packet put update_packet
keep_packet-IsKept ts l p t to timeout xs run = record {
  slot = ground arith;
  timer = ground arith;
  to = to;
  timeout = timeout;
  running = run;
}

alloc_timer_some :
    (ts : Timers)
    → ts.free_list ≢ null
    → alloc_timer ts ≡ (ts.free_list, record ts { free_list = (ts.timer ts.free_list).next })
unfolding alloc_timer
alloc_timer_some ts some_free =
    let free : (ts.free_list == null) ≡ false = ground (arith, some_free) in rw free refl

hook_ingress-acknowledge :
    (z : Sizes) (modules : List (Module State)) (sequence p_ack c : ℕ) (state : State) (q n : ℕ)
    → (state.1.packet q).ack_sequence_number ≡ n
    → n ≢ 0
    → hook_ingress z modules sequence p_ack c state q ≡ (acknowledge state n, hook_drop)
unfolding hook_ingress
hook_ingress-acknowledge z modules sequence p_ack c (ts, l) q n is acks =
    let nonzero : (n == 0) ≡ false = ground (arith, acks) in rw (is, nonzero) refl

keep_packet_other :
    (l : Link) (p t q : ℕ)
    → q ≢ p
    → ((keep_packet l p t).packet q).ack_sequence_number ≡ (l.packet q).ack_sequence_number
unfolding keep_packet update_packet
keep_packet_other l p t q ne = ground arith

hook_send_at :
    (ts running : Timers) (l : Link) (now p : ℕ)
    → ts.free_list ≢ null
    → insert_timer
        (record ts { free_list = (ts.timer ts.free_list).next })
        ts.free_list
        (deadline now)
        redelivery_timer_callback
        p
      ≡ some running
    → hook_send (ts, l) now p ≡ some ((running, keep_packet l p ts.free_list), hook_continue)
unfolding hook_send
hook_send_at ts running l now p some_free runs =
    let free : (ts.free_list == null) ≡ false = ground (arith, some_free) in
    ap
      (λ (a : Ptr × Timers).
        if a.0 == null
        then none
        else elim (insert_timer a.1 a.0 (deadline now) redelivery_timer_callback p)
            as (λ _. Option (State × HookStatus)) [
              | none ↦ none
              | some running' ↦ some ((running', keep_packet l p a.0), hook_continue)
            ])
      (alloc_timer_some ts some_free)
    ∙ rw free (
        ap
          (λ (o : Option Timers). elim o as (λ _. Option (State × HookStatus)) [
            | none ↦ none
            | some running' ↦ some ((running', keep_packet l p ts.free_list), hook_continue)
          ])
          runs)

-- While a timer is free that does not run, and fewer than 1024 run: sending a packet starts
-- the free timer and goes on. Then any acknowledgement whose number is that of the packet modulo 32, also
-- one of another packet, is dropped after it has stopped and returned this timer: the timers that run are those that ran before. The
-- slot is empty, so of the further acknowledgements with such a number none stops anything, and the timer of a packet that was in the
-- slot before goes on.
pub hook_ingress-hook_send :
    (z : Sizes) (modules : List (Module State)) (sequence p_ack c : ℕ)
    → (ts : Timers) (l : Link) (now p q again : ℕ) (xs : List Ptr) → p ≢ 0
    → ts.free_list ≢ null
    → NotIn ts.free_list xs
    → length xs < max_timer_allocs
    → IsRunning ts xs
    → q ≢ p
    → (l.packet q).ack_sequence_number ≢ 0
    → (l.packet q).ack_sequence_number % redelivery_buffer_size
      ≡ (l.packet p).sequence_number % redelivery_buffer_size
    → again % redelivery_buffer_size ≡ (l.packet p).sequence_number % redelivery_buffer_size
    → (sent acked : State) × (hook_send (ts, l) now p ≡ some (sent, hook_continue))
      × (hook_ingress z modules sequence p_ack c sent q ≡ (acked, hook_drop))
      × Acknowledged acked ts l ts.free_list (l.packet p).sequence_number xs
      × (acknowledge acked again ≡ acked)
hook_ingress-hook_send z modules sequence p_ack c ts l now p q again xs np some_free out room run ne
      acks same same' =
    let t = ts.free_list in
    let (running, runs, i) =
      insert_timer_lem (record ts { free_list = (ts.timer ts.free_list).next }) t (deadline now)
        redelivery_timer_callback p xs some_free out (omega arith) run in
    let acked =
      acknowledge-IsKept running (keep_packet l p t) p t (l.packet p).sequence_number
        (l.packet q).ack_sequence_number xs np out same
        (keep_packet-IsKept running l p t (deadline now) (timeout_in ts.timer) xs i.running) in
    (
      (running, keep_packet l p t),
      acknowledge (running, keep_packet l p t) (l.packet q).ack_sequence_number,
      hook_send_at ts running l now p some_free runs,
      hook_ingress-acknowledge z modules sequence p_ack c (running, keep_packet l p t) q _
          (keep_packet_other l p t q ne) acks,
      record {
        running = acked.running;
        free = acked.free;
        slot = acked.slot;
        same_packets = λ r. acked.same_packets r ∙ keep_packet_len l p t r;
        same_sent = acked.same_sent ∙ keep_packet_sent l p t;
        others = λ r ner. (
          (acked.others r ner).0 ∙ (i.others r ner).0,
          (acked.others r ner).1 ∙ (i.others r ner).1,
          (acked.others r ner).2 ∙ (i.others r ner).2,
        );
      },
      acknowledge-empty _ again (rw same' acked.slot),
    )
