-- ===== src/Reliable/Redeliver.antt =====
-- nb__check_timers of nb_timer.c with the callback of reliable_module.cpp: what is not acknowledged is
-- sent again.
use net_blocks.Base.{
  ℕ, zero, suc, ◌+◌, ◌^◌, ◌≤◌, ◌<◌, ◌≡◌, ◌≢◌, refl, sym, ap, subst, ◌∙◌, inl, inr, Option, none,
  some, List, [], ◌∷◌, ◌++◌, map, arith, leb, ◌==◌, Bool-cases, length, true, false,
}
use mathlib.Core.List.{append-nil, append_assoc}
use net_blocks.Timer.{Ptr, null, Timers, max_timer_allocs, insert_timer, remove_timer, check_timers}
use net_blocks.Timer.Segment.{NotIn, IsRunning}
use net_blocks.Timer.Sorted.{
  insert_sorted, insert_sorted-IsSorted, IsSorted, NotBefore, NotBefore-weaken, timeout_in,
}
use net_blocks.Timer.Unlink.{Has, erase}
use net_blocks.Timer.Insert.{Inserted, insert_timer_lem}
use net_blocks.Timer.Remove.{Removed, remove_timer_lem, remove_timer_own}
use net_blocks.Timer.Due.{
  due, SameOn, SameOn-except, SameOn-trans, SameOn-insert_sorted, insert_sorted_cong, due_cong,
  IsSorted-cong, map-due_cong, due-insert_sorted, length-insert_sorted, Has-insert_sorted,
}
use net_blocks.Reliable.{
  Link, Sizes, callbacks, redelivery_cb, redelivery_timer_callback, deadline, resend,
}

abbrev pub argument_in : Timers → Ptr → ℕ
argument_in ts p = (ts.timer p).argument

abbrev pub callback_in : Timers → Ptr → ℕ
callback_in ts p = (ts.timer p).callback

-- The list `xs` of running timers is in order, and all of them are for redelivery.
pub record IsWaiting (ts : Timers) (xs : List Ptr) : Type 0 where
  pub running : IsRunning ts xs
  pub sorted : IsSorted (timeout_in ts.timer) xs
  pub redelivers : SameOn (callback_in ts) (λ p. redelivery_timer_callback) xs
  pub room : length xs ≤ max_timer_allocs

-- What is sent for a packet, and for the packets of timers.
abbrev pub resent : Sizes → Link → ℕ → ℕ × ℕ
resent z l p = (p + z.headroom, (l.packet p).computed_total_len)

abbrev pub all_resent : Sizes → Link → (Ptr → ℕ) → List Ptr → List (ℕ × ℕ)
all_resent z l argument ts = map (λ t. resent z l (argument t)) ts

-- The first timer has fired, and waits behind the others.
record Fired (ts ts' : Timers) (now x : ℕ) (xs ys : List Ptr) : Type 0 where
  waiting : IsWaiting ts' ys
  due_same : due (timeout_in ts'.timer) now ys ≡ due (timeout_in ts.timer) now xs
  arguments : SameOn (argument_in ts') (argument_in ts) xs
  keeps : (p : Ptr) → Has p (x ∷ xs) → Has p ys
  count : length ys ≡ suc (length xs)
  free : ts'.free_list ≡ ts.free_list

erase_first : (x : Ptr) (xs : List Ptr) → erase x (x ∷ xs) ≡ xs
unfolding erase
erase_first x xs = ground arith

Fired-insert :
    (ts ts₁ ts' : Timers) (now x to argument : ℕ) (xs : List Ptr)
    → now < to
    → IsWaiting ts (x ∷ xs)
    → Removed ts ts₁ x (x ∷ xs)
    → Inserted ts₁ ts' x to redelivery_timer_callback argument xs
    → Fired ts ts' now x xs (insert_sorted (timeout_in ts'.timer) to x xs)
Fired-insert ts ts₁ ts' now x to argument xs later w r i =
    let out : NotIn x xs = w.running.3 in
    let same : (f : Ptr → ℕ) (g : Ptr → ℕ) → ((q : Ptr) → q ≢ x → f q ≡ g q) → SameOn f g xs =
      λ f g h. SameOn-except f g x xs out h in
    let timeouts : SameOn (timeout_in ts'.timer) (timeout_in ts.timer) xs =
      same _ _ (λ q ne. (i.others q ne).2 ∙ (r.others q ne).2) in
    let step : SameOn (timeout_in ts'.timer) (timeout_in ts₁.timer) xs =
      same _ _ (λ q ne. (i.others q ne).2) in
    record {
      waiting = record {
        running = subst (IsRunning ts') (sym (insert_sorted_cong _ _ to x xs step)) i.running;
        sorted = insert_sorted-IsSorted (timeout_in ts'.timer) to x xs (sym i.own.2) (
            IsSorted-cong (timeout_in ts.timer) (timeout_in ts'.timer) xs
              (same _ _ (λ q ne. sym (r.others q ne).2 ∙ sym (i.others q ne).2)) w.sorted.1);
        redelivers = SameOn-insert_sorted _ _ (timeout_in ts'.timer) to x xs i.own.0 (
            SameOn-trans _ _ _ xs (same _ _ (λ q ne. (i.others q ne).0 ∙ (r.others q ne).0))
              w.redelivers.1);
        room = omega (arith, length-insert_sorted (timeout_in ts'.timer) to x xs, w.room);
      };
      due_same =
          due-insert_sorted (timeout_in ts'.timer) now to x xs later (sym i.own.2)
          ∙ due_cong _ _ now xs timeouts;
      arguments = same _ _ (λ q ne. (i.others q ne).1 ∙ (r.others q ne).1);
      keeps = λ p h. Has-insert_sorted (timeout_in ts'.timer) to x p xs h;
      count = length-insert_sorted (timeout_in ts'.timer) to x xs;
      free = i.free ∙ r.free;
    }

-- The callback, once its pointer and argument are known.
callbacks_redeliver :
    (z : Sizes) (l : Link) (ts ts' : Timers) (x now callback p p' : ℕ)
    → callback ≡ redelivery_timer_callback
    → p' ≡ p
    → insert_timer ts x (deadline now) redelivery_timer_callback p ≡ some ts'
    → callbacks z callback x p' now (ts, l) ≡ some (ts', resend z l p)
unfolding callbacks redelivery_cb
callbacks_redeliver z l ts ts' x now callback p p' is same runs =
    rw (is, same)
      (ap (λ (o : Option Timers). elim o [ none ↦ none | some ts'' ↦ some (ts'', resend z l p) ])
        runs)

fire_first :
    (z : Sizes) (l : Link) (ts : Timers) (now x : ℕ) (xs : List Ptr)
    → now + 50 < 2 ^ 64
    → IsWaiting ts (x ∷ xs)
    → (ts' : Timers) × (ys : List Ptr) × (callbacks z
          ((remove_timer ts x).timer x).callback
          x
          ((remove_timer ts x).timer x).argument
          now
          (remove_timer ts x, l)
        ≡ some (ts', resend z l (argument_in ts x)))
      × Fired ts ts' now x xs ys
fire_first z l ts now x xs small w =
    let removed = remove_timer_lem ts x (x ∷ xs) w.running (inl refl) in
    let own = remove_timer_own ts x in
    let (ts', runs, i) =
      insert_timer_lem (remove_timer ts x) x (deadline now) redelivery_timer_callback
        (argument_in ts x) xs w.running.1 w.running.3 (omega (arith, w.room))
        (subst (IsRunning (remove_timer ts x)) (erase_first x xs) removed.running) in
    (
      ts',
      insert_sorted (timeout_in ts'.timer) (deadline now) x xs,
      callbacks_redeliver z l (remove_timer ts x) ts' x now _ (argument_in ts x) _
          (own.0 ∙ w.redelivers.0) own.1 runs,
      Fired-insert ts (remove_timer ts x) ts' now x (deadline now) (argument_in ts x) xs
          (omega arith) w removed i,
    )

-- What the check leaves: all timers run that ran, and fire later.
pub record Checked (ts ts' : Timers) (now : ℕ) (xs ys : List Ptr) : Type 0 where
  pub waiting : IsWaiting ts' ys
  pub later : NotBefore (timeout_in ts'.timer) (suc now) ys
  pub keeps : (p : Ptr) → Has p xs → Has p ys
  pub count : length ys ≡ length xs
  pub free : ts'.free_list ≡ ts.free_list

check_stops :
    (z : Sizes) (fuel now : ℕ) (ts : Timers) (l : Link) (xs : List Ptr)
    → IsWaiting ts xs
    → due (timeout_in ts.timer) now xs ≡ []
    → (check_timers (callbacks z) (suc fuel) now (ts, l) ≡ some (ts, l))
      × NotBefore (timeout_in ts.timer) (suc now) xs
unfolding check_timers due
check_stops z fuel now ts l [] w none_due = (rw w.running refl, tt)
check_stops z fuel now ts l (x ∷ xs) w none_due = elim (Bool-cases (leb (ts.timer x).timeout now)) [
  | inl e ↦ absurd (let bad = rw e at none_due in cc bad)
  | inr e ↦ (
    rw (w.running.0, e)
        (let some_first : (x == null) ≡ false = ground (arith, w.running.1) in rw some_first refl),
    (
      ground (arith, e),
      NotBefore-weaken (timeout_in ts.timer) (suc now) (ts.timer x).timeout xs (ground (arith, e))
          w.sorted.0,
    ),
  )
]

-- The callback of the first timer gives this state.
abbrev Calls : Sizes → ℕ → Timers → Link → Timers → Link → ℕ → Type 0
Calls z now ts l ts' l' x =
    callbacks z ((remove_timer ts x).timer x).callback x ((remove_timer ts x).timer x).argument now
      (remove_timer ts x, l)
    ≡ some (ts', l')

check_steps_at :
    (z : Sizes) (fuel now : ℕ) (ts ts' : Timers) (l l' : Link)
    → ts.head ≢ null
    → leb (ts.timer ts.head).timeout now ≡ true
    → Calls z now ts l ts' l' ts.head
    → check_timers (callbacks z) (suc fuel) now (ts, l)
      ≡ check_timers (callbacks z) fuel now (ts', l')
unfolding check_timers
check_steps_at z fuel now ts ts' l l' some_first is_due calls =
    let first : (ts.head == null) ≡ false = ground (arith, some_first) in
    rw (first, is_due)
      (ap
        (λ (o : Option (Timers × Link)). elim o as (λ _. Option (Timers × Link)) [
          | none ↦ none
          | some state ↦ check_timers (callbacks z) fuel now state
        ])
        calls)

check_steps :
    (z : Sizes) (fuel now x : ℕ) (ts ts' : Timers) (l l' : Link)
    → ts.head ≡ x
    → x ≢ null
    → leb (ts.timer x).timeout now ≡ true
    → Calls z now ts l ts' l' x
    → check_timers (callbacks z) (suc fuel) now (ts, l)
      ≡ check_timers (callbacks z) fuel now (ts', l')
check_steps z fuel now x ts ts' l l' head some_first is_due calls =
    check_steps_at z fuel now ts ts' l l' (subst (λ (p : ℕ). p ≢ null) (sym head) some_first)
      (subst (λ (p : ℕ). leb (ts.timer p).timeout now ≡ true) (sym head) is_due)
      (subst (Calls z now ts l ts' l') (sym head) calls)

-- What is sent for the timers that are due, once the first has fired.
sent_then :
    (z : Sizes) (l : Link) (ts ts₁ : Timers) (now x : ℕ) (xs ys : List Ptr)
    → leb (ts.timer x).timeout now ≡ true
    → Fired ts ts₁ now x xs ys
    → (l.sent ++ resent z l (argument_in ts x) ∷ [])
        ++ all_resent z l (argument_in ts₁) (due (timeout_in ts₁.timer) now ys)
      ≡ l.sent ++ all_resent z l (argument_in ts) (due (timeout_in ts.timer) now (x ∷ xs))
unfolding due
sent_then z l ts ts₁ now x xs ys is_due f =
    append_assoc l.sent (resent z l (argument_in ts x) ∷ []) _
    ∙ ap (λ more. l.sent ++ resent z l (argument_in ts x) ∷ more)
        (ap (all_resent z l (argument_in ts₁)) f.due_same
          ∙ map-due_cong (resent z l) (argument_in ts₁) (argument_in ts) (timeout_in ts.timer) now
              xs f.arguments)
    ∙ rw is_due refl

check_ends :
    (z : Sizes) (fuel now : ℕ) (ts : Timers) (l : Link) (xs : List Ptr)
    → IsWaiting ts xs
    → due (timeout_in ts.timer) now xs ≡ []
    → (ts' : Timers) × (ys : List Ptr) × (check_timers (callbacks z) (suc fuel) now (ts, l)
        ≡ some (
          ts',
          record l {
            sent = l.sent ++ all_resent z l (argument_in ts) (due (timeout_in ts.timer) now xs);
          },
        ))
      × Checked ts ts' now xs ys
check_ends z fuel now ts l xs w none_due =
    let (stops, later) = check_stops z fuel now ts l xs w none_due in
    (
      ts,
      xs,
      stops
          ∙ ap (λ s. some (ts, record l { sent = s }))
              (sym (
                ap (λ d. l.sent ++ all_resent z l (argument_in ts) d) none_due
                ∙ append-nil l.sent)),
      record { waiting = w; later = later; keeps = λ p h. h; count = refl; free = refl },
    )

-- A check at a time that leaves 50 ms below 2 ^ 64, while all running timers are for redelivery and are
-- in order, and the fuel is more than the number that is due: it returns. It sends the packet of each timer
-- that is due exactly once, in the order of the list, and changes nothing else of the connection. Every timer
-- that ran still runs, in order, to fire later than now.
pub check_timers_lem :
    (z : Sizes) (fuel now : ℕ) (ts : Timers) (l : Link) (xs : List Ptr)
    → now + 50 < 2 ^ 64
    → length (due (timeout_in ts.timer) now xs) < fuel
    → IsWaiting ts xs
    → (ts' : Timers) × (ys : List Ptr) × (check_timers (callbacks z) fuel now (ts, l)
        ≡ some (
          ts',
          record l {
            sent = l.sent ++ all_resent z l (argument_in ts) (due (timeout_in ts.timer) now xs);
          },
        ))
      × Checked ts ts' now xs ys
check_timers_lem z zero now ts l xs small enough w = absurd (omega arith)
check_timers_lem z (suc fuel) now ts l [] small enough w =
    check_ends z fuel now ts l [] w (unfold due in refl)
check_timers_lem z (suc fuel) now ts l (x ∷ xs) small enough w =
    elim (Bool-cases (leb (ts.timer x).timeout now)) [
      | inl e ↦
          let (ts₁, zs, calls, f) = fire_first z l ts now x xs small w in
          let enough' : length (due (timeout_in ts₁.timer) now zs) < fuel =
            rw f.due_same (unfold due in (let h = rw e at enough in omega arith)) in
          let (ts', ys, runs, c) =
            check_timers_lem z fuel now ts₁ (resend z l (argument_in ts x)) zs small enough'
              f.waiting in
          (
            ts',
            ys,
            check_steps z fuel now x ts ts₁ l (resend z l (argument_in ts x)) w.running.0
                  w.running.1 e calls
                ∙ runs
                ∙ ap (λ s. some (ts', record l { sent = s }))
                    (sent_then z l ts ts₁ now x xs zs e f),
            record {
              waiting = c.waiting;
              later = c.later;
              keeps = λ p h. c.keeps p (f.keeps p h);
              count = c.count ∙ f.count;
              free = c.free ∙ f.free;
            },
          )
      | inr e ↦ check_ends z fuel now ts l (x ∷ xs) w (unfold due in (rw e refl))
    ]
