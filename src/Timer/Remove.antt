-- ===== src/Timer/Remove.antt =====
-- `nb__remove_timer` of nb_timer.c takes a running timer out of the list.
use net_blocks.Base.{
  ◌-◌, ◌^◌, ◌≡◌, ◌≢◌, refl, sym, subst, ◌∙◌, ◌⊎◌, inl, inr, List, [], ◌∷◌, arith, ◌==◌,
  if◌then◌else◌, Bool-cases,
}
use net_blocks.Timer.{Ptr, null, TimerObj, Timers, update, remove_timer}
use net_blocks.Timer.Segment.{NotIn, Linked, IsRunning}
use net_blocks.Timer.Sorted.{SameData}
use net_blocks.Timer.Unlink.{
  erase, Has, remove_timer_at, next_apart, Has-later, rest_chain, middle_chain,
}

NotIn-null :
    (h : Ptr → TimerObj) (prev p : Ptr) (xs : List Ptr) → Linked h prev p xs → NotIn null xs
NotIn-null h prev p [] l = tt
NotIn-null h prev p (x ∷ xs) (here, nx, bx, dx, l) =
    (λ e. nx (sym e), NotIn-null h x (h x).next xs l)

-- A running timer and its neighbours are different.
record Apart (h : Ptr → TimerObj) (t : Ptr) : Type 0 where
  next_ne : (h t).next ≢ t
  prev_ne : (h t).prev ≢ t
  ends : ((h t).next ≢ (h t).prev) ⊎ ((h t).next ≡ null)

Linked-Apart :
    (h : Ptr → TimerObj) (t prev p : Ptr) (xs : List Ptr)
    → Linked h prev p xs
    → NotIn prev xs
    → Has t xs
    → Apart h t
Linked-Apart h t prev p [] l out m = elim m [ ]
Linked-Apart h t prev p (x ∷ xs) (here, nx, bx, dx, l) (px, out) (inl e) =
    subst (Apart h) e record {
      next_ne = elim (next_apart h x (h x).next x xs l dx) [
        | inl ne ↦ λ n. ne (sym n)
        | inr n ↦ λ m. nx (sym m ∙ n)
      ];
      prev_ne = λ n. px (sym bx ∙ n);
      ends = elim (next_apart h x (h x).next prev xs l out) [
        | inl ne ↦ inl (λ n. ne (sym bx ∙ sym n))
        | inr n ↦ inr n
      ];
    }
Linked-Apart h t prev p (x ∷ xs) (here, nx, bx, dx, l) (px, out) (inr m) =
    Linked-Apart h t x (h x).next xs l dx m

-- The outcome of `nb__remove_timer`.
pub record Removed (ts ts' : Timers) (t : Ptr) (xs : List Ptr) : Type 0 where
  pub running : IsRunning ts' (erase t xs)
  pub stopped : (ts'.timer t).timeout ≡ 2 ^ 64 - 1
  pub others : (q : Ptr) → q ≢ t → SameData (ts'.timer q) (ts.timer q)
  pub free : ts'.free_list ≡ ts.free_list

remove_timer_data :
    (ts : Timers) (t q : Ptr) → q ≢ t → SameData ((remove_timer ts t).timer q) (ts.timer q)
unfolding remove_timer update
remove_timer_data ts t q ne = ground arith

-- The callback and the argument of a timer that is removed stay.
pub remove_timer_own :
    (ts : Timers) (t : Ptr)
    → (((remove_timer ts t).timer t).callback ≡ (ts.timer t).callback)
      × (((remove_timer ts t).timer t).argument ≡ (ts.timer t).argument)
unfolding remove_timer update
remove_timer_own ts t = ground arith

remove_timer_head :
    (ts : Timers) (t : Ptr)
    → (ts.timer t).next ≢ t
    → (remove_timer ts t).head ≡ (if (ts.timer t).prev == null then (ts.timer t).next else ts.head)
unfolding remove_timer update
remove_timer_head ts t ne = ground arith

remove_timer_stopped : (ts : Timers) (t : Ptr) → ((remove_timer ts t).timer t).timeout ≡ 2 ^ 64 - 1
unfolding remove_timer update
remove_timer_stopped ts t = ground arith

remove_timer_free : (ts : Timers) (t : Ptr) → (remove_timer ts t).free_list ≡ ts.free_list
unfolding remove_timer
remove_timer_free ts t = refl

prev_some :
    (h : Ptr → TimerObj) (t prev p : Ptr) (xs : List Ptr)
    → prev ≢ null
    → Linked h prev p xs
    → Has t xs
    → (h t).prev ≢ null
prev_some h t prev p [] np l m = elim m [ ]
prev_some h t prev p (x ∷ xs) np (here, nx, bx, dx, l) (inl e) =
    subst (λ c. (h c).prev ≢ null) e (λ n. np (sym bx ∙ n))
prev_some h t prev p (x ∷ xs) np (here, nx, bx, dx, l) (inr m) =
    prev_some h t x (h x).next xs nx l m

remove_timer-IsRunning :
    (ts : Timers) (t : Ptr) (xs : List Ptr)
    → IsRunning ts xs
    → Has t xs
    → IsRunning (remove_timer ts t) (erase t xs)
unfolding erase
remove_timer-IsRunning ts t [] l m = elim m [ ]
remove_timer-IsRunning ts t (x ∷ xs) l m =
    let h = ts.timer in
    let apart = Linked-Apart h t null ts.head (x ∷ xs) l (NotIn-null h null ts.head (x ∷ xs) l) m in
    let at = remove_timer_at ts t apart.next_ne apart.prev_ne apart.ends in
    let head = remove_timer_head ts t apart.next_ne in
    let (here, nx, bx, dx, rest) = l in
    let g = (remove_timer ts t).timer in
    elim (Bool-cases (x == t)) [
      | inl e ↦
          let same : x ≡ t = ground (arith, e) in
          let back : (h t).prev ≡ null = subst (λ c. (h c).prev ≡ null) same bx in
          let first : (remove_timer ts t).head ≡ (h t).next = rw head (ground (arith, back)) in
          rw e (
            subst (λ p. Linked g null p xs) (sym first)
              (rest_chain h g t at null xs back (subst (λ c. NotIn c xs) same dx)
                (NotIn-null h x (h x).next xs rest)
                (subst (λ c. Linked h c (h c).next xs) same rest)))
      | inr e ↦
          let m' = Has-later t x xs e m in
          let some_prev = prev_some h t x (h x).next xs nx rest m' in
          let first : (remove_timer ts t).head ≡ ts.head = rw head (ground (arith, some_prev)) in
          rw e (
            subst (λ p. Linked g null p (x ∷ erase t xs)) (sym first)
              (middle_chain h g t at null ts.head x xs l m').0)
    ]

-- `nb__remove_timer` of a running timer leaves the other running timers in their order, on both the
-- `next` and the `prev` pointers. The timer's timeout becomes the largest number, and callback,
-- argument and timeout of every other timer stay.
pub remove_timer_lem :
    (ts : Timers) (t : Ptr) (xs : List Ptr)
    → IsRunning ts xs
    → Has t xs
    → Removed ts (remove_timer ts t) t xs
remove_timer_lem ts t xs l m = record {
  running = remove_timer-IsRunning ts t xs l m;
  stopped = remove_timer_stopped ts t;
  others = λ q ne. remove_timer_data ts t q ne;
  free = remove_timer_free ts t;
}
