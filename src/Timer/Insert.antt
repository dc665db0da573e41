-- ===== src/Timer/Insert.antt =====
-- `nb__insert_timer` of nb_timer.c: sorted insertion, stable for equal timeouts.
use net_blocks.Base.{
  ℕ, ◌+◌, ◌≤◌, ◌≡◌, ◌≢◌, refl, sym, subst, ◌∙◌, false, Option, none, some, List, [], ◌∷◌, arith,
  ◌==◌, length, if◌then◌else◌,
}
use net_blocks.Timer.{
  Ptr, null, max_timer_allocs, TimerObj, Timers, update, link_behind, link_first, insert_timer,
}
use net_blocks.Timer.Segment.{NotIn, Linked, IsRunning, Same, Linked-frame, Same-except}
use net_blocks.Timer.Sorted.{insert_sorted, timeout_in, insert_sorted_ext, SameData}
use net_blocks.Timer.Place.{first, behind, Found, find_place-Found, link_behind-SameData}

-- The outcome of `nb__insert_timer`.
pub record Inserted (ts ts' : Timers) (t to cb argument : ℕ) (xs : List Ptr) : Type 0 where
  pub running : IsRunning ts' (insert_sorted (λ p. (ts.timer p).timeout) to t xs)
  pub own :
      SameData
        (ts'.timer t)
        (record { callback = cb; argument = argument; next = null; prev = null; timeout = to })
  pub others : (q : Ptr) → q ≢ t → SameData (ts'.timer q) (ts.timer q)
  pub free : ts'.free_list ≡ ts.free_list

-- Where the timer comes first.
link_first_lem :
    (h : Ptr → TimerObj) (t curr : Ptr) (xs : List Ptr)
    → t ≢ null
    → (h t).prev ≡ null
    → NotIn t xs
    → Linked h null curr xs
    → Linked (link_first h t curr) null t (t ∷ xs)
unfolding link_first update
link_first_lem h t curr [] nt pt out l = (refl, nt, ground arith, tt, ground arith)
link_first_lem h t curr (x ∷ xs) nt pt (ox, out) (here, nx, bx, dx, l) =
    let g = link_first h t curr in
    let gt : (g t).next ≡ x = ground arith in
    let gx : (g x).prev ≡ t = ground arith in
    let fx : (g x).next ≡ (h x).next = ground arith in
    (
      refl,
      nt,
      ground arith,
      (ox, out),
      (
        gt,
        nx,
        gx,
        dx,
        subst (λ (q : Ptr). Linked g x q xs) (sym fx)
            (Linked-frame h g x (h x).next xs
              (Same-except g h t x x xs (λ q nt nx ny. ground arith) out dx dx) l),
      ),
    )

link_first-SameData : (h : Ptr → TimerObj) (t curr q : Ptr) → SameData (link_first h t curr q) (h q)
unfolding link_first update
link_first-SameData h t curr q = ground arith

-- `nb__insert_timer` of a timer that is not running and not `NULL`, while at most 1024 timers run,
-- returns, and puts it into the list of running timers in front of the first that fires later, at the
-- end if there is none. It sets the timer's callback, argument and timeout and changes those
-- of no other timer.
pub insert_timer_lem :
    (ts : Timers) (t to cb argument : ℕ) (xs : List Ptr)
    → t ≢ null
    → NotIn t xs
    → length xs ≤ max_timer_allocs
    → IsRunning ts xs
    → (ts' : Timers) × (insert_timer ts t to cb argument ≡ some ts')
      × Inserted ts ts' t to cb argument xs
unfolding insert_timer
insert_timer_lem ts t to cb argument xs nt out room l =
    finish _ (find_place-Found (max_timer_allocs + 1) h t to ts.head xs nt (omega arith) out linked)
  where
    fresh : TimerObj
    fresh = record { callback = cb; argument = argument; next = null; prev = null; timeout = to }

    h : Ptr → TimerObj
    h = update ts.timer t fresh

    same : Same h ts.timer xs
    same = Same-except h ts.timer t t t xs (λ q ne _ _. unfold update in ground arith) out out out

    linked : Linked h null ts.head xs
    linked = Linked-frame ts.timer h null ts.head xs same l

    spec : insert_sorted (timeout_in h) to t xs ≡ insert_sorted (λ p. (ts.timer p).timeout) to t xs
    spec = insert_sorted_ext h ts.timer to t xs same

    own : (g : Ptr → TimerObj) → SameData (g t) (h t) → SameData (g t) fresh
    own g d = unfold update in ground arith

    others :
        (g : Ptr → TimerObj) (q : Ptr) → q ≢ t → SameData (g q) (h q) → SameData (g q) (ts.timer q)
    others g q ne d = unfold update in ground arith

    finish :
        (r : Option (Ptr × Ptr))
        → Found h t ts.head (insert_sorted (timeout_in h) to t xs) xs r
        → (ts' : Timers) × ((elim r [
          | none ↦ none
          | some (prev, curr) ↦ some (
              if prev == null
              then record ts { timer = link_first h t curr; head = t }
              else record ts { timer = link_behind h t prev curr })
        ])
            ≡ some ts')
          × Inserted ts ts' t to cb argument xs
    finish r (first e) = (
      record ts { timer = link_first h t ts.head; head = t },
      refl,
      record {
        running =
            subst (Linked (link_first h t ts.head) null t) (sym e ∙ spec)
              (link_first_lem h t ts.head xs nt (unfold update in ground arith) out linked);
        own = own (link_first h t ts.head) (link_first-SameData h t ts.head t);
        others = λ q ne. others (link_first h t ts.head) q ne (link_first-SameData h t ts.head q);
        free = refl;
      },
    )
    finish r (behind p c np chain) =
        let later : (p == null) ≡ false = ground arith in
        (
          record ts { timer = link_behind h t p c },
          rw later,
          record {
            running = subst (Linked (link_behind h t p c) null ts.head) spec chain;
            own = own (link_behind h t p c) (link_behind-SameData h t p c t);
            others = λ q ne. others (link_behind h t p c) q ne (link_behind-SameData h t p c q);
            free = refl;
          },
        )
