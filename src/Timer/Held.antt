-- ===== src/Timer/Held.antt =====
-- The timers of nb_timer.c that the program holds, over any sequence of calls.
use net_blocks.Base.{
  ℕ, zero, suc, ◌+◌, ◌≤◌, ◌<◌, ◌≡◌, ◌≢◌, ◌⊎◌, refl, sym, ap, subst, ◌∙◌, inl, inr, true, false,
  List, [], ◌∷◌, length, arith, ◌==◌,
}
use net_blocks.Timer.{
  Ptr, null, TimerObj, Timers, update, max_timer_allocs, alloc_timer, return_timer, chain_free,
  set_next, init_timers,
}
use net_blocks.Timer.Segment.{NotIn}
use net_blocks.Timer.Unlink.{Has, erase}
use net_blocks.Timer.Free.{
  Chain, Apart, IsTable, Apart-cons, NotIn-Has, Apart-Has, NotIn-erased, Apart-erase,
  Distinct-erase, length-erase, Chain-frame,
}

-- A call: a timer is taken, a timer that the program holds is returned, or the program changes what it holds, as
-- insertion and removal do.
pub data Step : Timers → List Ptr → Timers → List Ptr → Type 0 where
  allocates :
      (ts ts' : Timers) (t : Ptr) (out : List Ptr)
      → alloc_timer ts ≡ (t, ts')
      → t ≢ null
      → Step ts out ts' (t ∷ out)
  returns :
      (ts : Timers) (t : Ptr) (out : List Ptr)
      → Has t out
      → Step ts out (return_timer ts t) (erase t out)
  changes :
      (ts ts' : Timers) (out : List Ptr)
      → ((q : Ptr) → NotIn q out → ts'.timer q ≡ ts.timer q)
      → ts'.free_list ≡ ts.free_list
      → Step ts out ts' out

pub data Reach (start : Timers) : Timers → List Ptr → Type 0 where
  starts : Reach start start []
  goes :
      (ts ts' : Timers) (out out' : List Ptr)
      → Reach start ts out
      → Step ts out ts' out'
      → Reach start ts' out'

alloc_timer-IsTable :
    (ts ts' : Timers) (t : Ptr) (out fs : List Ptr)
    → alloc_timer ts ≡ (t, ts')
    → t ≢ null
    → IsTable ts out fs
    → NotIn t out × (fs' : List Ptr) × IsTable ts' (t ∷ out) fs'
unfolding alloc_timer
alloc_timer-IsTable ts ts' t out [] e ne i =
    let none_free : (ts.free_list == null) ≡ true = ground (arith, i.chain) in
    absurd (ne (sym (ap (λ r. r.0) (rw none_free at e))))
alloc_timer-IsTable ts ts' t out (f ∷ fs) e ne i =
    let (at, nf, own, rest) = i.chain in
    let some_free : (ts.free_list == null) ≡ false = ground (arith, at, nf) in
    let taken = rw some_free at e in
    let same : f ≡ t = sym at ∙ ap (λ r. r.0) taken in
    let state : record ts { free_list = (ts.timer ts.free_list).next } ≡ ts' =
      ap (λ r. r.1) taken in
    (
      subst (λ c. NotIn c out) same i.apart.0,
      fs,
      subst (λ s. IsTable s (t ∷ out) fs) state
          record {
            chain = subst (λ (c : ℕ). Chain ts.timer (ts.timer c).next fs) (sym at) rest;
            apart = Apart-cons t fs out (subst (λ c. NotIn c fs) same own) i.apart.1;
            distinct = (subst (λ c. NotIn c out) same i.apart.0, i.distinct);
            some_out = ((λ z. ne (sym z)), i.some_out);
            count = omega (arith, i.count);
          },
    )

return_timer-IsTable :
    (ts : Timers) (t : Ptr) (out fs : List Ptr)
    → Has t out
    → IsTable ts out fs
    → IsTable (return_timer ts t) (erase t out) (t ∷ fs)
unfolding return_timer update
return_timer-IsTable ts t out fs h i =
    let free = Apart-Has t fs out i.apart h in
    let (d, gone) = Distinct-erase t out i.distinct in
    let ne : t ≢ null = λ z. NotIn-Has null t out i.some_out h (sym z) in
    let next : ((return_timer ts t).timer t).next ≡ ts.free_list = ground arith in
    record {
      chain = (
        refl,
        ne,
        free,
        subst (λ (q : Ptr). Chain (return_timer ts t).timer q fs) (sym next)
            (Chain-frame (return_timer ts t).timer ts.timer ts.free_list fs out i.apart
              (λ q n. kept q (λ same. NotIn-Has q t out n h same)) i.chain),
      );
      apart = (gone, Apart-erase t fs out i.apart);
      distinct = d;
      some_out = NotIn-erased t null out i.some_out;
      count = omega (arith, i.count, length-erase t out h);
    }
  where
    kept : (q : Ptr) → q ≢ t → (return_timer ts t).timer q ≡ ts.timer q
    kept q ne = ground arith

Step-IsTable :
    (ts ts' : Timers) (out out' fs : List Ptr)
    → Step ts out ts' out'
    → IsTable ts out fs
    → (fs' : List Ptr) × IsTable ts' out' fs'
Step-IsTable ts ts' out out' fs (Step.allocates _ _ t _ e ne) i =
    let (new, fs', i') = alloc_timer-IsTable ts ts' t out fs e ne i in (fs', i')
Step-IsTable ts ts' out out' fs (Step.returns _ t _ h) i =
    (t ∷ fs, return_timer-IsTable ts t out fs h i)
Step-IsTable ts ts' out out' fs (Step.changes _ _ _ same free) i = (
  fs,
  record {
    chain =
        subst (λ (q : Ptr). Chain ts'.timer q fs) (sym free)
          (Chain-frame ts'.timer ts.timer ts.free_list fs out i.apart same i.chain);
    apart = i.apart;
    distinct = i.distinct;
    some_out = i.some_out;
    count = i.count;
  },
)

-- The timers `i`, `i + 1` and so on.
from : ℕ → ℕ → List Ptr
from zero i = []
from (suc n) i = i ∷ from n (i + 1)

NotIn-from : (n i j : ℕ) → j < i → NotIn j (from n i)
unfolding from
NotIn-from zero i j lt = tt
NotIn-from (suc n) i j lt = ((λ e. omega arith), NotIn-from n (i + 1) j (omega arith))

length-from : (n i : ℕ) → length (from n i) ≡ n
unfolding from
length-from zero i = refl
length-from (suc n) i = ap suc (length-from n (i + 1))

chain_free-before :
    (left i : ℕ) (h : Ptr → TimerObj) (q : Ptr) → q ≤ i → chain_free left i h q ≡ h q
unfolding chain_free update
chain_free-before zero i h q le = refl
chain_free-before (suc left) i h q le =
    chain_free-before left (i + 1) _ q (omega arith) ∙ ground arith

-- The table that the loop of `nb__init_timers` leaves, from timer `i + 1` to the last.
init-Chain :
    (left i last : ℕ) (h : Ptr → TimerObj)
    → last ≡ i + left + 1
    → Chain (set_next (chain_free left i h) last null) (i + 1) (from (suc left) (i + 1))
unfolding from chain_free update
init-Chain zero i last h e = (refl, (λ z. omega arith), tt, ground arith)
init-Chain (suc left) i last h e =
    let h₁ = set_next h (i + 1) (i + 2) in
    let g = set_next (chain_free left (i + 1) h₁) last null in
    let next : (g (i + 1)).next ≡ i + 1 + 1 =
      ground (arith, ap (λ t. t.next) (chain_free-before left (i + 1) h₁ (i + 1) (omega arith))) in
    (
      refl,
      (λ z. omega arith),
      NotIn-from (suc left) (i + 1 + 1) (i + 1) (omega arith),
      subst (λ (q : ℕ). Chain g q (from (suc left) (i + 1 + 1))) (sym next)
          (init-Chain left (i + 1) last h₁ (omega arith)),
    )

Apart-nil : (fs : List Ptr) → Apart fs []
Apart-nil [] = tt
Apart-nil (f ∷ fs) = (tt, Apart-nil fs)

init_timers-IsTable : (ts : Timers) → IsTable (init_timers ts) [] (from max_timer_allocs 1)
unfolding init_timers
init_timers-IsTable ts = record {
  chain = init-Chain 1023 0 1024 ts.timer (omega arith);
  apart = Apart-nil (from max_timer_allocs 1);
  distinct = tt;
  some_out = tt;
  count = omega (arith, length-from max_timer_allocs 1);
}

Reach-IsTable :
    (start ts : Timers) (out : List Ptr)
    → Reach (init_timers start) ts out
    → (fs : List Ptr) × IsTable ts out fs
Reach-IsTable start ts out Reach.starts = (from max_timer_allocs 1, init_timers-IsTable start)
Reach-IsTable start ts out (Reach.goes ts' _ out' _ r s) =
    let (fs, i) = Reach-IsTable start ts' out' r in Step-IsTable ts' ts out' out fs s i

alloc_cases :
    (ts ts' : Timers) (t : Ptr) (out fs : List Ptr)
    → alloc_timer ts ≡ (t, ts')
    → IsTable ts out fs
    → ((t ≡ null) × (length out ≡ max_timer_allocs))
      ⊎ ((t ≢ null) × NotIn t out × (length out < max_timer_allocs))
alloc_cases ts ts' t out [] e i =
    let none_free : (ts.free_list == null) ≡ true = ground (arith, i.chain) in
    inl (unfold alloc_timer in sym (ap (λ r. r.0) (rw none_free at e)), omega (arith, i.count))
alloc_cases ts ts' t out (f ∷ fs) e i =
    let (at, nf, own, rest) = i.chain in
    let some_free : (ts.free_list == null) ≡ false = ground (arith, at, nf) in
    let same : f ≡ t = sym at ∙ (unfold alloc_timer in ap (λ r. r.0) (rw some_free at e)) in
    inr ((λ z. nf (same ∙ z)), subst (λ c. NotIn c out) same i.apart.0, omega (arith, i.count))

-- After `nb__init_timers` and any sequence of calls in which the program returns only timers that it holds and changes
-- no timer that it does not hold: it holds distinct timers, and the free list holds the others, so that together they are
-- always 1024. `nb__alloc_timer` never gives a timer that the program holds, and gives `NULL` only if it
-- holds all 1024.
pub alloc_timer-Reach :
    (start ts ts' : Timers) (out : List Ptr) (t : Ptr)
    → Reach (init_timers start) ts out
    → alloc_timer ts ≡ (t, ts')
    → ((t ≡ null) × (length out ≡ max_timer_allocs))
      ⊎ ((t ≢ null) × NotIn t out × (length out < max_timer_allocs))
alloc_timer-Reach start ts ts' out t r e =
    let (fs, i) = Reach-IsTable start ts out r in alloc_cases ts ts' t out fs e i
