-- ===== src/Timer/Free.antt =====
-- The free list of nb_timer.c, and the timers that the program holds, as lists of distinct timers.
use net_blocks.Base.{
  suc, ◌+◌, ◌≡◌, ◌≢◌, refl, sym, ap, subst, ◌∙◌, inl, inr, List, [], ◌∷◌, length, arith, ◌==◌,
  Bool-cases,
}
use net_blocks.Timer.{Ptr, null, TimerObj, Timers, max_timer_allocs}
use net_blocks.Timer.Segment.{NotIn}
use net_blocks.Timer.Unlink.{Has, erase}

-- From `p`, the `next` pointers lead through the distinct timers `fs` to `NULL`.
abbrev pub Chain : (Ptr → TimerObj) → Ptr → List Ptr → Type 0
Chain h p [] = p ≡ null
Chain h p (f ∷ fs) = (p ≡ f) × (f ≢ null) × NotIn f fs × Chain h (h f).next fs

abbrev pub Apart : List Ptr → List Ptr → Type 0
Apart [] out = Unit {0}
Apart (f ∷ fs) out = NotIn f out × Apart fs out

abbrev pub Distinct : List Ptr → Type 0
Distinct [] = Unit {0}
Distinct (x ∷ xs) = NotIn x xs × Distinct xs

-- The free list holds `fs`; the program holds the other timers, `out`.
pub record IsTable (ts : Timers) (out fs : List Ptr) : Type 0 where
  pub chain : Chain ts.timer ts.free_list fs
  pub apart : Apart fs out
  pub distinct : Distinct out
  pub some_out : NotIn null out
  pub count : length fs + length out ≡ max_timer_allocs

pub Apart-cons : (t : Ptr) (fs out : List Ptr) → NotIn t fs → Apart fs out → Apart fs (t ∷ out)
Apart-cons t [] out n a = tt
Apart-cons t (f ∷ fs) out (ne, n) (own, a) = ((λ e. ne (sym e), own), Apart-cons t fs out n a)

pub NotIn-Has : (f t : Ptr) (out : List Ptr) → NotIn f out → Has t out → f ≢ t
NotIn-Has f t [] n h same = elim h [ ]
NotIn-Has f t (x ∷ out) (ne, n) (inl e) same = ne (same ∙ sym e)
NotIn-Has f t (x ∷ out) (ne, n) (inr h) same = NotIn-Has f t out n h same

pub Apart-Has : (t : Ptr) (fs out : List Ptr) → Apart fs out → Has t out → NotIn t fs
Apart-Has t [] out a h = tt
Apart-Has t (f ∷ fs) out (own, a) h =
    ((λ e. NotIn-Has f t out own h (sym e)), Apart-Has t fs out a h)

pub NotIn-erased : (t f : Ptr) (out : List Ptr) → NotIn f out → NotIn f (erase t out)
unfolding erase
NotIn-erased t f [] n = tt
NotIn-erased t f (x ∷ out) (ne, n) = elim (Bool-cases (x == t)) [
  | inl e ↦ rw e n
  | inr e ↦ rw e (ne, NotIn-erased t f out n)
]

pub Apart-erase : (t : Ptr) (fs out : List Ptr) → Apart fs out → Apart fs (erase t out)
Apart-erase t [] out a = tt
Apart-erase t (f ∷ fs) out (own, a) = (NotIn-erased t f out own, Apart-erase t fs out a)

pub Distinct-erase :
    (t : Ptr) (out : List Ptr) → Distinct out → Distinct (erase t out) × NotIn t (erase t out)
unfolding erase
Distinct-erase t [] d = (tt, tt)
Distinct-erase t (x ∷ out) (own, d) = elim (Bool-cases (x == t)) [
  | inl e ↦ let same : x ≡ t = ground (arith, e) in rw e (d, subst (λ c. NotIn c out) same own)
  | inr e ↦
      let (d', out') = Distinct-erase t out d in
      rw e ((NotIn-erased t x out own, d'), ((λ same. ground (arith, e, same)), out'))
]

pub length-erase : (t : Ptr) (out : List Ptr) → Has t out → length out ≡ suc (length (erase t out))
unfolding erase
length-erase t [] h = elim h [ ]
length-erase t (x ∷ out) h = elim (Bool-cases (x == t)) [
  | inl e ↦ rw e refl
  | inr e ↦ rw e (elim h [
    | inl same ↦ absurd (ground (arith, e, same))
    | inr h' ↦ ap suc (length-erase t out h')
  ])
]

pub Chain-frame :
    (g h : Ptr → TimerObj) (p : Ptr) (fs out : List Ptr)
    → Apart fs out
    → ((q : Ptr) → NotIn q out → g q ≡ h q)
    → Chain h p fs
    → Chain g p fs
Chain-frame g h p [] out a same c = c
Chain-frame g h p (f ∷ fs) out (own, a) same (at, ne, n, c) = (
  at,
  ne,
  n,
  subst (λ (q : Ptr). Chain g q fs) (sym (ap (λ t. t.next) (same f own)))
      (Chain-frame g h (h f).next fs out a same c),
)
