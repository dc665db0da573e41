-- ===== src/Timer/Sorted.antt =====
-- Sorted lists of timers, and insertion behind equal timeouts.
use net_blocks.Base.{
  ℕ, ◌≤◌, ◌≡◌, ◌≢◌, refl, inl, inr, List, [], ◌∷◌, arith, ltb, if◌then◌else◌, Bool-cases,
}
use net_blocks.Timer.{Ptr, TimerObj}
use net_blocks.Timer.Segment.{NotIn, Same}

-- The specification: the timer comes before the first that fires later.
unfoldable pub insert_sorted : (Ptr → ℕ) → ℕ → Ptr → List Ptr → List Ptr
insert_sorted timeout to t [] = t ∷ []
insert_sorted timeout to t (x ∷ xs) =
    if ltb to (timeout x) then t ∷ x ∷ xs else x ∷ insert_sorted timeout to t xs

abbrev pub timeout_in : (Ptr → TimerObj) → Ptr → ℕ
timeout_in h p = (h p).timeout

pub NotIn-insert_sorted :
    (timeout : Ptr → ℕ) (to : ℕ) (t p : Ptr) (xs : List Ptr)
    → p ≢ t
    → NotIn p xs
    → NotIn p (insert_sorted timeout to t xs)
unfolding insert_sorted
NotIn-insert_sorted timeout to t p [] ne out = (ne, tt)
NotIn-insert_sorted timeout to t p (x ∷ xs) ne (here, out) =
    elim (Bool-cases (ltb to (timeout x))) [
      | inl e ↦ rw e (ne, (here, out))
      | inr e ↦ rw e (here, NotIn-insert_sorted timeout to t p xs ne out)
    ]

-- Callback, argument and timeout are those of the other timer.
abbrev pub SameData : TimerObj → TimerObj → Type 0
SameData a b = (a.callback ≡ b.callback) × (a.argument ≡ b.argument) × (a.timeout ≡ b.timeout)

pub insert_sorted_ext :
    (g h : Ptr → TimerObj) (to : ℕ) (t : Ptr) (xs : List Ptr)
    → Same g h xs
    → insert_sorted (timeout_in g) to t xs ≡ insert_sorted (timeout_in h) to t xs
unfolding insert_sorted
insert_sorted_ext g h to t [] same = refl
insert_sorted_ext g h to t (x ∷ xs) (here, same) =
    ground (arith, here, insert_sorted_ext g h to t xs same)

-- Every timer of the list fires at `n` or later.
abbrev pub NotBefore : (Ptr → ℕ) → ℕ → List Ptr → Type 0
NotBefore timeout n [] = Unit {0}
NotBefore timeout n (x ∷ xs) = (n ≤ timeout x) × NotBefore timeout n xs

abbrev pub IsSorted : (Ptr → ℕ) → List Ptr → Type 0
IsSorted timeout [] = Unit {0}
IsSorted timeout (x ∷ xs) = NotBefore timeout (timeout x) xs × IsSorted timeout xs

pub NotBefore-weaken :
    (timeout : Ptr → ℕ) (m n : ℕ) (xs : List Ptr)
    → m ≤ n
    → NotBefore timeout n xs
    → NotBefore timeout m xs
NotBefore-weaken timeout m n [] le b = tt
NotBefore-weaken timeout m n (x ∷ xs) le (here, b) =
    (omega arith, NotBefore-weaken timeout m n xs le b)

NotBefore-insert_sorted :
    (timeout : Ptr → ℕ) (n to : ℕ) (t : Ptr) (xs : List Ptr)
    → n ≤ to
    → to ≡ timeout t
    → NotBefore timeout n xs
    → NotBefore timeout n (insert_sorted timeout to t xs)
unfolding insert_sorted
NotBefore-insert_sorted timeout n to t [] le own b = (omega arith, tt)
NotBefore-insert_sorted timeout n to t (x ∷ xs) le own (here, b) =
    elim (Bool-cases (ltb to (timeout x))) [
      | inl e ↦ rw e (omega arith, (here, b))
      | inr e ↦ rw e (here, NotBefore-insert_sorted timeout n to t xs le own b)
    ]

pub insert_sorted-IsSorted :
    (timeout : Ptr → ℕ) (to : ℕ) (t : Ptr) (xs : List Ptr)
    → to ≡ timeout t
    → IsSorted timeout xs
    → IsSorted timeout (insert_sorted timeout to t xs)
unfolding insert_sorted
insert_sorted-IsSorted timeout to t [] own s = (tt, tt)
insert_sorted-IsSorted timeout to t (x ∷ xs) own (here, s) =
    elim (Bool-cases (ltb to (timeout x))) [
      | inl e ↦ rw e (
        (ground arith, NotBefore-weaken timeout (timeout t) (timeout x) xs (ground arith) here),
        (here, s),
      )
      | inr e ↦ rw e (
        NotBefore-insert_sorted timeout (timeout x) to t xs (ground arith) own here,
        insert_sorted-IsSorted timeout to t xs own s,
      )
    ]
