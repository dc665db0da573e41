-- ===== src/Timer/Due.antt =====
-- The timers that nb__check_timers of nb_timer.c fires first: those at the front that are due.
use net_blocks.Base.{
  ℕ, suc, ◌<◌, ◌≡◌, ◌≢◌, refl, sym, ◌∙◌, inl, inr, List, [], ◌∷◌, map, arith, leb, ltb,
  if◌then◌else◌, Bool-cases, length, ap₂,
}
use net_blocks.Timer.{Ptr}
use net_blocks.Timer.Segment.{NotIn}
use net_blocks.Timer.Unlink.{Has}
use net_blocks.Timer.Sorted.{insert_sorted, NotBefore, IsSorted}

-- The timers at the front of a list whose time has come at `now`.
unfoldable pub due : (Ptr → ℕ) → ℕ → List Ptr → List Ptr
due timeout now [] = []
due timeout now (x ∷ xs) = if leb (timeout x) now then x ∷ due timeout now xs else []

-- Two functions have the same values at the timers of a list.
abbrev pub SameOn : (Ptr → ℕ) → (Ptr → ℕ) → List Ptr → Type 0
SameOn f g [] = Unit {0}
SameOn f g (x ∷ xs) = (f x ≡ g x) × SameOn f g xs

pub SameOn-except :
    (f g : Ptr → ℕ) (t : Ptr) (xs : List Ptr)
    → NotIn t xs
    → ((q : Ptr) → q ≢ t → f q ≡ g q)
    → SameOn f g xs
SameOn-except f g t [] out same = tt
SameOn-except f g t (x ∷ xs) (ne, out) same =
    (same x (λ e. ne (sym e)), SameOn-except f g t xs out same)

pub SameOn-trans : (f g h : Ptr → ℕ) (xs : List Ptr) → SameOn f g xs → SameOn g h xs → SameOn f h xs
SameOn-trans f g h [] s t = tt
SameOn-trans f g h (x ∷ xs) (a, s) (b, t) = (a ∙ b, SameOn-trans f g h xs s t)

pub SameOn-insert_sorted :
    (f g timeout : Ptr → ℕ) (to : ℕ) (t : Ptr) (xs : List Ptr)
    → f t ≡ g t
    → SameOn f g xs
    → SameOn f g (insert_sorted timeout to t xs)
unfolding insert_sorted
SameOn-insert_sorted f g timeout to t [] own s = (own, tt)
SameOn-insert_sorted f g timeout to t (x ∷ xs) own (a, s) = elim (Bool-cases (ltb to (timeout x))) [
  | inl e ↦ rw e (own, (a, s))
  | inr e ↦ rw e (a, SameOn-insert_sorted f g timeout to t xs own s)
]

pub insert_sorted_cong :
    (f g : Ptr → ℕ) (to : ℕ) (t : Ptr) (xs : List Ptr)
    → SameOn f g xs
    → insert_sorted f to t xs ≡ insert_sorted g to t xs
unfolding insert_sorted
insert_sorted_cong f g to t [] s = refl
insert_sorted_cong f g to t (x ∷ xs) (a, s) =
    ap₂ (λ n ys. if ltb to n then t ∷ x ∷ xs else x ∷ ys) a (insert_sorted_cong f g to t xs s)

pub due_cong :
    (f g : Ptr → ℕ) (now : ℕ) (xs : List Ptr) → SameOn f g xs → due f now xs ≡ due g now xs
unfolding due
due_cong f g now [] s = refl
due_cong f g now (x ∷ xs) (a, s) =
    ap₂ (λ n ys. if leb n now then x ∷ ys else []) a (due_cong f g now xs s)

NotBefore-cong :
    (f g : Ptr → ℕ) (n : ℕ) (xs : List Ptr) → SameOn f g xs → NotBefore f n xs → NotBefore g n xs
NotBefore-cong f g n [] s b = tt
NotBefore-cong f g n (x ∷ xs) (a, s) (here, b) = (omega arith, NotBefore-cong f g n xs s b)

pub IsSorted-cong : (f g : Ptr → ℕ) (xs : List Ptr) → SameOn f g xs → IsSorted f xs → IsSorted g xs
IsSorted-cong f g [] s i = tt
IsSorted-cong f g (x ∷ xs) (a, s) (b, i) =
    (rw (sym a) (NotBefore-cong f g (f x) xs s b), IsSorted-cong f g xs s i)

-- A list of the values at the timers that are due.
pub map-due_cong {ℓ} :
    {A : Type ℓ} (value : ℕ → A) (f g timeout : Ptr → ℕ) (now : ℕ) (xs : List Ptr)
    → SameOn f g xs
    → map (λ p. value (f p)) (due timeout now xs) ≡ map (λ p. value (g p)) (due timeout now xs)
unfolding due
map-due_cong value f g timeout now [] s = refl
map-due_cong value f g timeout now (x ∷ xs) (a, s) = elim (Bool-cases (leb (timeout x) now)) [
  | inl e ↦ rw e (ap₂ (λ n ys. value n ∷ ys) a (map-due_cong value f g timeout now xs s))
  | inr e ↦ rw e refl
]

-- What is inserted to fire later is not due, nor is what comes behind it.
pub due-insert_sorted :
    (timeout : Ptr → ℕ) (now to : ℕ) (t : Ptr) (xs : List Ptr)
    → now < to
    → to ≡ timeout t
    → due timeout now (insert_sorted timeout to t xs) ≡ due timeout now xs
unfolding due insert_sorted
due-insert_sorted timeout now to t [] later own = ground arith
due-insert_sorted timeout now to t (x ∷ xs) later own =
    ground (arith, due-insert_sorted timeout now to t xs later own)

pub length-insert_sorted :
    (timeout : Ptr → ℕ) (to : ℕ) (t : Ptr) (xs : List Ptr)
    → length (insert_sorted timeout to t xs) ≡ suc (length xs)
unfolding insert_sorted
length-insert_sorted timeout to t [] = refl
length-insert_sorted timeout to t (x ∷ xs) = ground (arith, length-insert_sorted timeout to t xs)

pub Has-insert_sorted :
    (timeout : Ptr → ℕ) (to : ℕ) (t p : Ptr) (xs : List Ptr)
    → Has p (t ∷ xs)
    → Has p (insert_sorted timeout to t xs)
unfolding insert_sorted
Has-insert_sorted timeout to t p [] h = h
Has-insert_sorted timeout to t p (x ∷ xs) h = elim (Bool-cases (ltb to (timeout x))) [
  | inl e ↦ rw e h
  | inr e ↦ rw e (elim h [
    | inl same ↦ inr (Has-insert_sorted timeout to t p xs (inl same))
    | inr (inl here) ↦ inl here
    | inr (inr later) ↦ inr (Has-insert_sorted timeout to t p xs (inr later))
  ])
]
