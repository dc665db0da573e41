-- ===== src/Timer/Segment.antt =====
-- The doubly linked list of running timers of nb_timer.c, as a list of pointers.
use net_blocks.Base.{subst, ◌≡◌, ◌≢◌, List, [], ◌∷◌, ◌∙◌, ap, sym}
use net_blocks.Timer.{Ptr, null, TimerObj, Timers}

abbrev pub NotIn : Ptr → List Ptr → Type 0
NotIn p [] = Unit {0}
NotIn p (x ∷ xs) = (p ≢ x) × NotIn p xs

-- From `p`, whose predecessor is `prev`, the `next` pointers lead through the distinct timers `xs`
-- to `NULL`, and the `prev` pointers lead back.
abbrev pub Linked : (Ptr → TimerObj) → Ptr → Ptr → List Ptr → Type 0
Linked h prev p [] = p ≡ null
Linked h prev p (x ∷ xs) =
    (p ≡ x) × (x ≢ null) × ((h x).prev ≡ prev) × NotIn x xs × Linked h x (h x).next xs

-- The running timers, first to fire first.
abbrev pub IsRunning : Timers → List Ptr → Type 0
IsRunning ts xs = Linked ts.timer null ts.head xs

-- The heaps have the same timers at these places.
abbrev pub Same : (Ptr → TimerObj) → (Ptr → TimerObj) → List Ptr → Type 0
Same g h [] = Unit {0}
Same g h (x ∷ xs) = (g x ≡ h x) × Same g h xs

pub Linked-frame :
    (h g : Ptr → TimerObj) (prev p : Ptr) (xs : List Ptr)
    → Same g h xs
    → Linked h prev p xs
    → Linked g prev p xs
Linked-frame h g prev p [] same l = l
Linked-frame h g prev p (x ∷ xs) (here, same) (at, ne, back, out, l) = (
  at,
  ne,
  ap (λ t. t.prev) here ∙ back,
  out,
  subst (λ (q : Ptr). Linked g x q xs) (sym (ap (λ t. t.next) here))
      (Linked-frame h g x (h x).next xs same l),
)

-- Heaps that differ at three places at most agree on the timers that are none of these.
pub Same-except :
    (g h : Ptr → TimerObj) (a b c : Ptr) (xs : List Ptr)
    → ((q : Ptr) → q ≢ a → q ≢ b → q ≢ c → g q ≡ h q)
    → NotIn a xs
    → NotIn b xs
    → NotIn c xs
    → Same g h xs
Same-except g h a b c [] same na nb nc = tt
Same-except g h a b c (x ∷ xs) same (a', na) (b', nb) (c', nc) = (
  same x (λ e. a' (sym e)) (λ e. b' (sym e)) (λ e. c' (sym e)),
  Same-except g h a b c xs same na nb nc,
)
