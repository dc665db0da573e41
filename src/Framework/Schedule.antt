-- ===== src/Framework/Schedule.antt =====
-- `finalize_paths` of src/core/framework.cpp: the scheduling of the paths by dependencies, in four equal
-- parts. A module is its index; `depends` gives the modules that it depends on.
use mathlib.Core.List.{append-nil, append_assoc}
use net_blocks.Base.{
  refl, ℕ, zero, suc, inl, inr, ◌⊎◌, Bool-cases, ◌≡◌, sym, ap, ◌∙◌, Bool, true, false, not, ◌&&◌,
  Option, none, some, List, [], ◌∷◌, ◌++◌, arith, ltb, ◌==◌, length, if◌then◌else◌,
}

-- `mark_scheduled` of a module: it stands in the path.
unfoldable pub is_scheduled : ℕ → List ℕ → Bool
is_scheduled m [] = false
is_scheduled m (k ∷ ks) = if k == m then true else is_scheduled m ks

unfoldable pub all_satisfied : List ℕ → List ℕ → Bool
all_satisfied [] path = true
all_satisfied (d ∷ ds) path = is_scheduled d path && all_satisfied ds path

-- The `for` loop over the registered modules.
unfoldable pub sweep : (ℕ → List ℕ) → List ℕ → List ℕ → List ℕ
sweep depends [] path = path
sweep depends (m ∷ ms) path =
    sweep depends ms
      (if not (is_scheduled m path) && all_satisfied (depends m) path then path ++ m ∷ [] else path)

-- The path is complete, the assertion fails with the path made so far, or the loop has no fuel left.
pub data Outcome : Type 0 where
  finished : List ℕ → Outcome
  aborted : List ℕ → Outcome
  endless : Outcome

-- Goes on with a path that is finished.
unfoldable pub path_of : Outcome → (List ℕ → Option (List (List ℕ))) → Option (List (List ℕ))
path_of (finished path) rest = rest path
path_of (aborted path) rest = none
path_of endless rest = none

-- The `while` loop. Its body ends in `assert(false && ...)`, which is left out where `NDEBUG` is defined.
unfoldable pub finalize_path : (ndebug : Bool) → ℕ → (ℕ → List ℕ) → List ℕ → List ℕ → Outcome
unfolding sweep
finalize_path ndebug zero depends modules path = endless
finalize_path ndebug (suc fuel) depends modules path =
    let swept = sweep depends modules path in
    let rest = finalize_path ndebug fuel depends modules swept in
    if ltb (length path) (length modules)
    then if ndebug then rest else aborted swept
    else finished path

-- The scheduled paths, from the dependencies of the four kinds; `none` is a failed assertion. Each loop
-- runs on fuel for its rounds.
unfoldable pub finalize_paths :
    (ndebug : Bool)
    → ℕ
    → (establish destablish send ingress : ℕ → List ℕ) → List ℕ
    → Option (List (List ℕ))
unfolding finalize_path path_of
finalize_paths ndebug fuel establish destablish send ingress modules =
    path_of (finalize_path ndebug fuel establish modules []) λ establish_path.
      path_of (finalize_path ndebug fuel destablish modules []) λ destablish_path.
        path_of (finalize_path ndebug fuel send modules []) λ send_path.
          path_of (finalize_path ndebug fuel ingress modules [])
            λ ingress_path. some (establish_path ∷ destablish_path ∷ send_path ∷ ingress_path ∷ [])

-- The modules can be scheduled in their order behind `path`: none stands twice, and each depends only on
-- modules before it.
unfoldable pub in_order : (ℕ → List ℕ) → List ℕ → List ℕ → Bool
in_order depends path [] = true
in_order depends path (m ∷ ms) =
    (not (is_scheduled m path) && all_satisfied (depends m) path)
    && in_order depends (path ++ m ∷ []) ms

-- Modules behind those of `path`, in an order that meets their dependencies.
abbrev pub IsExtended : (ℕ → List ℕ) → List ℕ → List ℕ → Type 0
IsExtended depends path path' =
    (more : List ℕ) × (path' ≡ path ++ more) × (in_order depends path more ≡ true)

sweep-IsExtended :
    (depends : ℕ → List ℕ) (ms path : List ℕ) → IsExtended depends path (sweep depends ms path)
unfolding sweep in_order
sweep-IsExtended depends [] path = ([], sym (append-nil path), refl)
sweep-IsExtended depends (m ∷ ms) path =
    elim (Bool-cases (not (is_scheduled m path) && all_satisfied (depends m) path)) [
      | inl e ↦
          let (more, is, ok) = sweep-IsExtended depends ms (path ++ m ∷ []) in
          (m ∷ more, rw e (is ∙ append_assoc path (m ∷ []) more), rw e ok)
      | inr e ↦ let (more, is, ok) = sweep-IsExtended depends ms path in (more, rw e is, ok)
    ]

both_true : (a b : Bool) → (a && b) ≡ true → (a ≡ true) × (b ≡ true)
both_true true b h = (refl, h)
both_true false b h = absurd (cc)

sweep-all :
    (depends : ℕ → List ℕ) (ms path : List ℕ)
    → in_order depends path ms ≡ true
    → sweep depends ms path ≡ path ++ ms
unfolding sweep in_order
sweep-all depends [] path o = sym (append-nil path)
sweep-all depends (m ∷ ms) path o =
    let (here, rest) =
      both_true (not (is_scheduled m path) && all_satisfied (depends m) path) _ o in
    rw here (sweep-all depends ms (path ++ m ∷ []) rest ∙ append_assoc path (m ∷ []) ms)

path_of-aborted :
    (x : Outcome) (path : List ℕ) (rest : List ℕ → Option (List (List ℕ)))
    → x ≡ aborted path
    → path_of x rest ≡ none
unfolding path_of
path_of-aborted x path rest e = rw e refl

ndebug_finishes :
    (fuel : ℕ) (depends : ℕ → List ℕ) (m : ℕ) (ms : List ℕ)
    → in_order depends [] (m ∷ ms) ≡ true
    → finalize_path true (suc (suc fuel)) depends (m ∷ ms) [] ≡ finished (m ∷ ms)
unfolding finalize_path
ndebug_finishes fuel depends m ms o =
    let n = length (m ∷ ms) in
    let some_left : ltb (length {A = ℕ} []) n ≡ true = ground arith in
    let none_left : ltb n n ≡ false = ground arith in
    rw (some_left, sweep-all depends (m ∷ ms) [] o, none_left) refl

ends :
    {x y z u : Outcome} {p : List ℕ}
    → x ≡ finished p
    → y ≡ finished p
    → z ≡ finished p
    → u ≡ finished p
    → path_of x (λ a. path_of y (λ b. path_of z (λ c. path_of u (λ d. some (a ∷ b ∷ c ∷ d ∷ [])))))
      ≡ some (p ∷ p ∷ p ∷ p ∷ [])
unfolding path_of
ends ex ey ez eu = rw (ex, ey, ez, eu) refl

-- With its assertions, `finalize_paths` fails for all modules, and whatever the dependencies: the first round
-- of the loop for the establish path schedules modules in an order that meets their dependencies, and the
-- assertion against circular dependencies fails behind it. If the order of registration meets the dependencies
-- of all four paths, this round has scheduled all modules in that order; and without the assertions, each
-- loop ends in the second round with all modules in that order.
pub finalize_path_aborts :
    (fuel : ℕ) (establish destablish send ingress : ℕ → List ℕ) (m : ℕ) (ms : List ℕ)
    → let modules = m ∷ ms in
      (path : List ℕ) × (finalize_path false (suc fuel) establish modules [] ≡ aborted path)
      × (in_order establish [] path ≡ true)
      × (finalize_paths false (suc fuel) establish destablish send ingress modules ≡ none)
      × ((in_order establish [] modules ≡ false) ⊎ (path ≡ modules))
      × (((in_order establish [] modules && in_order destablish [] modules)
              && (in_order send [] modules && in_order ingress [] modules)
            ≡ false)
          ⊎ (finalize_paths true (suc (suc fuel)) establish destablish send ingress modules
              ≡ some (modules ∷ modules ∷ modules ∷ modules ∷ [])))
unfolding finalize_paths finalize_path path_of
finalize_path_aborts fuel establish destablish send ingress m ms =
    let modules = m ∷ ms in
    let some_left : ltb (length {A = ℕ} []) (length modules) ≡ true = ground arith in
    let (path, is, ok) = sweep-IsExtended establish modules [] in
    let once : finalize_path false (suc fuel) establish modules [] ≡ aborted path =
      rw some_left (ap aborted is) in
    (
      path,
      once,
      ok,
      path_of-aborted _ path _ once,
      elim (Bool-cases (in_order establish [] modules)) [
        | inr e ↦ inl e
        | inl e ↦ inr (sym is ∙ sweep-all establish modules [] e)
      ],
      elim (Bool-cases (
          (in_order establish [] modules && in_order destablish [] modules)
          && (in_order send [] modules && in_order ingress [] modules))) [
            | inr e ↦ inl e
            | inl e ↦ inr (all_finish e)
          ],
    )
  where
    all_finish :
        ((in_order establish [] (m ∷ ms) && in_order destablish [] (m ∷ ms))
            && (in_order send [] (m ∷ ms) && in_order ingress [] (m ∷ ms)))
          ≡ true
        → finalize_paths true (suc (suc fuel)) establish destablish send ingress (m ∷ ms)
          ≡ some ((m ∷ ms) ∷ (m ∷ ms) ∷ (m ∷ ms) ∷ (m ∷ ms) ∷ [])
    all_finish e =
        let modules = m ∷ ms in
        let (front, back) =
          both_true (in_order establish [] modules && in_order destablish [] modules)
            (in_order send [] modules && in_order ingress [] modules) e in
        let (a, b) =
          both_true (in_order establish [] modules) (in_order destablish [] modules) front in
        let (c, d) = both_true (in_order send [] modules) (in_order ingress [] modules) back in
        ends (ndebug_finishes fuel establish m ms a) (ndebug_finishes fuel destablish m ms b)
          (ndebug_finishes fuel send m ms c) (ndebug_finishes fuel ingress m ms d)
