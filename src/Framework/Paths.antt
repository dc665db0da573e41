-- ===== src/Framework/Paths.antt =====
-- The loops of src/core/framework.cpp against the plain reading of a path.
use mathlib.Core.List.{reverse, reverse-cons, reverse-reverse, append_assoc, append-nil}
use native.Mathlib.Nat.{le_refl}
use net_blocks.Base.{
  ℕ, zero, suc, ◌+◌, ◌≤◌, ◌≡◌, refl, ap, ◌∙◌, sym, none, some, List, [], ◌∷◌, ◌++◌, map, subst,
  arith, length, length-append, length-reverse, get_elem?, fun_ext,
}
use net_blocks.Framework.{
  Hook, after, Module, register_module, run_up, run_down, run_establish_path, run_destablish_path,
  run_send_path, run_ingress_path,
}

-- A path: the hooks in order, up to and including the first that drops.
unfoldable pub run_path : {W : Type 0} → List (Hook W) → W → W
run_path [] w = w
run_path (h ∷ hs) w = after (h w) (λ w'. run_path hs w')

module _ {M : Type 0} where
  get_elem?-append :
      (xs ys : List M) (x : M) (n : ℕ) → n ≡ length xs → get_elem? (xs ++ x ∷ ys) n ≡ some x
  get_elem?-append [] ys x n e = rw e
  get_elem?-append (z ∷ xs) ys x zero e = absurd (omega arith)
  get_elem?-append (z ∷ xs) ys x (suc n) e = get_elem?-append xs ys x n (omega arith)

  get_elem?-length : (xs : List M) (n : ℕ) → n ≡ length xs → get_elem? (xs ++ []) n ≡ none
  get_elem?-length [] n e = refl
  get_elem?-length (z ∷ xs) zero e = absurd (omega arith)
  get_elem?-length (z ∷ xs) (suc n) e = get_elem?-length xs n (omega arith)

module _ {M W : Type 0} (hook : M → Hook W) where
  -- The loop from index `i` on runs the hooks of the modules behind the first `i`.
  pub run_up-run_path :
      (before ms : List M) (left i : ℕ) (w : W)
      → i ≡ length before
      → length ms ≤ left
      → run_up hook (before ++ ms) left i w ≡ run_path (map hook ms) w
  unfolding run_up run_path
  run_up-run_path before [] zero i w e le = refl
  run_up-run_path before [] (suc left) i w e le = rw (get_elem?-length before i e, run_up)
  run_up-run_path before (m ∷ ms) zero i w e le = absurd (omega arith)
  run_up-run_path before (m ∷ ms) (suc left) i w e le =
      rw (get_elem?-append before ms m i e, run_up)
        (ap (after (hook m w)) (
          fun_ext λ w'.
            subst (λ l. run_up hook l left (i + 1) w' ≡ run_path (map hook ms) w') (sym shift)
              (run_up-run_path (before ++ m ∷ []) ms left (i + 1) w'
                (omega (arith, e, length-append before (m ∷ []))) (omega arith))))
    where
      shift : before ++ m ∷ ms ≡ (before ++ m ∷ []) ++ ms
      shift = sym (append_assoc before (m ∷ []) ms)

  pub run_down-run_path :
      (ms past : List M) (w : W)
      → run_down hook (reverse ms ++ past) (length ms) w ≡ run_path (map hook ms) w
  unfolding run_down run_path
  run_down-run_path [] past w = refl
  run_down-run_path (m ∷ ms) past w =
      rw (found, run_down)
        (ap (after (hook m w)) (
          fun_ext λ w'.
            subst (λ l. run_down hook l (length ms) w' ≡ run_path (map hook ms) w') (sym shift)
              (run_down-run_path ms (m ∷ past) w')))
    where
      shift : reverse (m ∷ ms) ++ past ≡ reverse ms ++ m ∷ past
      shift = rw reverse-cons (append_assoc (reverse ms) (m ∷ []) past)

      found : get_elem? (reverse (m ∷ ms) ++ past) (length ms) ≡ some m
      found = rw shift (get_elem?-append (reverse ms) past m (length ms) (sym (length-reverse ms)))

-- The establish, destablish and send paths run the hooks of the modules in the order in which they
-- were registered, the ingress path in the opposite order; each stops at the first drop.
pub paths_order :
    {W : Type 0} (ms : List (Module W)) (conn host app src p len : ℕ) (buff : List ℕ) (w : W)
    → (run_establish_path ms conn host app src w
        ≡ run_path (map (λ m. m.hook_establish conn host app src) ms) w)
      × (run_destablish_path ms conn w ≡ run_path (map (λ m. m.hook_destablish conn) ms) w)
      × (run_send_path ms conn p buff len w
          ≡ run_path (map (λ m. m.hook_send conn p buff len) ms) (w, 0))
      × (run_ingress_path ms p w ≡ run_path (map (λ m. m.hook_ingress p) (reverse ms)) w)
unfolding run_establish_path run_destablish_path run_send_path run_ingress_path
paths_order ms conn host app src p len buff w = (
  run_up-run_path (λ m. m.hook_establish conn host app src) [] ms (length ms) 0 w refl (le_refl _),
  run_up-run_path (λ m. m.hook_destablish conn) [] ms (length ms) 0 w refl (le_refl _),
  run_up-run_path (λ m. m.hook_send conn p buff len) [] ms (length ms) 0 (w, 0) refl (le_refl _),
  down,
)
  where
    whole : reverse (reverse ms) ++ [] ≡ ms
    whole = append-nil _ ∙ reverse-reverse ms

    down :
        run_down (λ m. m.hook_ingress p) ms (length ms) w
        ≡ run_path (map (λ m. m.hook_ingress p) (reverse ms)) w
    down =
        subst
          (λ l.
            run_down (λ m. m.hook_ingress p) l (length ms) w
            ≡ run_path (map (λ m. m.hook_ingress p) (reverse ms)) w)
          whole
          (rw (← length-reverse ms) (run_down-run_path (λ m. m.hook_ingress p) (reverse ms) [] w))

-- Modules registered one after another.
unfoldable pub register_all : {W : Type 0} → List (Module W) → List (Module W) → List (Module W)
register_all ms [] = ms
register_all ms (m ∷ new) = register_all (register_module ms m) new

module _ {W : Type 0} where
  -- `m_sequence` counts up from `n`.
  abbrev SequencedFrom : ℕ → List (Module W) → Type 0
  SequencedFrom n [] = Unit {0}
  SequencedFrom n (m ∷ ms) = (m.sequence ≡ n) × SequencedFrom (suc n) ms

  SequencedFrom-append :
      (n : ℕ) (ms : List (Module W)) (m : Module W)
      → SequencedFrom n ms
      → m.sequence ≡ n + length ms
      → SequencedFrom n (ms ++ m ∷ [])
  SequencedFrom-append n [] m s e = (omega arith, tt)
  SequencedFrom-append n (k ∷ ms) m (here, s) e =
      (here, SequencedFrom-append (suc n) ms m s (omega arith))

  register_all-SequencedFrom :
      (ms new : List (Module W)) → SequencedFrom 0 ms → SequencedFrom 0 (register_all ms new)
  unfolding register_all register_module
  register_all-SequencedFrom ms [] s = s
  register_all-SequencedFrom ms (m ∷ new) s =
      register_all-SequencedFrom (register_module ms m) new
        (SequencedFrom-append 0 ms (record m { sequence = length ms }) s (omega arith))

  sequence_at :
      (n : ℕ) (before : List (Module W)) (m : Module W) (behind : List (Module W))
      → SequencedFrom n (before ++ m ∷ behind)
      → m.sequence ≡ n + length before
  sequence_at n [] m behind (here, s) = omega arith
  sequence_at n (k ∷ before) m behind (here, s) =
      omega (arith, sequence_at (suc n) before m behind s)

  -- `m_sequence` of every registered module is its index, and the send hooks that a module starts
  -- at `m_sequence + 1` are those of the modules registered after it, in order.
  pub register_all-send_behind :
      (new before : List (Module W)) (m : Module W) (behind : List (Module W)) (conn p len ret : ℕ)
      (buff : List ℕ) (w : W)
      → register_all [] new ≡ before ++ m ∷ behind
      → (m.sequence ≡ length before)
        × (run_up
              (λ k. k.hook_send conn p buff len)
              (register_all [] new)
              (length (register_all [] new))
              (m.sequence + 1)
              (w, ret)
            ≡ run_path (map (λ k. k.hook_send conn p buff len) behind) (w, ret))
  register_all-send_behind new before m behind conn p len ret buff w e =
      let index : m.sequence ≡ length before = omega (
        arith,
        sequence_at 0 before m behind
            (subst (SequencedFrom 0) e (register_all-SequencedFrom [] new tt)),
      ) in
      (
        index,
        rw (e, shift)
            (run_up-run_path (λ k. k.hook_send conn p buff len) (before ++ m ∷ []) behind
              (length ((before ++ m ∷ []) ++ behind)) (m.sequence + 1) (w, ret)
              (omega (arith, index, length-append before (m ∷ [])))
              (omega (arith, length-append (before ++ m ∷ []) behind))),
      )
    where
      shift : before ++ m ∷ behind ≡ (before ++ m ∷ []) ++ behind
      shift = sym (append_assoc before (m ∷ []) behind)
