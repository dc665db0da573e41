-- ===== src/Runtime/Cycle.antt =====
-- A round of nb__cycle_connections over all connections.
use net_blocks.Base.{
  ℕ, zero, suc, ◌+◌, ◌≤◌, ◌<◌, ◌≡◌, ◌≢◌, refl, ap, subst, ◌∙◌, true, false, List, [], ◌∷◌, ◌++◌,
  map, arith, ◌==◌, if◌then◌else◌,
}
use native.Mathlib.Decide.{ℕ_discrete}
use mathlib.Core.List.{append-nil}
use net_blocks.Queue.{Array}
use net_blocks.Identifier.{NetState, QueueEvent}
use net_blocks.Signaling.{SignalingState, cycle_connection}
use net_blocks.Runtime.{set_state, cycle_loop, cycle_connections}

-- The events that are reported for one connection.
unfoldable pub events_of : ℕ → List (QueueEvent × ℕ) → List QueueEvent
events_of c [] = []
events_of c ((e, k) ∷ es) = if k == c then e ∷ events_of c es else events_of c es

events_of-own :
    (c : ℕ) (es : List QueueEvent) (later : List (QueueEvent × ℕ))
    → events_of c (map (λ e. (e, c)) es ++ later) ≡ es ++ events_of c later
unfolding events_of
events_of-own c [] later = refl
events_of-own c (e ∷ es) later =
    let own : (c == c) ≡ true = ground arith in rw own (ap (λ l. e ∷ l) (events_of-own c es later))

events_of-other :
    (c k : ℕ) (es : List QueueEvent) (later : List (QueueEvent × ℕ))
    → k ≢ c
    → events_of c (map (λ e. (e, k)) es ++ later) ≡ events_of c later
unfolding events_of
events_of-other c k [] later ne = refl
events_of-other c k (e ∷ es) later ne =
    let other : (k == c) ≡ false = ground arith in rw other (events_of-other c k es later ne)

set_state-other :
    (s : ℕ → SignalingState) (k c : ℕ) (v : SignalingState) → k ≢ c → set_state s k v c ≡ s c
unfolding set_state
set_state-other s k c v ne = let other : (c == k) ≡ false = ground arith in rw other refl

set_state-own : (s : ℕ → SignalingState) (c : ℕ) (v : SignalingState) → set_state s c v c ≡ v
unfolding set_state
set_state-own s c v = let own : (c == c) ≡ true = ground arith in rw own refl

module _ (active : Array) (elems : ℕ → ℕ) where
  loop_skips :
      (left i c : ℕ) (s : ℕ → SignalingState)
      → ((j : ℕ) → i ≤ j → j < i + left → active j ≢ c)
      → (events_of c (cycle_loop left i active elems s).0 ≡ [])
        × ((cycle_loop left i active elems s).1 c ≡ s c)
  unfolding cycle_loop
  loop_skips zero i c s out = (unfold events_of in refl, refl)
  loop_skips (suc left) i c s out =
      let k = active i in
      let (events, state) = cycle_connection (s k) (elems k) in
      let ne = out i (omega arith) (omega arith) in
      let (none_later, same) =
        loop_skips left (i + 1) c (set_state s k state)
          (λ j lo hi. out j (omega arith) (omega arith)) in
      (events_of-other c k events _ ne ∙ none_later, same ∙ set_state-other s k c state ne)

  loop_reaches :
      (left i j : ℕ) (s : ℕ → SignalingState)
      → i ≤ j
      → j < i + left
      → ((a b : ℕ) → i ≤ a → a < i + left → i ≤ b → b < i + left → active a ≡ active b → a ≡ b)
      → let c = active j in
        (events_of c (cycle_loop left i active elems s).0 ≡ (cycle_connection (s c) (elems c)).0)
        × ((cycle_loop left i active elems s).1 c ≡ (cycle_connection (s c) (elems c)).1)
  unfolding cycle_loop
  loop_reaches zero i j s lo hi distinct = absurd (omega arith)
  loop_reaches (suc left) i j s lo hi distinct = elim (ℕ_discrete i j) [
    | yes same ↦ subst Reached same here
    | no differ ↦
        let c = active j in
        let ne : active i ≢ c = λ e. differ (distinct i j (omega arith) (omega arith) lo hi e) in
        let (told, ends) =
          loop_reaches left (i + 1) j (set_state s (active i) state) (omega arith) (omega arith)
            (λ a b la ha lb hb.
              distinct a b (omega arith) (omega arith) (omega arith) (omega arith)) in
        let kept = set_state-other s (active i) c state ne in
        (
          events_of-other c (active i) events _ ne
              ∙ told
              ∙ ap (λ t. (cycle_connection t (elems c)).0) kept,
          ends ∙ ap (λ t. (cycle_connection t (elems c)).1) kept,
        )
  ]
    where
      events : List QueueEvent
      events = (cycle_connection (s (active i)) (elems (active i))).0

      state : SignalingState
      state = (cycle_connection (s (active i)) (elems (active i))).1

      Reached : ℕ → Type 0
      Reached j =
          (events_of (active j) (cycle_loop (suc left) i active elems s).0
            ≡ (cycle_connection (s (active j)) (elems (active j))).0)
          × ((cycle_loop (suc left) i active elems s).1 (active j)
              ≡ (cycle_connection (s (active j)) (elems (active j))).1)

      skipped :
          (events_of
              (active i)
              (cycle_loop left (i + 1) active elems (set_state s (active i) state)).0
            ≡ [])
          × ((cycle_loop left (i + 1) active elems (set_state s (active i) state)).1 (active i)
              ≡ set_state s (active i) state (active i))
      skipped = loop_skips left (i + 1) (active i) (set_state s (active i) state) (λ k lk hk e.
          absurd (
            let same = distinct k i (omega arith) (omega arith) (omega arith) (omega arith) e in
            omega arith))

      here : Reached i
      here = (
        events_of-own (active i) events _ ∙ ap (λ l. events ++ l) skipped.0 ∙ append-nil events,
        skipped.1 ∙ set_state-own s (active i) state,
      )

-- In a round over active connections that are all different: for each of them, the application gets the
-- events that the state machine of connections gives for its state and its input queue, in order and
-- no others, and its state is the next one. Connections that are not active get none and keep their state.
pub cycle_connections_lem :
    (net : NetState) (elems : ℕ → ℕ) (s : ℕ → SignalingState)
    → ((j k : ℕ)
        → j < net.num_conn
        → k < net.num_conn
        → net.active_connections j ≡ net.active_connections k
        → j ≡ k)
    → let done = cycle_connections net elems s in
      ((j : ℕ)
        → j < net.num_conn
        → let c = net.active_connections j in
          (events_of c done.0 ≡ (cycle_connection (s c) (elems c)).0)
          × (done.1 c ≡ (cycle_connection (s c) (elems c)).1))
      × ((c : ℕ)
          → ((j : ℕ) → j < net.num_conn → net.active_connections j ≢ c)
          → (events_of c done.0 ≡ []) × (done.1 c ≡ s c))
unfolding cycle_connections
cycle_connections_lem net elems s distinct = (
  λ j lt.
      loop_reaches net.active_connections elems net.num_conn 0 j s (omega arith) (omega arith)
        (λ a b la ha lb hb. distinct a b (omega arith) (omega arith)),
  λ c out.
      loop_skips net.active_connections elems net.num_conn 0 c s (λ j lo hi. out j (omega arith)),
)
