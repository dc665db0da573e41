-- ===== src/Signaling/Once.antt =====
-- A connection is reported as established once.
use net_blocks.Base.{
  ℕ, suc, ◌+◌, ◌≡◌, ◌≢◌, refl, ap, ◌∙◌, Bool, false, List, [], ◌∷◌, ◌++◌, arith, ◌==◌, Bool-cases,
  inl, inr,
}
use net_blocks.Identifier.{
  wildcard_host_identifier, QueueEvent, event_established, event_read_ready, event_accept_ready,
}
use net_blocks.Signaling.{
  SignalingState, waiting_for_signal, signaled, signal_handled, signal_na, hook_establish,
  hook_ingress, cycle_connection, Step, ingress, cycle, run_steps,
}

-- How many events report an established connection.
unfoldable pub count_established : List QueueEvent → ℕ
count_established [] = 0
count_established (event_established ∷ es) = suc (count_established es)
count_established (event_read_ready ∷ es) = count_established es
count_established (event_accept_ready ∷ es) = count_established es

count_established-append :
    (es fs : List QueueEvent)
    → count_established (es ++ fs) ≡ count_established es + count_established fs
unfolding count_established
count_established-append [] fs = omega arith
count_established-append (event_established ∷ es) fs = omega (arith, count_established-append es fs)
count_established-append (event_read_ready ∷ es) fs = count_established-append es fs
count_established-append (event_accept_ready ∷ es) fs = count_established-append es fs

-- How many such events are still to come.
abbrev left : SignalingState → ℕ
left waiting_for_signal = 1
left signaled = 1
left signal_handled = 0
left signal_na = 0

cycle-left :
    (s : SignalingState) (n : ℕ)
    → count_established (cycle_connection s n).0 + left (cycle_connection s n).1 ≡ left s
unfolding cycle_connection count_established
cycle-left waiting_for_signal n = elim (Bool-cases (n == 0)) [
  | inl e ↦ rw e refl
  | inr e ↦ rw e refl
]
cycle-left signaled n = elim (Bool-cases (n == 0)) [ inl e ↦ rw e refl | inr e ↦ rw e refl ]
cycle-left signal_handled n = elim (Bool-cases (n == 0)) [ inl e ↦ rw e refl | inr e ↦ rw e refl ]
cycle-left signal_na n = elim (Bool-cases (n == 0)) [ inl e ↦ rw e refl | inr e ↦ rw e refl ]

ingress-left : (s : SignalingState) → left (hook_ingress s) ≡ left s
unfolding hook_ingress
ingress-left waiting_for_signal = refl
ingress-left signaled = refl
ingress-left signal_handled = refl
ingress-left signal_na = refl

run_steps-left :
    (steps : List Step) (s : SignalingState)
    → count_established (run_steps steps s).0 + left (run_steps steps s).1 ≡ left s
unfolding run_steps count_established
run_steps-left [] s = omega arith
run_steps-left (ingress ∷ steps) s = run_steps-left steps (hook_ingress s) ∙ ingress-left s
run_steps-left (cycle n ∷ steps) s =
    let now = cycle-left s n in
    let later = run_steps-left steps (cycle_connection s n).1 in
    let sum =
      count_established-append (cycle_connection s n).0
        (run_steps steps (cycle_connection s n).1).0 in
    omega (arith, now, later, sum)

run_steps-append :
    (xs ys : List Step) (s : SignalingState)
    → (run_steps (xs ++ ys) s).1 ≡ (run_steps ys (run_steps xs s).1).1
unfolding run_steps
run_steps-append [] ys s = refl
run_steps-append (ingress ∷ xs) ys s = run_steps-append xs ys (hook_ingress s)
run_steps-append (cycle n ∷ xs) ys s = run_steps-append xs ys (cycle_connection s n).1

-- A packet for the connection has arrived, or none is waited for.
abbrev IsReady : SignalingState → Type 0
IsReady waiting_for_signal = ⊥
IsReady signaled = Unit {0}
IsReady signal_handled = Unit {0}
IsReady signal_na = Unit {0}

ingress-IsReady : (s : SignalingState) → IsReady (hook_ingress s)
unfolding hook_ingress
ingress-IsReady waiting_for_signal = tt
ingress-IsReady signaled = tt
ingress-IsReady signal_handled = tt
ingress-IsReady signal_na = tt

cycle-IsReady : (s : SignalingState) (n : ℕ) → IsReady s → IsReady (cycle_connection s n).1
unfolding cycle_connection
cycle-IsReady waiting_for_signal n ready = absurd ready
cycle-IsReady signaled n ready = tt
cycle-IsReady signal_handled n ready = tt
cycle-IsReady signal_na n ready = tt

cycle-nothing_left : (s : SignalingState) (n : ℕ) → IsReady s → left (cycle_connection s n).1 ≡ 0
unfolding cycle_connection
cycle-nothing_left waiting_for_signal n ready = absurd ready
cycle-nothing_left signaled n ready = refl
cycle-nothing_left signal_handled n ready = refl
cycle-nothing_left signal_na n ready = refl

run_steps-IsReady :
    (steps : List Step) (s : SignalingState) → IsReady s → IsReady (run_steps steps s).1
unfolding run_steps
run_steps-IsReady [] s ready = ready
run_steps-IsReady (ingress ∷ steps) s ready =
    run_steps-IsReady steps (hook_ingress s) (ingress-IsReady s)
run_steps-IsReady (cycle n ∷ steps) s ready =
    run_steps-IsReady steps (cycle_connection s n).1 (cycle-IsReady s n ready)

nothing_left :
    (between behind : List Step) (n : ℕ) (s : SignalingState)
    → left (run_steps (ingress ∷ (between ++ cycle n ∷ behind)) s).1 ≡ 0
unfolding run_steps
nothing_left between behind n s =
    let t = (run_steps between (hook_ingress s)).1 in
    let ready = run_steps-IsReady between (hook_ingress s) (ingress-IsReady s) in
    let now = cycle-nothing_left t n ready in
    let later = run_steps-left behind (cycle_connection t n).1 in
    ap left (run_steps-append between (cycle n ∷ behind) (hook_ingress s))
    ∙ omega (arith, now, later)

establish-left :
    (is_enabled : Bool) (h a : ℕ)
    → h ≢ wildcard_host_identifier
    → a ≢ 0
    → left (hook_establish is_enabled h a).0 ≡ 1
unfolding hook_establish
establish-left is_enabled h a nh na =
    let host : (h == wildcard_host_identifier) ≡ false = ground arith in
    let app : (a == 0) ≡ false = ground arith in
    elim (Bool-cases is_enabled) [ inl e ↦ rw (host, app, e) refl | inr e ↦ rw (host, app, e) refl ]

-- A connection to a host and an application that are not wildcards, in any sequence of packets and
-- rounds of the main loop in which a round comes after a packet: the application gets the event that
-- the connection is established exactly once, whether signaling is enabled or not.
pub established_once :
    (is_enabled : Bool) (h a n : ℕ) (before between behind : List Step)
    → h ≢ wildcard_host_identifier
    → a ≢ 0
    → count_established
        (run_steps
          (before ++ (ingress ∷ (between ++ cycle n ∷ behind)))
          (hook_establish is_enabled h a).0).0
      ≡ 1
established_once is_enabled h a n before between behind nh na =
    let s = (hook_establish is_enabled h a).0 in
    let whole = run_steps-left (before ++ (ingress ∷ (between ++ cycle n ∷ behind))) s in
    let first = establish-left is_enabled h a nh na in
    let end = ap left (run_steps-append before (ingress ∷ (between ++ cycle n ∷ behind)) s) in
    let nothing : left (run_steps (before ++ (ingress ∷ (between ++ cycle n ∷ behind))) s).1 ≡ 0 =
      end ∙ nothing_left between behind n (run_steps before s).1 in
    omega (arith, whole, first, nothing)
