-- ===== src/Signaling.antt =====
-- src/modules/signaling_module.cpp, and the part of `nb__cycle_connections` in runtime/nb_runtime.c for
-- one connection: the state machine that says when a connection is established.
pub mod Once
mod Packet
mod Examples
use net_blocks.Base.{
  ℕ, zero, suc, Bool, true, false, ◌||◌, List, [], ◌∷◌, ◌++◌, ◌==◌, if◌then◌else◌,
}
use net_blocks.Identifier.{
  wildcard_host_identifier, QueueEvent, event_established, event_read_ready,
}

pub data SignalingState : Type 0 where
  waiting_for_signal signaled signal_handled signal_na : SignalingState

-- `signaling_module_after::hook_establish`: the new state, and whether a signaling packet goes out.
unfoldable pub hook_establish : Bool → ℕ → ℕ → SignalingState × Bool
hook_establish is_enabled h a =
    if (h == wildcard_host_identifier) || (a == 0)
    then (signal_na, false)
    else if is_enabled
    then (waiting_for_signal, true)
    else (signaled, false)

unfoldable pub hook_ingress : SignalingState → SignalingState
hook_ingress waiting_for_signal = signaled
hook_ingress signaled = signaled
hook_ingress signal_handled = signal_handled
hook_ingress signal_na = signal_na

-- One round of `nb__cycle_connections` for a connection with so many payloads in its input queue: the
-- events of `callback_f` in order.
unfoldable pub cycle_connection : SignalingState → ℕ → List QueueEvent × SignalingState
cycle_connection s current_elems =
    let read_ready = if current_elems == 0 then [] else event_read_ready ∷ [] in
    elim s [
      | waiting_for_signal ↦ (read_ready, waiting_for_signal)
      | signaled ↦ (event_established ∷ read_ready, signal_handled)
      | signal_handled ↦ (read_ready, signal_handled)
      | signal_na ↦ (read_ready, signal_na)
    ]

-- What happens to a connection: a packet for it arrives, or the main loop comes by.
pub data Step : Type 0 where
  ingress : Step
  cycle : ℕ → Step

unfoldable pub run_steps : List Step → SignalingState → List QueueEvent × SignalingState
unfolding hook_ingress cycle_connection
run_steps [] s = ([], s)
run_steps (ingress ∷ steps) s = run_steps steps (hook_ingress s)
run_steps (cycle n ∷ steps) s =
    let (events, s') = cycle_connection s n in
    let (later, end) = run_steps steps s' in (events ++ later, end)
