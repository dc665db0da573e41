-- ===== src/Runtime/Examples.antt =====
-- A packet is sent at 120 ms, and at 180 ms its acknowledgement comes; the timer of another packet was due
-- at 100 ms.
use net_blocks.Base.{
  ℕ, ◌+◌, ◌-◌, ◌^◌, ◌<◌, ◌≡◌, ◌≢◌, refl, some, List, [], ◌∷◌, arith, length, ◌==◌, if◌then◌else◌,
}
use net_blocks.Framework.{hook_continue}
use net_blocks.Timer.Segment.{IsRunning}
use net_blocks.Timer.Due.{due}
use net_blocks.Reliable.{State, hook_send}
use net_blocks.Reliable.Examples.{two_waiting, link, sizes, two_waiting-IsWaiting}
use net_blocks.Identifier.{NetState, event_established, event_read_ready}
use net_blocks.Signaling.{SignalingState, waiting_for_signal, signaled, cycle_connection}
use net_blocks.Runtime.{main_loop_step, get_time_ms_now, set_state, cycle_loop, cycle_connections}
use net_blocks.Runtime.Cycle.{events_of, cycle_connections_lem}
use net_blocks.Runtime.Reliability.{operations, main_loop_step-acknowledged}

main_loop_step-acknowledged_example :
    (sent after : State) × (ys : List ℕ) × (hook_send (two_waiting, link) 120 1100
      ≡ some (sent, hook_continue))
    × (main_loop_step (operations sizes [] 4 1500 2000 5 1300) 180 sent ≡ some after)
    × (after.1.sent ≡ (764, 60) ∷ [])
    × IsRunning after.0 ys
    × (length ys ≡ 2)
unfolding due
main_loop_step-acknowledged_example =
    main_loop_step-acknowledged sizes [] 4 1500 2000 5 two_waiting link 120 180 1100 1300
      (1 ∷ 2 ∷ []) (λ e. omega arith) (λ e. omega arith)
      ((λ e. omega arith), ((λ e. omega arith), tt)) (omega arith) two_waiting-IsWaiting
      (λ e. omega arith) (λ e. omega arith) (λ e. omega arith) refl (omega arith) (omega arith)

-- The clock is read once.
first_time : get_time_ms_now (2 ^ 64 - 1) 77 ≡ 77
unfolding get_time_ms_now
first_time = refl

-- Connections 40 and 41; the first waits for a signal, the second has one and two payloads.
abbrev two_active : NetState
two_active = record {
  num_conn = 2;
  active_local_app_ids = λ i. 0;
  active_remote_app_ids = λ i. 0;
  active_remote_host_ids = λ i. 0;
  active_connections = λ i. 40 + i;
}

abbrev waiting_payloads : ℕ → ℕ
waiting_payloads c = if c == 41 then 2 else 0

abbrev states : ℕ → SignalingState
states c = if c == 41 then signaled else waiting_for_signal

cycle_connections_lem_example :
    let done = cycle_connections two_active waiting_payloads states in
    ((j : ℕ)
      → j < 2
      → (events_of (40 + j) done.0
          ≡ (cycle_connection (states (40 + j)) (waiting_payloads (40 + j))).0)
        × (done.1 (40 + j) ≡ (cycle_connection (states (40 + j)) (waiting_payloads (40 + j))).1))
    × ((c : ℕ) → ((j : ℕ) → j < 2 → 40 + j ≢ c) → (events_of c done.0 ≡ []) × (done.1 c ≡ states c))
cycle_connections_lem_example =
    cycle_connections_lem two_active waiting_payloads states (λ j k lj lk e. omega arith)

-- The second connection is reported as established, and has something to read.
two_events :
    (cycle_connections two_active waiting_payloads states).0
    ≡ (event_established, 41) ∷ (event_read_ready, 41) ∷ []
unfolding cycle_connections cycle_loop cycle_connection set_state
two_events = refl
