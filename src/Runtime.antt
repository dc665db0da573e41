-- ===== src/Runtime.antt =====
-- runtime/nb_runtime.c: a step of the main loop, over what the transport, the generated stack and the timers
-- do in it. The time is an argument.
mod Reliability
mod Cycle
mod Examples
use net_blocks.Base.{
  ℕ, zero, suc, ◌+◌, ◌-◌, ◌^◌, Option, List, [], ◌∷◌, ◌++◌, map, ◌==◌, if◌then◌else◌,
}
use net_blocks.Queue.{Array}
use net_blocks.Identifier.{NetState, QueueEvent}
use net_blocks.Signaling.{SignalingState, cycle_connection}

-- `nb__poll_packet` gives the address of a packet or `NULL`; `check_timers` may fault or run out of fuel.
pub record Operations (W : Type 0) : Type 0 where
  pub poll_packet : W → ℕ × W
  pub run_ingress_step : ℕ → W → W
  pub cycle_connections : W → W
  pub check_timers : ℕ → W → Option W

-- `nb__main_loop_step` at time `now`.
unfoldable pub main_loop_step : {W : Type 0} → Operations W → ℕ → W → Option W
main_loop_step k now w =
    let (p, polled) = k.poll_packet w in
    k.check_timers now
      (k.cycle_connections (if p == 0 then polled else k.run_ingress_step p polled))

-- `nb__get_time_ms_now`: the time, and what `nb__time_now` is then; -1 as an `unsigned long long` says
-- that no step has set it.
unfoldable pub get_time_ms_now : ℕ → ℕ → ℕ
get_time_ms_now time_now clock = if time_now == 2 ^ 64 - 1 then clock else time_now

-- `c->signaling_state` of one connection is assigned.
unfoldable pub set_state : (ℕ → SignalingState) → ℕ → SignalingState → ℕ → SignalingState
set_state s c v q = if q == c then v else s q

-- The loop of `nb__cycle_connections` from connection `i` on, with `left` to go: the calls of `callback_f`
-- in order, and the states. `elems` gives the number of payloads in an input queue.
unfoldable pub cycle_loop :
    ℕ → ℕ → Array → (ℕ → ℕ) → (ℕ → SignalingState) → List (QueueEvent × ℕ) × (ℕ → SignalingState)
unfolding set_state
cycle_loop zero i active elems s = ([], s)
cycle_loop (suc left) i active elems s =
    let c = active i in
    let (events, state) = cycle_connection (s c) (elems c) in
    let (later, end) = cycle_loop left (i + 1) active elems (set_state s c state) in
    (map (λ e. (e, c)) events ++ later, end)

-- `nb__cycle_connections`. What the application does in a callback is not part of it.
unfoldable pub cycle_connections :
    NetState → (ℕ → ℕ) → (ℕ → SignalingState) → List (QueueEvent × ℕ) × (ℕ → SignalingState)
unfolding cycle_loop
cycle_connections net elems s = cycle_loop net.num_conn 0 net.active_connections elems s
