-- ===== src/Accept.antt =====
-- `nb__accept` of runtime/nb_runtime.c: one waiting source gets a connection, and all packets of that
-- source that wait are run through the ingress path. The new connection and the packets run are results.
pub mod Drained
mod Listen
mod Examples
use net_blocks.Base.{
  ℕ, zero, suc, ◌+◌, ◌-◌, ◌%◌, ◌^◌, Bool, ◌&&◌, Option, none, some, List, [], ◌∷◌, ◌++◌, ltb, ◌==◌,
  if◌then◌else◌,
}
use net_blocks.Signaling.{SignalingState, signaled}
use net_blocks.Queue.{AcceptQueue, remove_at}

-- The test of the loop.
unfoldable pub is_from : ℕ → ℕ → AcceptQueue → ℕ → Bool
is_from src_app_id src_host_id q i =
    (q.src_app_id i == src_app_id) && (q.src_host_id i == src_host_id)

-- A packet that is `NULL` is not run.
unfoldable pub run_packet : ℕ → List ℕ → List ℕ
run_packet packet rest = if packet == 0 then rest else packet ∷ rest

unfoldable pub run_first : ℕ → Option (List ℕ × AcceptQueue) → Option (List ℕ × AcceptQueue)
run_first packet none = none
run_first packet (some (packets, q)) = some (run_packet packet packets, q)

-- What `nb__run_ingress_step` on a packet, if it is not `NULL`, leaves of the queue, to which it may add.
unfoldable pub run_ingress : (ℕ → AcceptQueue → AcceptQueue) → ℕ → AcceptQueue → AcceptQueue
run_ingress run packet q = if packet == 0 then q else run packet q

-- The loop from element `i` on; the last element takes the place of one that is run, and `i` stays.
-- `none` is the end of the fuel.
unfoldable pub accept_loop :
    (ℕ → AcceptQueue → AcceptQueue) → ℕ → ℕ → ℕ → AcceptQueue → ℕ → Option (List ℕ × AcceptQueue)
unfolding run_ingress
accept_loop run zero src_app_id src_host_id q i = none
accept_loop run (suc fuel) src_app_id src_host_id q i =
    let after = remove_at (run_ingress run (q.packet i) q) i in
    let taken = accept_loop run fuel src_app_id src_host_id after i in
    let next = accept_loop run fuel src_app_id src_host_id q (i + 1) in
    if ltb i q.current_elems
    then if is_from src_app_id src_host_id q i then run_first (q.packet i) taken else next
    else some ([], q)

-- What the function returns: `NULL`, or a connection that is established with these identifiers and has
-- this signaling state.
pub data Accepted : Type 0 where
  nothing_waits out_of_fuel : Accepted
  accepted : ℕ → ℕ → SignalingState → List ℕ → AcceptQueue → Accepted

-- `nb__establish` takes the host id as an `unsigned int`.
unfoldable pub accept_all : ℕ → ℕ → Option (List ℕ × AcceptQueue) → Accepted
accept_all src_app_id src_host_id none = out_of_fuel
accept_all src_app_id src_host_id (some (packets, q)) =
    accepted src_app_id (src_host_id % 2 ^ 32) signaled packets q

-- `nb__accept`, with the effect of the ingress path on this queue, and fuel for its loop.
unfoldable pub accept : (ℕ → AcceptQueue → AcceptQueue) → ℕ → AcceptQueue → Accepted
unfolding run_ingress
accept run fuel q =
    let index = q.current_elems - 1 in
    let src_app_id = q.src_app_id index in
    let src_host_id = q.src_host_id index in
    let popped = record q { current_elems = index } in
    if q.current_elems == 0
    then nothing_waits
    else accept_all src_app_id src_host_id (
        run_first (q.packet index)
          (accept_loop run fuel src_app_id src_host_id (run_ingress run (q.packet index) popped) 0))
