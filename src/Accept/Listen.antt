-- ===== src/Accept/Listen.antt =====
-- A connection that listens: what hook_ingress of identifier_module.cpp does with the first packet of a
-- new source, what nb__accept makes of it, and where the packet goes when it is run again.
use net_blocks.Base.{
  ℕ, ◌+◌, ◌-◌, ◌^◌, ◌≤◌, ◌<◌, ◌≡◌, ◌≢◌, refl, ap, ◌∙◌, subst, true, false, some, List, ◌∷◌, arith,
  ltb, ◌==◌,
}
use net_blocks.Queue.{Array, put, AcceptQueue, insert_accept_queue, max_accept_queue_elems}
use net_blocks.Framework.{hook_continue, hook_drop}
use net_blocks.Identifier.{
  src_dst_identifier, max_active_connections, Host, Header, event_accept_ready, connection_at,
  retrieve_connection, retrieve_wildcard_connection, routing_lookup_from_global, set_members,
  update_connection, hook_establish, ingress_wildcard, hook_ingress, match_connection,
}
use net_blocks.Identifier.Search.{find_index_absent}
use net_blocks.Identifier.Table.{IsFree, add_connection-retrieve_connection}
use net_blocks.Identifier.Hooks.{established, recognised}
use net_blocks.Accept.{accept, accepted, run_packet}
use net_blocks.Signaling.{signaled}
use net_blocks.Accept.Drained.{IsQuiet, accept_first}

-- The queue with one packet more.
abbrev pub queued : AcceptQueue → Header → ℕ → AcceptQueue
queued q p addr = record {
  src_app_id = put q.src_app_id q.current_elems p.src_app_id;
  src_host_id = put q.src_host_id q.current_elems p.src_host_id;
  packet = put q.packet q.current_elems addr;
  current_elems = q.current_elems + 1;
}

put_last : (a : Array) (n v : ℕ) → put a n v (n + 1 - 1) ≡ v
unfolding put
put_last a n v = ground arith

-- `nb__accept` takes the packet that was queued last.
accept-queued :
    (run : ℕ → AcceptQueue → AcceptQueue) (fuel : ℕ) (q : AcceptQueue) (p : Header) (addr : ℕ)
    → IsQuiet run
    → addr ≢ 0
    → q.current_elems < fuel
    → p.src_host_id < 2 ^ 32
    → (ps : List ℕ) × (q' : AcceptQueue) × (accept run fuel (queued q p addr)
        ≡ accepted p.src_app_id p.src_host_id signaled (addr ∷ ps) q')
unfolding run_packet
accept-queued run fuel q p addr quiet ne enough int =
    let n = q.current_elems in
    let (ps, q', e, _) =
      accept_first run fuel (λ a h k. 0) (queued q p addr) quiet (λ a h. refl) (omega arith)
        (omega arith) (let host = put_last q.src_host_id n p.src_host_id in omega (arith, host)) in
    let known : (addr == 0) ≡ false = ground arith in
    (
      ps,
      q',
      e
          ∙ same (put_last q.src_app_id n p.src_app_id) (put_last q.src_host_id n p.src_host_id)
              (rw (put_last q.packet n addr, known) refl),
    )
  where
    same :
        {a a' h h' : ℕ} {ps ps' : List ℕ} {q' : AcceptQueue}
        → a ≡ a'
        → h ≡ h'
        → ps ≡ ps'
        → accepted a h signaled ps q' ≡ accepted a' h' signaled ps' q'
    same ea eh ep = cc

-- The host once the packet is in the queue of the listening connection `l`.
abbrev pub told : Host → Header → ℕ → ℕ → Host
told w p addr l = record w {
  connection =
      update_connection w.connection l
        (record (w.connection l) { accept_queue = queued (w.connection l).accept_queue p addr });
  events = (event_accept_ready, l) ∷ w.events;
}

-- No connection is found, and the listening one is told.
wildcard_queued :
    (w : Host) (p : Header) (addr : ℕ)
    → let l = retrieve_wildcard_connection (w.net) p.dst_app_id in
      l ≢ 0
      → (w.connection l).accept_queue.current_elems < max_accept_queue_elems
      → ingress_wildcard src_dst_identifier w addr p ≡ some ((told w p addr l, p), hook_drop)
unfolding ingress_wildcard insert_accept_queue
wildcard_queued w p addr ne room =
    let l = retrieve_wildcard_connection (w.net) p.dst_app_id in
    let some_l : (l == 0) ≡ false = ground arith in
    let fits : ltb (w.connection l).accept_queue.current_elems max_accept_queue_elems ≡ true =
      ground arith in
    rw (some_l, fits) refl

ingress_queued :
    (w : Host) (p : Header) (addr l : ℕ)
    → l ≢ 0
    → p.dst_host_id ≡ w.my_local_host_id
    → IsFree src_dst_identifier (w.net) p.dst_app_id p.src_app_id p.src_host_id
    → retrieve_wildcard_connection (w.net) p.dst_app_id ≡ l
    → (w.connection l).accept_queue.current_elems < max_accept_queue_elems
    → hook_ingress src_dst_identifier w addr p ≡ some ((told w p addr l, p), hook_drop)
unfolding hook_ingress retrieve_connection connection_at
ingress_queued w p addr l ne mine free wild room =
    let test = λ (i : ℕ).
      match_connection src_dst_identifier (w.net) i p.dst_app_id p.src_app_id p.src_host_id in
    let absent = find_index_absent test ((w.net).num_conn) free in
    let here : (p.dst_host_id == w.my_local_host_id) ≡ true = ground (arith, mine) in
    let queued_at =
      subst
        (λ k.
          k ≢ 0
          → (w.connection k).accept_queue.current_elems < max_accept_queue_elems
          → ingress_wildcard src_dst_identifier w addr p ≡ some ((told w p addr k, p), hook_drop))
        wild (wildcard_queued w p addr) in
    rw (here, absent) (queued_at ne room)

queue_of :
    (w : Host) (p : Header) (addr l : ℕ)
    → ((told w p addr l).connection l).accept_queue ≡ queued (w.connection l).accept_queue p addr
unfolding update_connection
queue_of w p addr l = let same : (l == l) ≡ true = ground arith in rw same refl

-- A packet from a source that has no connection and a host id of 32 bits, at an address that is not `NULL`, for an application with
-- a connection `l` that listens, and with room in its queue and in the table: `hook_ingress` queues it there,
-- reports one accept event for `l`, and drops it. `nb__accept` on `l` then takes the source of this packet
-- and runs it first; once the connection `c` that it establishes is there, `hook_ingress` gives the packet
-- to `c`. The routing table is taken to map the host id to itself,
-- and the ingress path on which `nb__accept` runs the packets to add none to the queue of `l`.
pub hook_ingress-accept :
    (run : ℕ → AcceptQueue → AcceptQueue) (fuel : ℕ) (w : Host) (p : Header) (addr l c : ℕ)
    (queue : AcceptQueue)
    → IsQuiet run
    → addr ≢ 0
    → l ≢ 0
    → c ≢ 0
    → max_accept_queue_elems ≤ fuel
    → p.src_host_id < 2 ^ 32
    → p.dst_host_id ≡ w.my_local_host_id
    → IsFree src_dst_identifier (w.net) p.dst_app_id p.src_app_id p.src_host_id
    → retrieve_wildcard_connection (w.net) p.dst_app_id ≡ l
    → (w.connection l).accept_queue.current_elems < max_accept_queue_elems
    → (w.net).num_conn < max_active_connections
    → routing_lookup_from_global p.src_host_id w.routing_table ≡ p.src_host_id
    → (w' : Host) × (hook_ingress src_dst_identifier w addr p ≡ some ((w', p), hook_drop))
      × (w'.events ≡ (event_accept_ready, l) ∷ w.events)
      × (ps : List ℕ) × (q' : AcceptQueue) × (accept run fuel (w'.connection l).accept_queue
          ≡ accepted p.src_app_id p.src_host_id signaled (addr ∷ ps) q')
      × (w'' : Host) × (hook_establish src_dst_identifier w' queue c p.src_host_id p.src_app_id
            p.dst_app_id
          ≡ some (w'', hook_continue))
      × (hook_ingress src_dst_identifier w'' addr p
          ≡ some ((w'', record p { flow_identifier = c }), hook_continue))
unfolding set_members
hook_ingress-accept run fuel w p addr l c queue quiet na nl nc enough int mine free wild room places
      same =
    let w' = told w p addr l in
    let (ps, q', took) =
      accept-queued run fuel (w.connection l).accept_queue p addr quiet na (omega arith) int in
    let (net, added, own, _) =
      add_connection-retrieve_connection src_dst_identifier (w.net) c p.dst_app_id p.src_app_id
        p.src_host_id places free in
    let w'' =
      set_members w' net queue c (routing_lookup_from_global p.src_host_id w.routing_table)
        p.src_app_id p.dst_app_id in
    (
      w',
      ingress_queued w p addr l nl mine free wild room,
      refl,
      ps,
      q',
      ap (accept run fuel) (queue_of w p addr l) ∙ took,
      w'',
      established src_dst_identifier w' queue c p.src_host_id p.src_app_id p.dst_app_id net int
          (rw same added),
      recognised src_dst_identifier w'' addr c p nc mine own,
    )
