-- ===== src/Identifier.antt =====
-- src/modules/identifier_module.cpp with include/modules/identifier_module.h: the table of active
-- connections, and the hooks that fill it and look it up; runtime/nb_runtime.c for the routing table.
-- A pointer to a connection is a number, 0 is `NULL`. `none` is a write past the end of an array or
-- a failed `nb_assert`. The fields of a packet are those without custom ranges.
pub mod Search
pub mod Table
pub mod Delete
pub mod Hooks
mod Examples
use net_blocks.Base.{
  ℕ, zero, suc, ◌+◌, ◌-◌, ◌^◌, ◌%◌, Bool, true, false, ◌&&◌, Option, none, some, List, [], ◌∷◌, ltb,
  ◌==◌, if◌then◌else◌,
}
use net_blocks.Queue.{Array, put, AcceptQueue, insert_accept_queue, new_accept_queue}
use net_blocks.Framework.{HookStatus, hook_continue, hook_drop}

abbrev pub max_active_connections : ℕ
max_active_connections = 512

abbrev pub wildcard_app_id : ℕ
wildcard_app_id = 0

abbrev pub wildcard_host_identifier : ℕ
wildcard_host_identifier = 0

pub data FlowIdentifier : Type 0 where
  dst_identifiers_only src_dst_identifier : FlowIdentifier

-- The members that `init_module` registers in `net_state`.
pub record NetState : Type 0 where
  pub num_conn : ℕ
  pub active_local_app_ids : Array
  pub active_remote_app_ids : Array
  pub active_remote_host_ids : Array
  pub active_connections : Array

unfoldable pub match_connection : FlowIdentifier → NetState → ℕ → ℕ → ℕ → ℕ → Bool
match_connection src_dst_identifier s index dst_app_id src_app_id src_host_id =
    (s.active_local_app_ids index == dst_app_id)
    && ((s.active_remote_app_ids index == src_app_id)
        && (s.active_remote_host_ids index == src_host_id))
match_connection dst_identifiers_only s index dst_app_id src_app_id src_host_id =
    s.active_local_app_ids index == dst_app_id

unfoldable pub match_wildcard : NetState → ℕ → ℕ → Bool
match_wildcard s appid i =
    (s.active_local_app_ids i == appid)
    && ((s.active_remote_app_ids i == wildcard_app_id)
        && (s.active_remote_host_ids i == wildcard_host_identifier))

-- The loops over the connections that break at the first match: from `i` on, with `left` to go.
unfoldable pub find_index : ℕ → ℕ → (ℕ → Bool) → Option ℕ
find_index zero i test = none
find_index (suc left) i test =
    let rest = find_index left (i + 1) test in if test i then some i else rest

unfoldable pub connection_at : NetState → Option ℕ → ℕ
connection_at s none = 0
connection_at s (some i) = s.active_connections i

unfoldable pub retrieve_connection : FlowIdentifier → NetState → ℕ → ℕ → ℕ → ℕ
unfolding connection_at
retrieve_connection flow s appid src_app_id src_host_id =
    connection_at s
      (find_index s.num_conn 0 (λ i. match_connection flow s i appid src_app_id src_host_id))

unfoldable pub retrieve_wildcard_connection : NetState → ℕ → ℕ
unfolding connection_at
retrieve_wildcard_connection s appid =
    connection_at s (find_index s.num_conn 0 (match_wildcard s appid))

-- The assignments of `add_connection`, and the function.
unfoldable pub put_connection : FlowIdentifier → NetState → ℕ → ℕ → ℕ → ℕ → NetState
unfolding put
put_connection flow s c appid src_app_id src_host_id =
    let idx = s.num_conn in
    let added = record s {
      num_conn = idx + 1;
      active_local_app_ids = put s.active_local_app_ids idx appid;
      active_connections = put s.active_connections idx c;
    } in
    elim flow [
      | dst_identifiers_only ↦ added
      | src_dst_identifier ↦ record added {
        active_remote_app_ids = put s.active_remote_app_ids idx src_app_id;
        active_remote_host_ids = put s.active_remote_host_ids idx src_host_id;
      }
    ]

unfoldable pub add_connection : FlowIdentifier → NetState → ℕ → ℕ → ℕ → ℕ → Option NetState
add_connection flow s c appid src_app_id src_host_id =
    if ltb s.num_conn max_active_connections
    then some (put_connection flow s c appid src_app_id src_host_id)
    else none

-- The body of `delete_connection` at the connection found. The remote host ids are assigned from
-- `i` to `total`, the other members from `total` to `i`.
unfoldable pub delete_at : FlowIdentifier → NetState → ℕ → NetState
unfolding put
delete_at flow s i =
    let total = s.num_conn - 1 in
    let moved = record s {
      num_conn = total;
      active_local_app_ids = put s.active_local_app_ids i (s.active_local_app_ids total);
      active_connections = put s.active_connections i (s.active_connections total);
    } in
    elim flow [
      | dst_identifiers_only ↦ moved
      | src_dst_identifier ↦ record moved {
        active_remote_app_ids = put s.active_remote_app_ids i (s.active_remote_app_ids total);
        active_remote_host_ids = put s.active_remote_host_ids total (s.active_remote_host_ids i);
      }
    ]

unfoldable pub delete_connection : FlowIdentifier → NetState → ℕ → ℕ → ℕ → NetState
delete_connection flow s appid src_app_id src_host_id =
    elim (find_index s.num_conn 0 (λ i. match_connection flow s i appid src_app_id src_host_id)) [
      | none ↦ s
      | some i ↦ delete_at flow s i
    ]

-- `routing_table_entry`, and `nb__routing_table_lookup_from_global`; `none` is the `NULL` table.
pub record RoutingTableEntry : Type 0 where
  pub local_id : ℕ
  pub global_id : ℕ

unfoldable pub lookup_loop : List RoutingTableEntry → ℕ → ℕ
lookup_loop [] local_id = local_id
lookup_loop (e ∷ entries) local_id =
    if e.local_id == local_id then e.global_id else lookup_loop entries local_id

unfoldable pub routing_lookup_from_global : ℕ → Option (List RoutingTableEntry) → ℕ
unfolding lookup_loop
routing_lookup_from_global local_id none = local_id
routing_lookup_from_global local_id (some entries) = lookup_loop entries local_id

-- The members of a connection that this module registers, and those of its packets.
pub record Connection : Type 0 where
  pub remote_host_id : ℕ
  pub remote_app_id : ℕ
  pub local_app_id : ℕ
  pub accept_queue : AcceptQueue

pub record Header : Type 0 where
  pub flow_identifier : ℕ
  pub dst_host_id : ℕ
  pub src_host_id : ℕ
  pub dst_app_id : ℕ
  pub src_app_id : ℕ

pub data QueueEvent : Type 0 where
  event_established event_read_ready event_accept_ready : QueueEvent

-- A host: its local id, its network state, its connections, and the calls of `callback_f` so far,
-- last one first. What the application does in a callback is not part of the hook.
pub record Host : Type 0 where
  pub my_local_host_id : ℕ
  pub net : NetState
  pub routing_table : Option (List RoutingTableEntry)
  pub connection : ℕ → Connection
  pub events : List (QueueEvent × ℕ)

unfoldable pub update_connection : (ℕ → Connection) → ℕ → Connection → ℕ → Connection
update_connection h c v q = if q == c then v else h q

-- `hook_net_init`. `my_host_id` is the host's own id.
unfoldable pub hook_net_init : ℕ → Host → Host
unfolding routing_lookup_from_global
hook_net_init my_host_id w = record w {
  net = record (w.net) { num_conn = 0 };
  routing_table = none;
  my_local_host_id = routing_lookup_from_global my_host_id none;
}

-- The members that `hook_establish` sets, and the hook. The new queue is an argument.
unfoldable pub set_members : Host → NetState → AcceptQueue → ℕ → ℕ → ℕ → ℕ → Host
unfolding update_connection
set_members w net queue c host_local_id a sa = record w {
  net = net;
  connection = update_connection w.connection c (record {
    remote_host_id = host_local_id;
    remote_app_id = a;
    local_app_id = sa;
    accept_queue = queue;
  });
}

-- The host id `h` is an `unsigned int`.
unfoldable pub hook_establish :
    FlowIdentifier → Host → AcceptQueue → ℕ → ℕ → ℕ → ℕ → Option (Host × HookStatus)
hook_establish flow w queue c h a sa =
    let host_local_id = routing_lookup_from_global (h % 2 ^ 32) w.routing_table in
    elim (add_connection flow w.net c sa a host_local_id) [
      | none ↦ none
      | some net ↦ some (set_members w net queue c host_local_id a sa, hook_continue)
    ]

-- `hook_destablish`. What it frees is not used again here.
unfoldable pub hook_destablish : FlowIdentifier → Host → ℕ → Host × HookStatus
hook_destablish flow w c =
    let k = w.connection c in
    (
      record w {
        net = delete_connection flow w.net k.local_app_id k.remote_app_id k.remote_host_id;
      },
      hook_continue,
    )

-- `hook_send`: host ids have 48 bits in a packet, application ids 16.
unfoldable pub hook_send : Host → ℕ → Header → Header × HookStatus
hook_send w c p =
    let k = w.connection c in
    (
      record p {
        dst_host_id = k.remote_host_id % 2 ^ 48;
        dst_app_id = k.remote_app_id % 2 ^ 16;
        src_host_id = w.my_local_host_id % 2 ^ 48;
        src_app_id = k.local_app_id % 2 ^ 16;
      },
      hook_continue,
    )

-- The end of `hook_ingress`, where no connection is found, for a packet at address `addr`.
unfoldable pub ingress_wildcard :
    FlowIdentifier → Host → ℕ → Header → Option ((Host × Header) × HookStatus)
unfolding update_connection
ingress_wildcard dst_identifiers_only w addr p = some ((w, p), hook_drop)
ingress_wildcard src_dst_identifier w addr p =
    let c = retrieve_wildcard_connection w.net p.dst_app_id in
    let k = w.connection c in
    if c == 0
    then none
    else elim (insert_accept_queue k.accept_queue p.src_app_id p.src_host_id addr) [
      | none ↦ none
      | some queue ↦ some (
        (
          record w {
            connection = update_connection w.connection c (record k { accept_queue = queue });
            events = (event_accept_ready, c) ∷ w.events;
          },
          p,
        ),
        hook_drop,
      )
    ]

unfoldable pub hook_ingress :
    FlowIdentifier → Host → ℕ → Header → Option ((Host × Header) × HookStatus)
hook_ingress flow w addr p =
    let c = retrieve_connection flow w.net p.dst_app_id p.src_app_id p.src_host_id in
    let otherwise = ingress_wildcard flow w addr p in
    if p.dst_host_id == w.my_local_host_id
    then if c == 0 then otherwise else some ((w, record p { flow_identifier = c }), hook_continue)
    else some ((w, p), hook_drop)
