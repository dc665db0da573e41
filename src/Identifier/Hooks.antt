-- ===== src/Identifier/Hooks.antt =====
-- The hooks of identifier_module.cpp: what one host sends, the other recognises.
use net_blocks.Base.{
  ℕ, ◌^◌, ◌%◌, ◌<◌, ◌≡◌, ◌≢◌, true, false, Option, none, some, arith, ◌==◌, sym, ◌∙◌, subst, ap,
  refl,
}
use native.Mathlib.Nat.{mod-eq_of_lt}
use net_blocks.Queue.{AcceptQueue}
use net_blocks.Framework.{HookStatus, hook_continue}
use net_blocks.Identifier.{
  FlowIdentifier, NetState, max_active_connections, Host, Header, add_connection,
  retrieve_connection, routing_lookup_from_global, set_members, hook_establish, hook_send,
  hook_ingress,
}
use net_blocks.Identifier.Table.{IsFree, add_connection-retrieve_connection}

-- `c` on the host `v` is the other end of a connection of `w` with these parameters.
pub record IsPeer (w v : Host) (c h a sa : ℕ) : Type 0 where
  pub host : (v.connection c).remote_host_id ≡ w.my_local_host_id
  pub own_host : v.my_local_host_id ≡ routing_lookup_from_global h w.routing_table
  pub remote_app : (v.connection c).remote_app_id ≡ sa
  pub local_app : (v.connection c).local_app_id ≡ a
  pub host_fits : (v.connection c).remote_host_id < 2 ^ 48
  pub own_host_fits : v.my_local_host_id < 2 ^ 48
  pub remote_app_fits : sa < 2 ^ 16
  pub local_app_fits : a < 2 ^ 16

pub established :
    (flow : FlowIdentifier) (w : Host) (queue : AcceptQueue) (c h a sa : ℕ) (net : NetState)
    → h < 2 ^ 32
    → add_connection flow (w.net) c sa a (routing_lookup_from_global h w.routing_table) ≡ some net
    → hook_establish flow w queue c h a sa
      ≡ some (
        set_members w net queue c (routing_lookup_from_global h w.routing_table) a sa,
        hook_continue,
      )
unfolding hook_establish
established flow w queue c h a sa net int e =
    let whole : h % 2 ^ 32 ≡ h = omega arith in
    subst
      (λ k.
        let host = routing_lookup_from_global k w.routing_table in
        add_connection flow (w.net) c sa a host ≡ some net
        → hook_establish flow w queue c h a sa
          ≡ some (set_members w net queue c host a sa, hook_continue))
      whole
      (λ added.
        ap
          (λ x. elim x as (λ _. Option (Host × HookStatus)) [
            | none ↦ none
            | some t ↦ some (
              set_members w t queue c (routing_lookup_from_global (h % 2 ^ 32) w.routing_table) a
                  sa,
              hook_continue,
            )
          ])
          added)
      e

pub recognised :
    (flow : FlowIdentifier) (w : Host) (addr c : ℕ) (p : Header)
    → c ≢ 0
    → p.dst_host_id ≡ w.my_local_host_id
    → retrieve_connection flow (w.net) p.dst_app_id p.src_app_id p.src_host_id ≡ c
    → hook_ingress flow w addr p ≡ some ((w, record p { flow_identifier = c }), hook_continue)
unfolding hook_ingress
recognised flow w addr c p ne host found =
    let mine : (p.dst_host_id == w.my_local_host_id) ≡ true = ground (arith, host) in
    let some_c : (c == 0) ≡ false = ground arith in rw (mine, found, some_c) refl

sent_host :
    (w v : Host) (c2 c h a sa : ℕ) (net : NetState) (queue : AcceptQueue) (p : Header)
    → IsPeer w v c2 h a sa
    → ((hook_send v c2 p).0.dst_host_id
        ≡ (set_members w net queue c
            (routing_lookup_from_global h w.routing_table)
            a
            sa).my_local_host_id)
unfolding hook_send set_members
sent_host w v c2 c h a sa net queue p peer = mod-eq_of_lt peer.host_fits ∙ peer.host

sent_found :
    (flow : FlowIdentifier) (w v : Host) (c2 c h a sa : ℕ) (net : NetState) (queue : AcceptQueue)
    (p : Header)
    → IsPeer w v c2 h a sa
    → retrieve_connection flow net sa a (routing_lookup_from_global h w.routing_table) ≡ c
    → let sent = (hook_send v c2 p).0 in
      let host = set_members w net queue c (routing_lookup_from_global h w.routing_table) a sa in
      retrieve_connection flow (host.net) sent.dst_app_id sent.src_app_id sent.src_host_id ≡ c
unfolding hook_send set_members
sent_found flow w v c2 c h a sa net queue p peer found =
    let dst =
      mod-eq_of_lt (subst (λ t. t < 2 ^ 16) (sym peer.remote_app) peer.remote_app_fits)
      ∙ peer.remote_app in
    let src =
      mod-eq_of_lt (subst (λ t. t < 2 ^ 16) (sym peer.local_app) peer.local_app_fits)
      ∙ peer.local_app in
    let host = mod-eq_of_lt peer.own_host_fits ∙ peer.own_host in
    subst
      (λ t.
        retrieve_connection flow net t ((v.connection c2).local_app_id % 2 ^ 16)
          (v.my_local_host_id % 2 ^ 48)
        ≡ c)
      (sym dst)
      (subst (λ t. retrieve_connection flow net sa t (v.my_local_host_id % 2 ^ 48) ≡ c) (sym src)
        (subst (λ t. retrieve_connection flow net sa a t ≡ c) (sym host) found))

-- A host that establishes a connection (not `NULL`) whose identifiers are free, with room in its table,
-- recognises what the peer's end of the connection sends, if host ids have 48 bits (the one that
-- it connects to 32) and application ids 16: `hook_ingress` continues with that connection as the flow of the packet.
pub hook_send-hook_ingress :
    (flow : FlowIdentifier) (w v : Host) (queue : AcceptQueue) (c2 c h a sa addr : ℕ) (p : Header)
    → c ≢ 0
    → h < 2 ^ 32
    → (w.net).num_conn < max_active_connections
    → IsFree flow (w.net) sa a (routing_lookup_from_global h w.routing_table)
    → IsPeer w v c2 h a sa
    → (w' : Host) × (hook_establish flow w queue c h a sa ≡ some (w', hook_continue))
      × (hook_ingress flow w' addr (hook_send v c2 p).0
          ≡ some ((w', record ((hook_send v c2 p).0) { flow_identifier = c }), hook_continue))
hook_send-hook_ingress flow w v queue c2 c h a sa addr p ne int room free peer =
    let host = routing_lookup_from_global h w.routing_table in
    let (net, e, own, others) =
      add_connection-retrieve_connection flow (w.net) c sa a host room free in
    let w' = set_members w net queue c host a sa in
    (
      w',
      established flow w queue c h a sa net int e,
      recognised flow w' addr c (hook_send v c2 p).0 ne (sent_host w v c2 c h a sa net queue p peer)
          (sent_found flow w v c2 c h a sa net queue p peer own),
    )
