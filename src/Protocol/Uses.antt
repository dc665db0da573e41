-- ===== src/Protocol/Uses.antt =====
-- The members that the hooks of each module name: `net_packet["..."]`, `conn_layout.get(c, "...")`
-- and `get_state("...")`, under the conditions under which the staged code reaches them.
use text.Mathlib.Text.{◌==◌ as str_eq}
use net_blocks.Base.{
  ℕ, Bool, true, false, ◌&&◌, not, none, some, List, [], ◌∷◌, ◌++◌, String, ◌==◌, if◌then◌else◌,
}
use net_blocks.Framework.{is_eth_compat, is_ip_compat}
use net_blocks.Layout.{Layout, get_member}
use net_blocks.Protocol.Settings.{Config}
use net_blocks.Protocol.Modules.{
  payload_module, signaling_module, inorder_module, reliable_module, identifier_module,
  signaling_module_after, routing_module, checksum_module, network_module, Registration,
  has_sequence, is_no_inorder, is_hold_forever, remote_arrays,
}

-- Names under a condition of the configuration.
unfoldable pub when : Bool → List String → List String
when true names = names
when false names = []

unfoldable pub payload_uses : Config → List String
unfolding when
payload_uses c =
    when (not (is_ip_compat c.compat_level)) ("total_len" ∷ [])
    ++ "computed_total_len" ∷ "payload" ∷ []

unfoldable pub inorder_uses : Config → List String
unfolding when has_sequence is_hold_forever is_no_inorder
inorder_uses c =
    when (has_sequence c) ("sequence_number" ∷ [])
    ++ when (not (is_no_inorder c.inorder_strategy)) ("sequence_number" ∷ [])
    ++ when (is_hold_forever c.inorder_strategy) ("total_len" ∷ [])
    ++ "flow_identifier" ∷ "computed_total_len" ∷ "payload" ∷ []

unfoldable pub reliable_uses : List String
reliable_uses =
    "computed_total_len" ∷ "sequence_number" ∷ "redelivery_timer" ∷ "ack_sequence_number"
    ∷ "flow_identifier" ∷ "total_len" ∷ []

unfoldable pub identifier_uses : Config → List String
unfolding when
identifier_uses c =
    when (is_eth_compat c.compat_level) ("protocol_identifier" ∷ [])
    ++ "dst_host_id" ∷ "dst_app_id" ∷ "src_host_id" ∷ "src_app_id" ∷ "flow_identifier" ∷ []

unfoldable pub signaling_after_uses : Config → List String
unfolding when
signaling_after_uses c =
    when (c.signaling && not (is_ip_compat c.compat_level)) ("total_len" ∷ [])
    ++ when c.signaling ("computed_total_len" ∷ [])

unfoldable pub routing_uses : Config → List String
unfolding when
routing_uses c =
    when (is_ip_compat c.compat_level) (
      "ip_VIDE" ∷ "ip_IFF" ∷ "ip_ttl" ∷ "ip_protocol" ∷ "ip_header_checksum" ∷ "ip_total_len"
      ∷ "computed_total_len" ∷ [])
    ++ "dst_global_id" ∷ "src_global_id" ∷ []

unfoldable pub network_uses : Config → List String
unfolding when
network_uses c = "computed_total_len" ∷ when (not (is_ip_compat c.compat_level)) ("total_len" ∷ [])

-- The members of packets that the hooks of a module use.
unfoldable pub packet_uses : Config → ℕ → List String
unfolding payload_uses inorder_uses reliable_uses identifier_uses signaling_after_uses routing_uses
    network_uses
packet_uses c m =
    if m == payload_module
    then payload_uses c
    else if m == signaling_module
    then "flow_identifier" ∷ []
    else if m == inorder_module
    then inorder_uses c
    else if m == reliable_module
    then reliable_uses
    else if m == identifier_module
    then identifier_uses c
    else if m == signaling_module_after
    then signaling_after_uses c
    else if m == routing_module
    then routing_uses c
    else if m == checksum_module
    then "checksum" ∷ "computed_total_len" ∷ []
    else if m == network_module
    then network_uses c
    else []

-- The members of connections.
unfoldable pub conn_uses : Config → ℕ → List String
unfolding when is_hold_forever
conn_uses c m =
    if m == signaling_module
    then "signaling_state" ∷ []
    else if m == inorder_module
    then "last_sent_sequence"
      ∷ "last_recv_sequence"
      ∷ "input_queue"
      ∷ when (is_hold_forever c.inorder_strategy)
          ("inorder_buffer" ∷ "max_ooo_sequence" ∷ "input_queue" ∷ [])
    else if m == reliable_module
    then "redelivery_buffer" ∷ []
    else if m == identifier_module
    then "remote_host_id" ∷ "remote_app_id" ∷ "local_app_id" ∷ "input_queue" ∷ "accept_queue"
      ∷ "callback_f" ∷ []
    else if m == signaling_module_after
    then "signaling_state" ∷ []
    else if m == routing_module
    then "dst_global_id" ∷ []
    else []

-- The members of the network state, which only the identifier module has.
unfoldable pub state_uses : Config → ℕ → List String
unfolding remote_arrays
state_uses c m =
    if m == identifier_module
    then remote_arrays c.flow_identifier
      ++ "num_conn" ∷ "active_local_app_ids" ∷ "active_connections" ∷ "routing_table"
        ∷ "routing_table_len" ∷ []
    else []

-- `operator[]` of the layout finds the member, which its assertion wants.
unfoldable pub is_member : Layout → String → Bool
unfolding get_member
is_member l name = elim (get_member l name) [ none ↦ false | some e ↦ true ]

unfoldable pub all_names : (String → Bool) → List String → Bool
all_names test [] = true
all_names test (n ∷ ns) = test n && all_names test ns

unfoldable pub is_listed : List String → String → Bool
is_listed [] name = false
is_listed (n ∷ ns) name = if str_eq n name then true else is_listed ns name

-- The hooks of all registered modules find what they use.
unfoldable pub all_found : (ℕ → List String) → (String → Bool) → List Registration → Bool
unfolding all_names
all_found uses test [] = true
all_found uses test (r ∷ rs) = all_names test (uses r.name) && all_found uses test rs
