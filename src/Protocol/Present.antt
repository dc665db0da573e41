-- ===== src/Protocol/Present.antt =====
-- The members that the hooks name are those that the modules register.
use net_blocks.Base.{◌≡◌, refl, sym, subst, Bool, true, ◌&&◌, ◌||◌, not, some}
use net_blocks.Packet.{IntegerMember}
use net_blocks.Layout.{
  insert, lookup, push_name, add_member, fix_layout, link_groups, link_group, set_prev,
}
use net_blocks.Framework.{CompatLevel, is_eth_compat, is_ip_compat, is_udp_compat}
use net_blocks.Identifier.{FlowIdentifier, dst_identifiers_only, src_dst_identifier}
use net_blocks.Inorder.{InorderStrategy}
use net_blocks.Protocol.Settings.{Config}
use net_blocks.Protocol.Modules.{
  Protocol, is_hold_forever, init_signaling, init_inorder, init_reliable, register_identifier,
  init_signaling_after, init_routing, init_checksum, init_network,
}
use net_blocks.Protocol.Uses.{packet_uses, conn_uses, state_uses, is_member, is_listed, all_found}
use net_blocks.Protocol.{init_protocol}
use net_blocks.Protocol.Cases.{
  for_bools, for_levels, for_strategies, for_settings, for_settings-true, with_payload, built,
  laid_out, init_protocol-laid_out, with_settings, agree, agree-eq,
}

-- The hooks of the registered modules find every member of packets.
unfoldable pub packets_found : Config → Protocol → Bool
packets_found c s = all_found (packet_uses c) (is_member s.net_packet) s.registered

-- The same for connections and the network state.
unfoldable pub conn_found : Config → Protocol → Bool
conn_found c s = all_found (conn_uses c) (is_listed s.conn_layout) s.registered

unfoldable pub state_found : Config → Protocol → Bool
state_found c s = all_found (state_uses c) (is_listed s.net_state) s.registered

-- IP compatibility leaves out `total_len`, which some hooks use all the same.
unfoldable pub wants_total_len : Config → Bool
wants_total_len c =
    is_ip_compat c.compat_level && (c.reliability || is_hold_forever c.inorder_strategy)

packets_test :
    Config
    → IntegerMember
    → IntegerMember
    → IntegerMember
    → CompatLevel
    → InorderStrategy
    → Bool
    → Bool
    → Bool
    → Bool
    → Bool
packets_test c len host app l t rel rou sum sig =
    let c' = with_settings c l t rel rou sum sig in
    let s = laid_out c' len host app in
    agree (packets_found c' s) (not (wants_total_len c')) && conn_found c' s

packets_checked :
    (c : Config) (len host app : IntegerMember) → for_settings (packets_test c len host app) ≡ true
unfolding for_settings for_bools for_levels for_strategies packets_test packets_found conn_found
    wants_total_len packet_uses conn_uses is_member is_listed all_found laid_out built with_payload
    init_signaling init_inorder init_reliable register_identifier init_signaling_after init_routing
    init_checksum init_network is_hold_forever is_eth_compat is_ip_compat is_udp_compat insert
    lookup push_name add_member fix_layout link_groups link_group set_prev
packets_checked c len host app = refl

state_test :
    Config
    → FlowIdentifier
    → IntegerMember
    → IntegerMember
    → IntegerMember
    → CompatLevel
    → InorderStrategy
    → Bool
    → Bool
    → Bool
    → Bool
    → Bool
state_test c f len host app l t rel rou sum sig =
    let c' = with_settings (record c { flow_identifier = f }) l t rel rou sum sig in
    state_found c' (laid_out c' len host app)

state_checked :
    (c : Config) (f : FlowIdentifier) (len host app : IntegerMember)
    → for_settings (state_test c f len host app) ≡ true
unfolding for_settings for_bools for_levels for_strategies state_test state_found state_uses
    is_listed all_found laid_out built with_payload init_signaling init_inorder init_reliable
    register_identifier init_signaling_after init_routing init_checksum init_network is_eth_compat
    is_ip_compat is_udp_compat
state_checked c dst_identifiers_only len host app = refl
state_checked c src_dst_identifier len host app = refl

-- Whatever the configuration, once the modules are initialized the hooks of the registered modules
-- find every member of connections and of the network state that they name, and they find every
-- member of packets exactly if they do not want `total_len` with IP compatibility, where it is left out.
pub init_protocol-found :
    (c : Config) (s : Protocol)
    → init_protocol c ≡ some s
    → (packets_found c s ≡ not (wants_total_len c))
      × (conn_found c s ≡ true)
      × (state_found c s ≡ true)
unfolding packets_test state_test
init_protocol-found c s h =
    let (len, host, app, _, _, _, e) = init_protocol-laid_out c s h in
    let packets = agree-eq (packets_found c (laid_out c len host app)) (not (wants_total_len c)) _ (
      for_settings-true (packets_test c len host app) c.compat_level c.inorder_strategy
        c.reliability c.routing c.checksum c.signaling (packets_checked c len host app)) in
    let state =
      for_settings-true (state_test c c.flow_identifier len host app) c.compat_level
        c.inorder_strategy c.reliability c.routing c.checksum c.signaling
        (state_checked c c.flow_identifier len host app) in
    subst
      (λ u.
        (packets_found c u ≡ not (wants_total_len c))
        × (conn_found c u ≡ true)
        × (state_found c u ≡ true))
      (sym e) (packets.0, packets.1, state)
