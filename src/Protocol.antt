-- ===== src/Protocol.antt =====
-- src/impls/simple.cpp with `init_module` of the modules in src/modules: how a protocol is put together.
-- A configuration is what the setters of the modules leave; a module registers the members of packets,
-- connections and the network state that it needs, and itself with the modules that it depends on.
-- `none` is the failed assertion of an empty range.
pub mod Settings
pub mod Modules
pub mod Uses
pub mod Cases
mod Present
mod Order
pub mod Sizes
mod IpHeader
mod OnByte
mod Fields
pub mod Examples
use net_blocks.Base.{Option, some, [], ◌∷◌, ◌≡◌}
use net_blocks.Packet.{◌>>=◌}
use net_blocks.Layout.{Layout, fix_layout}
use net_blocks.Inorder.{hold_forever}
use net_blocks.Checksum.{full_packet}
use net_blocks.Identifier.{src_dst_identifier}
use Settings.{
  Config, config_flow_identifier, config_enable_routing, config_enable_signaling,
  config_inorder_strategy, config_enable_reliability, config_enable_checksum, config_checksum_type,
}
use Modules.{
  Protocol, init_interface, init_payload, init_signaling, init_inorder, init_reliable,
  init_identifier, init_signaling_after, init_routing, init_checksum, init_network,
}

abbrev pub no_members : Layout
no_members = record { total_members = 0; registered = []; members = [] }

abbrev pub no_protocol : Protocol
no_protocol = record { net_packet = no_members; conn_layout = []; net_state = []; registered = [] }

-- The calls of `init_module` in `main`.
unfoldable pub init_modules : Config → Option Protocol
init_modules c = init_payload c (init_interface no_protocol) >>= λ s.
    init_identifier c (init_reliable c (init_inorder c (init_signaling s))) >>= λ s'.
    some (init_network (init_checksum c (init_routing c (init_signaling_after s'))))

-- The modules, and then `fix_layout`.
unfoldable pub init_protocol : Config → Option Protocol
init_protocol c = init_modules c >>= λ s. some (record s { net_packet = fix_layout s.net_packet })

-- The calls of the setters in `main`.
unfoldable pub simple_config : Config → Config
simple_config c = config_checksum_type full_packet (
    config_enable_checksum (
      config_enable_reliability (
        config_inorder_strategy hold_forever (
          config_enable_signaling
            (config_enable_routing (config_flow_identifier src_dst_identifier c))))))
