-- ===== src/Protocol/Settings.antt =====
-- The private members of the modules in include/modules, with their setters, and `compat_level` of
-- include/core/framework.h: what `init_module` and the staged hooks branch on.
use net_blocks.Base.{ℕ, Bool, true, false}
use net_blocks.Framework.{CompatLevel, no_compat}
use net_blocks.Identifier.{FlowIdentifier, dst_identifiers_only}
use net_blocks.Inorder.{InorderStrategy, drop_out_of_order}
use net_blocks.Checksum.{ChecksumType, full_packet}

pub record Config : Type 0 where
  pub compat_level : CompatLevel
  pub flow_identifier : FlowIdentifier
  pub host_range_min : ℕ
  pub host_range_max : ℕ
  pub app_range_min : ℕ
  pub app_range_max : ℕ
  pub max_packet_len : ℕ
  pub inorder_strategy : InorderStrategy
  pub reliability : Bool
  pub routing : Bool
  pub checksum : Bool
  pub checksum_type : ChecksumType
  pub signaling : Bool

-- The initializers of the members.
abbrev pub default_config : Config
default_config = record {
  compat_level = no_compat;
  flow_identifier = dst_identifiers_only;
  host_range_min = 0;
  host_range_max = 0;
  app_range_min = 0;
  app_range_max = 0;
  max_packet_len = 0;
  inorder_strategy = drop_out_of_order;
  reliability = true;
  routing = true;
  checksum = true;
  checksum_type = full_packet;
  signaling = false;
}

-- identifier_module.h
unfoldable pub config_flow_identifier : FlowIdentifier → Config → Config
config_flow_identifier f c = record c { flow_identifier = f }

unfoldable pub set_host_range : ℕ → ℕ → Config → Config
set_host_range min max c = record c { host_range_min = min; host_range_max = max }

unfoldable pub set_app_range : ℕ → ℕ → Config → Config
set_app_range min max c = record c { app_range_min = min; app_range_max = max }

-- payload_module.h
unfoldable pub set_max_length : ℕ → Config → Config
set_max_length max c = record c { max_packet_len = max }

-- inorder_module.h
unfoldable pub config_inorder_strategy : InorderStrategy → Config → Config
config_inorder_strategy t c = record c { inorder_strategy = t }

-- reliable_module.h
unfoldable pub config_enable_reliability : Config → Config
config_enable_reliability c = record c { reliability = true }

unfoldable pub config_disable_reliability : Config → Config
config_disable_reliability c = record c { reliability = false }

-- routing_module.h
unfoldable pub config_enable_routing : Config → Config
config_enable_routing c = record c { routing = true }

unfoldable pub config_disable_routing : Config → Config
config_disable_routing c = record c { routing = false }

-- checksum_module.h
unfoldable pub config_enable_checksum : Config → Config
config_enable_checksum c = record c { checksum = true }

unfoldable pub config_disable_checksum : Config → Config
config_disable_checksum c = record c { checksum = false }

unfoldable pub config_checksum_type : ChecksumType → Config → Config
config_checksum_type ct c = record c { checksum_type = ct }

-- signaling_module.h
unfoldable pub config_enable_signaling : Config → Config
config_enable_signaling c = record c { signaling = true }

unfoldable pub config_disable_signaling : Config → Config
config_disable_signaling c = record c { signaling = false }
