-- ===== src/Protocol/Examples.antt =====
-- The configuration of src/impls/simple.cpp, and one with IP compatibility.
use net_blocks.Base.{
  String, ◌≢◌, inl, inr, ◌+◌, ◌≡◌, refl, true, false, not, ◌&&◌, some, arith, ◌==◌,
}
use net_blocks.Packet.{count_bits, set_custom_range}
use net_blocks.Packet.Aligned.{Fits}
use net_blocks.Packet.Bytes.{Memory}
use net_blocks.Layout.{
  insert, lookup, push_name, add_member, fix_layout, link_groups, link_group, set_prev, integer_at,
  get_member, as_integer, get_total_size, get_headroom, address_of,
}
use net_blocks.Layout.Chain.{all_names}
use net_blocks.Framework.{udp_compat, is_eth_compat, is_ip_compat, is_udp_compat}
use net_blocks.Inorder.{no_inorder}
use net_blocks.Routing.{IpLayout, do_ip_checksum, hook_send, ingress_len}
use net_blocks.Routing.Examples.{order, order-IsByteOrder}
use net_blocks.Protocol.Settings.{
  Config, default_config, config_flow_identifier, config_enable_routing, config_enable_signaling,
  config_inorder_strategy, config_enable_reliability, config_disable_reliability,
  config_disable_checksum, config_enable_checksum, config_checksum_type, set_host_range,
}
use net_blocks.Protocol.Modules.{
  init_signaling, init_inorder, init_reliable, register_identifier, init_signaling_after,
  init_routing, init_checksum, init_network, Protocol, integer_of, init_payload, init_interface,
  init_identifier, total_len_member, host_member, app_member, id_member, has_range, has_sequence,
  is_no_inorder,
}
use net_blocks.Protocol.{init_protocol, init_modules, simple_config}
use net_blocks.Protocol.Cases.{with_payload, built, laid_out}
use net_blocks.Protocol.Present.{
  packets_found, conn_found, state_found, wants_total_len, init_protocol-found,
}
use net_blocks.Protocol.Order.{runs_in_order, ingress_in_order, init_protocol-in_order}
use net_blocks.Protocol.Sizes.{
  unsent_bytes, header_bytes, HasNoRange, plain_len, plain_host, plain_app, init_protocol-sizes,
}
use net_blocks.Protocol.IpHeader.{ip_layout_of, counts_right, init_protocol-ip_header}
use net_blocks.Protocol.Fields.{IsAmong, IsWritten, get_field-set_field}
use net_blocks.Protocol.OnByte.{IsPacked, init_protocol-IsPacked}

abbrev pub simple : Config
simple = simple_config default_config

-- A UDP stack without sequence numbers and checksums.
abbrev udp : Config
udp = config_disable_checksum (
    config_disable_reliability
      (config_inorder_strategy no_inorder (record default_config { compat_level = udp_compat })))

abbrev pub simple_protocol : Protocol
simple_protocol = laid_out simple plain_len plain_host plain_app

abbrev udp_protocol : Protocol
udp_protocol = laid_out udp plain_len plain_host plain_app

pub simple_made : init_protocol simple ≡ some simple_protocol
unfolding simple_config config_flow_identifier config_enable_routing config_enable_signaling
    config_inorder_strategy config_enable_reliability config_disable_reliability
    config_disable_checksum config_enable_checksum config_checksum_type init_protocol init_modules
    init_payload init_interface init_identifier total_len_member host_member app_member id_member
    has_range laid_out built with_payload is_ip_compat
simple_made = refl

udp_made : init_protocol udp ≡ some udp_protocol
unfolding simple_config config_flow_identifier config_enable_routing config_enable_signaling
    config_inorder_strategy config_enable_reliability config_disable_reliability
    config_disable_checksum config_enable_checksum config_checksum_type init_protocol init_modules
    init_payload init_interface init_identifier total_len_member host_member app_member id_member
    has_range laid_out built with_payload is_ip_compat
udp_made = refl

pub simple-HasNoRange : HasNoRange simple
unfolding simple_config config_flow_identifier config_enable_routing config_enable_signaling
    config_inorder_strategy config_enable_reliability config_disable_reliability
    config_disable_checksum config_enable_checksum config_checksum_type
simple-HasNoRange = record {
  host_min = refl;
  host_max = refl;
  app_min = refl;
  app_max = refl;
  max_len = refl;
}

udp-HasNoRange : HasNoRange udp
unfolding simple_config config_flow_identifier config_enable_routing config_enable_signaling
    config_inorder_strategy config_enable_reliability config_disable_reliability
    config_disable_checksum config_enable_checksum config_checksum_type
udp-HasNoRange = record {
  host_min = refl;
  host_max = refl;
  app_min = refl;
  app_max = refl;
  max_len = refl;
}

init_protocol-found_example :
    (packets_found simple simple_protocol ≡ not (wants_total_len simple))
    × (conn_found simple simple_protocol ≡ true)
    × (state_found simple simple_protocol ≡ true)
init_protocol-found_example = init_protocol-found simple simple_protocol simple_made

init_protocol-in_order_example :
    (runs_in_order (λ r. r.establish_depends) simple_protocol
      ≡ (simple.reliability && simple.checksum))
    × (runs_in_order (λ r. r.destablish_depends) simple_protocol
        ≡ (simple.reliability && simple.checksum))
    × (runs_in_order (λ r. r.send_depends) simple_protocol
        ≡ (simple.reliability && simple.checksum))
    × (ingress_in_order simple_protocol ≡ (simple.reliability && simple.checksum))
init_protocol-in_order_example = init_protocol-in_order simple simple_protocol simple_made

init_protocol-IsPacked_example :
    IsPacked simple_protocol.net_packet 0 (all_names simple_protocol.net_packet.registered)
    × (get_headroom simple_protocol.net_packet ≡ some (unsent_bytes simple))
    × (get_total_size simple_protocol.net_packet
        ≡ some (unsent_bytes simple + header_bytes simple + 1))
init_protocol-IsPacked_example =
    init_protocol-IsPacked simple simple_protocol simple-HasNoRange simple_made

udp_on : (udp.routing && is_ip_compat udp.compat_level) ≡ true
unfolding simple_config config_flow_identifier config_enable_routing config_enable_signaling
    config_inorder_strategy config_enable_reliability config_disable_reliability
    config_disable_checksum config_enable_checksum config_checksum_type is_ip_compat
udp_on = refl

abbrev memory : Memory
memory a = 0

init_protocol-ip_header_example :
    (l : IpLayout) × (ip_layout_of udp_protocol.net_packet ≡ some l)
    × (l.vide ≡ unsent_bytes udp + 14)
    × (address_of udp_protocol.net_packet "dst_app_id" 0 ≡ some (l.vide + 20))
    × (do_ip_checksum order (hook_send order true l 7 9 memory 100 12).0 (100 + l.vide) 20
        ≡ order.htons 0)
    × ((ingress_len order l (hook_send order true l 7 9 memory 100 12).0 100
          == header_bytes udp + 12)
        ≡ counts_right udp)
init_protocol-ip_header_example =
    init_protocol-ip_header udp udp_protocol order 7 9 memory 100 12 udp-HasNoRange udp_on udp_made
      order-IsByteOrder (omega arith)

-- The stack of simple.cpp has 24 bytes of headroom, 38 of headers and one for the payload.
simple_size : get_total_size simple_protocol.net_packet ≡ some 63
unfolding simple_config config_flow_identifier config_enable_routing config_enable_signaling
    config_inorder_strategy config_enable_reliability config_disable_reliability
    config_disable_checksum config_enable_checksum config_checksum_type header_bytes unsent_bytes
    is_eth_compat is_ip_compat is_udp_compat has_sequence is_no_inorder
simple_size = (init_protocol-sizes simple simple_protocol simple-HasNoRange simple_made).1

-- The UDP stack counts its headers right.
udp_counts : counts_right udp ≡ true
unfolding simple_config config_flow_identifier config_enable_routing config_enable_signaling
    config_inorder_strategy config_enable_reliability config_disable_reliability
    config_disable_checksum config_enable_checksum config_checksum_type counts_right has_sequence
    is_no_inorder is_udp_compat
udp_counts = refl

-- With IP compatibility and the default modules, a hook names a member that is missing.
ip_wants_total_len : wants_total_len (record default_config { compat_level = udp_compat }) ≡ true
unfolding wants_total_len is_ip_compat
ip_wants_total_len = refl

-- Host ids of a range of 100 hosts have 7 bits, so that what is behind them may not start on a byte.
ranged_host :
    host_member (set_host_range 1 101 default_config)
    ≡ some (record plain_host { bit_size = 7; range_base = 1; aligned = false })
unfolding host_member id_member has_range set_host_range set_custom_range count_bits integer_of
ranged_host = refl

sequence_number-IsAmong :
    IsAmong "sequence_number" (all_names simple_protocol.net_packet.registered)
unfolding simple_config config_flow_identifier config_enable_routing config_enable_signaling
    config_inorder_strategy config_enable_reliability config_disable_reliability
    config_disable_checksum config_enable_checksum config_checksum_type laid_out built with_payload
    init_signaling init_inorder init_reliable register_identifier init_signaling_after init_routing
    init_checksum init_network is_eth_compat is_ip_compat is_udp_compat insert lookup push_name
    add_member fix_layout link_groups link_group set_prev integer_of
sequence_number-IsAmong = inr (inr (inr (inr (inr (inr (inr (inr (inr (inr (inr (inl refl)))))))))))

ack_sequence_number-IsAmong :
    IsAmong "ack_sequence_number" (all_names simple_protocol.net_packet.registered)
unfolding simple_config config_flow_identifier config_enable_routing config_enable_signaling
    config_inorder_strategy config_enable_reliability config_disable_reliability
    config_disable_checksum config_enable_checksum config_checksum_type laid_out built with_payload
    init_signaling init_inorder init_reliable register_identifier init_signaling_after init_routing
    init_checksum init_network is_eth_compat is_ip_compat is_udp_compat insert lookup push_name
    add_member fix_layout link_groups link_group set_prev integer_of
ack_sequence_number-IsAmong =
    inr (inr (inr (inr (inr (inr (inr (inr (inr (inr (inr (inr (inl refl))))))))))))

sequence_number-found :
    integer_at simple_protocol.net_packet "sequence_number" ≡ some (integer_of 4 false true)
unfolding simple_config config_flow_identifier config_enable_routing config_enable_signaling
    config_inorder_strategy config_enable_reliability config_disable_reliability
    config_disable_checksum config_enable_checksum config_checksum_type laid_out built with_payload
    init_signaling init_inorder init_reliable register_identifier init_signaling_after init_routing
    init_checksum init_network is_eth_compat is_ip_compat is_udp_compat insert lookup push_name
    add_member fix_layout link_groups link_group set_prev integer_of integer_at get_member
    as_integer
sequence_number-found = refl

numbers_differ : ◌≢◌ {A = String} "sequence_number" "ack_sequence_number"
numbers_differ e = cc

seven-Fits : Fits (integer_of 4 false true) 7
unfolding integer_of
seven-Fits = record {
  above = omega arith;
  below = omega arith;
  machine = omega arith;
  nonnegative = λ e. cc;
}

get_field-set_field_example :
    (h : Memory) × IsWritten simple_protocol.net_packet "sequence_number" "ack_sequence_number"
      memory 100 7 h
get_field-set_field_example =
    get_field-set_field simple simple_protocol "sequence_number" "ack_sequence_number"
      (integer_of 4 false true) memory 100 7 simple-HasNoRange simple_made sequence_number-IsAmong
      ack_sequence_number-IsAmong numbers_differ sequence_number-found seven-Fits (λ a. omega arith)
