-- ===== src/Protocol/Modules.antt =====
-- `init_module` of the modules in src/modules. A dependency on a module is its number; members of
-- connections and of the network state are their names.
use net_blocks.Base.{
  ℕ, ◌*◌, Bool, true, false, ◌||◌, not, Option, some, List, [], ◌∷◌, ◌++◌, String, ◌==◌,
  if◌then◌else◌,
}
use net_blocks.Packet.{byte_size, IntegerMember, Member, integer, set_custom_range, ◌>>=◌}
use net_blocks.Layout.{Layout, add_member}
use net_blocks.Framework.{is_eth_compat, is_ip_compat, is_udp_compat}
use net_blocks.Identifier.{FlowIdentifier, dst_identifiers_only, src_dst_identifier}
use net_blocks.Inorder.{InorderStrategy, drop_out_of_order, hold_forever, no_inorder}
use net_blocks.Protocol.Settings.{Config}

abbrev pub payload_module : ℕ
payload_module = 0

abbrev pub signaling_module : ℕ
signaling_module = 1

abbrev pub inorder_module : ℕ
inorder_module = 2

abbrev pub reliable_module : ℕ
reliable_module = 3

abbrev pub identifier_module : ℕ
identifier_module = 4

abbrev pub signaling_module_after : ℕ
signaling_module_after = 5

abbrev pub routing_module : ℕ
routing_module = 6

abbrev pub checksum_module : ℕ
checksum_module = 7

abbrev pub network_module : ℕ
network_module = 8

-- An entry of `m_registered_modules`, with what the module's members `m_..._depends` hold.
pub record Registration : Type 0 where
  pub name : ℕ
  pub establish_depends : List ℕ
  pub destablish_depends : List ℕ
  pub send_depends : List ℕ
  pub ingress_depends : List ℕ

pub record Protocol : Type 0 where
  pub net_packet : Layout
  pub conn_layout : List String
  pub net_state : List String
  pub registered : List Registration

unfoldable pub add : String → Member → ℕ → Protocol → Protocol
add name m group s = record s { net_packet = add_member s.net_packet name m group }

unfoldable pub add_conn : List String → Protocol → Protocol
add_conn names s = record s { conn_layout = s.conn_layout ++ names }

unfoldable pub add_state : List String → Protocol → Protocol
add_state names s = record s { net_state = s.net_state ++ names }

-- `register_module` of a module whose establish, destablish and send paths depend on `behind`.
unfoldable pub register : ℕ → List ℕ → List ℕ → Protocol → Protocol
register name behind ingress s = record s {
  registered =
      s.registered
      ++ record {
        name = name;
        establish_depends = behind;
        destablish_depends = behind;
        send_depends = behind;
        ingress_depends = ingress;
      }
        ∷ [];
}

-- `generic_integer_member<T>(flags)`
unfoldable pub integer_of : ℕ → Bool → Bool → IntegerMember
integer_of bytes is_signed aligned = record {
  bytes = bytes;
  is_signed = is_signed;
  aligned = aligned;
  align = byte_size;
  bit_size = bytes * byte_size;
  range_base = 0;
}

-- `unsigned` and `signed` types of so many bytes, with the aligned flag.
unfoldable pub unsigned_member : ℕ → Member
unfolding integer_of
unsigned_member bytes = integer (integer_of bytes false true)

unfoldable pub signed_member : ℕ → Member
unfolding integer_of
signed_member bytes = integer (integer_of bytes true true)

-- `interface_module`
unfoldable pub init_interface : Protocol → Protocol
unfolding add add_conn signed_member
init_interface s =
    add "computed_total_len" (signed_member 4) 0 (add_conn ("callback_f" ∷ "user_data" ∷ []) s)

-- `payload_module`: the length, with a range where a maximum is set.
unfoldable pub total_len_member : Config → Option IntegerMember
unfolding integer_of
total_len_member c =
    let m = integer_of 4 true true in
    if c.max_packet_len == 0 then some m else set_custom_range m 0 c.max_packet_len

unfoldable pub init_payload : Config → Protocol → Option Protocol
unfolding add register signed_member
init_payload c s =
    let with_payload = add "payload" (signed_member 1) 5 s in
    let ingress = inorder_module ∷ [] in
    if is_ip_compat c.compat_level
    then some (register payload_module [] ingress with_payload)
    else (total_len_member c >>= λ m.
        some (register payload_module [] ingress (add "total_len" (integer m) 4 with_payload)))

unfoldable pub init_signaling : Protocol → Protocol
unfolding add add_conn register signed_member
init_signaling s =
    add_conn ("signaling_state" ∷ [])
      (add "is_signaling" (signed_member 4) 0 (register signaling_module [] [] s))

unfoldable pub init_signaling_after : Protocol → Protocol
unfolding register
init_signaling_after s = register signaling_module_after [] [] s

-- Whether packets have sequence numbers.
unfoldable pub is_no_inorder : InorderStrategy → Bool
is_no_inorder no_inorder = true
is_no_inorder drop_out_of_order = false
is_no_inorder hold_forever = false

unfoldable pub is_hold_forever : InorderStrategy → Bool
is_hold_forever hold_forever = true
is_hold_forever drop_out_of_order = false
is_hold_forever no_inorder = false

unfoldable pub has_sequence : Config → Bool
unfolding is_no_inorder
has_sequence c = not (is_no_inorder c.inorder_strategy) || c.reliability

unfoldable pub init_inorder : Config → Protocol → Protocol
unfolding add add_conn register unsigned_member has_sequence is_hold_forever
init_inorder c s =
    let s₁ = add_conn ("last_sent_sequence" ∷ "last_recv_sequence" ∷ []) s in
    let s₂ = if has_sequence c then add "sequence_number" (unsigned_member 4) 4 s₁ else s₁ in
    let s₃ =
      if is_hold_forever c.inorder_strategy
      then add_conn ("inorder_buffer" ∷ "max_ooo_sequence" ∷ []) s₂
      else s₂ in
    register inorder_module (payload_module ∷ []) (reliable_module ∷ []) s₃

unfoldable pub init_reliable : Config → Protocol → Protocol
unfolding add add_conn register unsigned_member
init_reliable c s =
    let s₁ = add_conn ("redelivery_buffer" ∷ "first_unacked_seq" ∷ []) s in
    let s₂ = add "ack_sequence_number" (unsigned_member 4) 4 s₁ in
    let s₃ = add "redelivery_timer" (unsigned_member 8) 0 s₂ in
    if c.reliability
    then register reliable_module (inorder_module ∷ []) (identifier_module ∷ []) s₃
    else s

-- `identifier_module`: host ids have 48 bits, application ids 16, unless they have a range.
unfoldable pub has_range : ℕ → ℕ → Bool
has_range min max = not (min == 0) || not (max == 0)

unfoldable pub id_member : IntegerMember → ℕ → ℕ → Option IntegerMember
unfolding has_range
id_member m min max =
    if has_range min max
    then (set_custom_range m min max >>= λ r. some (record r { aligned = false }))
    else some m

unfoldable pub host_member : Config → Option IntegerMember
unfolding id_member integer_of
host_member c =
    id_member (record (integer_of 8 false true) { bit_size = 48 }) c.host_range_min c.host_range_max

unfoldable pub app_member : Config → Option IntegerMember
unfolding id_member integer_of
app_member c = id_member (integer_of 2 false false) c.app_range_min c.app_range_max

-- The members of packets.
unfoldable pub add_ids : Config → IntegerMember → IntegerMember → Protocol → Protocol
unfolding add unsigned_member
add_ids c host app s =
    let s₁ = add "flow_identifier" (unsigned_member 8) 0 s in
    let s₂ = add "src_host_id" (integer host) 1 (add "dst_host_id" (integer host) 1 s₁) in
    let s₃ =
      if is_eth_compat c.compat_level
      then add "protocol_identifier" (unsigned_member 2) 1 s₂
      else s₂ in
    let s₄ = add "src_app_id" (integer app) 3 (add "dst_app_id" (integer app) 3 s₃) in
    if is_udp_compat c.compat_level
    then add "udp_checksum" (unsigned_member 2) 3 (add "udp_len" (unsigned_member 2) 3 s₄)
    else s₄

unfoldable pub remote_arrays : FlowIdentifier → List String
remote_arrays src_dst_identifier = "active_remote_app_ids" ∷ "active_remote_host_ids" ∷ []
remote_arrays dst_identifiers_only = []

-- The rest of `init_module` once the members for the ids are there.
unfoldable pub register_identifier : Config → IntegerMember → IntegerMember → Protocol → Protocol
unfolding add_conn add_state add_ids register remote_arrays
register_identifier c host app s =
    let conn =
      "remote_host_id" ∷ "remote_app_id" ∷ "local_app_id" ∷ "input_queue" ∷ "accept_queue" ∷ [] in
    let s₁ = add_ids c host app (add_conn conn s) in
    let s₂ = add_state ("num_conn" ∷ "active_local_app_ids" ∷ []) s₁ in
    let s₃ = add_state (remote_arrays c.flow_identifier) s₂ in
    register identifier_module (reliable_module ∷ []) (checksum_module ∷ [])
      (add_state ("active_connections" ∷ "routing_table" ∷ "routing_table_len" ∷ []) s₃)

unfoldable pub init_identifier : Config → Protocol → Option Protocol
unfolding register_identifier
init_identifier c s =
    host_member c >>= λ host. app_member c >>= λ app. some (register_identifier c host app s)

-- `routing_module`: the IP header.
unfoldable pub add_ip : Protocol → Protocol
unfolding add unsigned_member
add_ip s =
    let s₁ = add "ip_total_len" (unsigned_member 2) 2 (add "ip_VIDE" (unsigned_member 2) 2 s) in
    let s₂ = add "ip_ttl" (unsigned_member 1) 2 (add "ip_IFF" (unsigned_member 4) 2 s₁) in
    add "ip_header_checksum" (unsigned_member 2) 2 (add "ip_protocol" (unsigned_member 1) 2 s₂)

unfoldable pub init_routing : Config → Protocol → Protocol
unfolding add add_ip add_conn register unsigned_member
init_routing c s =
    let s₁ = if is_ip_compat c.compat_level then add_ip s else s in
    let s₂ =
      add "src_global_id" (unsigned_member 4) 2 (add "dst_global_id" (unsigned_member 4) 2 s₁) in
    if c.routing then register routing_module [] [] (add_conn ("dst_global_id" ∷ []) s₂) else s

unfoldable pub init_checksum : Config → Protocol → Protocol
unfolding add register integer_of
init_checksum c s =
    if c.checksum
    then register checksum_module (identifier_module ∷ []) (network_module ∷ [])
        (add "checksum" (integer (integer_of 2 false false)) 4 s)
    else s

unfoldable pub init_network : Protocol → Protocol
unfolding register
init_network s = register network_module (checksum_module ∷ []) [] s
