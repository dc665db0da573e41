-- ===== src/Identifier/Examples.antt =====
-- Tables with two connections, and two hosts that talk to each other.
use net_blocks.Base.{ℕ, [], ◌+◌, ◌≡◌, refl, true, false, none, some, arith}
use net_blocks.Queue.{AcceptQueue}
use net_blocks.Framework.{hook_continue}
use net_blocks.Identifier.{
  dst_identifiers_only, src_dst_identifier, NetState, match_connection, find_index,
  retrieve_connection, add_connection, delete_connection, Header, Host, hook_establish, hook_send,
  hook_ingress, routing_lookup_from_global,
}
use net_blocks.Identifier.Table.{is_same_flow, IsFree, add_connection-retrieve_connection}
use net_blocks.Identifier.Delete.{
  IsDistinct, Deleted, delete_connection-retrieve_connection, delete_connection_loses,
}
use net_blocks.Identifier.Hooks.{hook_send-hook_ingress}

-- Connections 100 and 101, with local ids 8080 and 8081, to the application 9000 on hosts 3 and 4.
abbrev two_connections : NetState
two_connections = record {
  num_conn = 2;
  active_local_app_ids = λ i. 8080 + i;
  active_remote_app_ids = λ i. 9000;
  active_remote_host_ids = λ i. 3 + i;
  active_connections = λ i. 100 + i;
}

two_connections-IsFree : IsFree src_dst_identifier two_connections 8090 9000 3
two_connections-IsFree k p = unfold match_connection in ground arith

add_connection-retrieve_connection_example :
    (s' : NetState) × (add_connection src_dst_identifier two_connections 102 8090 9000 3 ≡ some s')
    × (retrieve_connection src_dst_identifier s' 8090 9000 3 ≡ 102)
    × ((a' r' h' : ℕ)
        → is_same_flow src_dst_identifier 8090 9000 3 a' r' h' ≡ false
        → retrieve_connection src_dst_identifier s' a' r' h'
          ≡ retrieve_connection src_dst_identifier two_connections a' r' h')
add_connection-retrieve_connection_example =
    add_connection-retrieve_connection src_dst_identifier two_connections 102 8090 9000 3
      (omega arith) two_connections-IsFree

two_connections-IsDistinct : IsDistinct two_connections
two_connections-IsDistinct j k p q e = omega arith

delete_connection-retrieve_connection_example :
    Deleted two_connections (delete_connection dst_identifiers_only two_connections 8080 0 0) 8080
delete_connection-retrieve_connection_example =
    delete_connection-retrieve_connection two_connections 8080 0 0 two_connections-IsDistinct

first-found :
    find_index 2 0 (λ k. match_connection src_dst_identifier two_connections k 8080 9000 3) ≡ some 0
unfolding find_index match_connection
first-found = refl

last-match : match_connection src_dst_identifier two_connections 1 8081 9000 4 ≡ true
unfolding match_connection
last-match = refl

delete_connection_loses_example :
    (retrieve_connection src_dst_identifier two_connections 8081 9000 4 ≡ 101)
    × (retrieve_connection src_dst_identifier
          (delete_connection src_dst_identifier two_connections 8080 9000 3)
          8081
          9000
          4
        ≡ 0)
delete_connection_loses_example =
    delete_connection_loses two_connections 0 8080 9000 3 8081 9000 4 (omega arith) first-found
      last-match (λ k p. unfold match_connection in ground arith) (λ e. omega arith)

abbrev no_packets : AcceptQueue
no_packets = record {
  src_app_id = λ i. 0;
  src_host_id = λ i. 0;
  packet = λ i. 0;
  current_elems = 0;
}

-- Host 1 accepts from application 9001 of host 2, whose connection 200 leads to application 8090.
abbrev server : Host
server = record {
  my_local_host_id = 1;
  net = two_connections;
  routing_table = none;
  connection = λ c. record {
    remote_host_id = 0;
    remote_app_id = 0;
    local_app_id = 0;
    accept_queue = no_packets;
  };
  events = [];
}

abbrev client : Host
client = record {
  my_local_host_id = 2;
  net = record two_connections { num_conn = 0 };
  routing_table = none;
  connection = λ c. record {
    remote_host_id = 1;
    remote_app_id = 8090;
    local_app_id = 9001;
    accept_queue = no_packets;
  };
  events = [];
}

abbrev empty_header : Header
empty_header = record {
  flow_identifier = 0;
  dst_host_id = 0;
  src_host_id = 0;
  dst_app_id = 0;
  src_app_id = 0;
}

hook_send-hook_ingress_example :
    (w' : Host) × (hook_establish src_dst_identifier server no_packets 102 2 9001 8090
      ≡ some (w', hook_continue))
    × (hook_ingress src_dst_identifier w' 5000 (hook_send client 200 empty_header).0
        ≡ some (
          (w', record ((hook_send client 200 empty_header).0) { flow_identifier = 102 }),
          hook_continue,
        ))
hook_send-hook_ingress_example =
    hook_send-hook_ingress src_dst_identifier server client no_packets 200 102 2 9001 8090 5000
      empty_header (λ e. omega arith) (omega arith) (omega arith)
      (λ k p. unfold match_connection in ground arith)
      (unfold routing_lookup_from_global in
        record {
          host = refl;
          own_host = refl;
          remote_app = refl;
          local_app = refl;
          host_fits = omega arith;
          own_host_fits = omega arith;
          remote_app_fits = omega arith;
          local_app_fits = omega arith;
        })
