-- ===== src/Accept/Examples.antt =====
-- Three packets wait, two of them from one source.
use net_blocks.Base.{ℕ, ◌≡◌, refl, none, some, List, [], ◌∷◌, arith, ◌==◌, if◌then◌else◌}
use net_blocks.Queue.{AcceptQueue}
use net_blocks.Framework.{hook_continue, hook_drop}
use net_blocks.Identifier.{
  src_dst_identifier, match_connection, match_wildcard, find_index, retrieve_wildcard_connection,
  routing_lookup_from_global, Host, Header, event_accept_ready, hook_establish, hook_ingress,
}
use net_blocks.Identifier.Table.{IsFree}
use net_blocks.Accept.Listen.{hook_ingress-accept}
use net_blocks.Signaling.{signaled}
use net_blocks.Accept.{accept, accepted}

abbrev three_waiting : AcceptQueue
three_waiting = record {
  src_app_id = λ i. if i == 1 then 9001 else 9000;
  src_host_id = λ i. 3;
  packet = λ i. if i == 0 then 500 else if i == 1 then 501 else 502;
  current_elems = 3;
}

-- All packets go to connections.
abbrev unchanged : ℕ → AcceptQueue → AcceptQueue
unchanged packet q = q

-- Counts packet 500.
abbrev counting : ℕ → ℕ → ℕ → ℕ
counting a h p = if p == 500 then 1 else 0

-- Connection 7 listens on application 8090.
abbrev listening : Host
listening = record {
  my_local_host_id = 1;
  net = record {
    num_conn = 1;
    active_local_app_ids = λ i. 8090;
    active_remote_app_ids = λ i. 0;
    active_remote_host_ids = λ i. 0;
    active_connections = λ i. 7;
  };
  routing_table = none;
  connection = λ c. record {
    remote_host_id = 0;
    remote_app_id = 0;
    local_app_id = 8090;
    accept_queue = three_waiting;
  };
  events = [];
}

abbrev first_packet : Header
first_packet = record {
  flow_identifier = 0;
  dst_host_id = 1;
  src_host_id = 2;
  dst_app_id = 8090;
  src_app_id = 9005;
}

listening-IsFree : IsFree src_dst_identifier (listening.net) 8090 9005 2
listening-IsFree k p = unfold match_connection in refl

listening-found : retrieve_wildcard_connection (listening.net) 8090 ≡ 7
unfolding retrieve_wildcard_connection find_index match_wildcard
listening-found = refl

listening-same : routing_lookup_from_global 2 listening.routing_table ≡ 2
unfolding routing_lookup_from_global
listening-same = refl

hook_ingress-accept_example :
    (w' : Host) × (hook_ingress src_dst_identifier listening 600 first_packet
      ≡ some ((w', first_packet), hook_drop))
    × (w'.events ≡ (event_accept_ready, 7) ∷ [])
    × (ps : List ℕ) × (q' : AcceptQueue) × (accept unchanged 512 (w'.connection 7).accept_queue
        ≡ accepted 9005 2 signaled (600 ∷ ps) q')
    × (w'' : Host) × (hook_establish src_dst_identifier w' three_waiting 8 2 9005 8090
        ≡ some (w'', hook_continue))
    × (hook_ingress src_dst_identifier w'' 600 first_packet
        ≡ some ((w'', record first_packet { flow_identifier = 8 }), hook_continue))
hook_ingress-accept_example =
    hook_ingress-accept unchanged 512 listening first_packet 600 7 8 three_waiting (λ p q. refl)
      (λ e. omega arith) (λ e. omega arith) (λ e. omega arith) (omega arith) (omega arith) refl
      listening-IsFree listening-found (omega arith) (omega arith) listening-same
