-- ===== src/Signaling/Examples.antt =====
-- A connection that waits for a signal.
use net_blocks.Base.{ℕ, ◌≡◌, refl, true, false, some, List, [], ◌∷◌, ◌++◌, arith}
use net_blocks.Queue.{DataQueue}
use net_blocks.Framework.{hook_continue, Module, register_module}
use net_blocks.Framework.Paths.{register_all, run_path}
use net_blocks.Inorder.{deliver}
use net_blocks.Payload.{Sizes, packet_len}
use net_blocks.Payload.Trip.{peer_layout}
use net_blocks.Signaling.Packet.{
  Operations, fill_packet, hook_establish_after, after_state, hook_establish_after_lem,
}
use net_blocks.Signaling.{hook_establish, ingress, cycle, run_steps}
use net_blocks.Signaling.Once.{count_established, established_once}

established_once_example :
    count_established
      (run_steps
        ((cycle 0 ∷ []) ++ (ingress ∷ ((ingress ∷ []) ++ cycle 2 ∷ cycle 1 ∷ ingress ∷ [])))
        (hook_establish true 3 8080).0).0
    ≡ 1
established_once_example =
    established_once true 3 8080 2 (cycle 0 ∷ []) (ingress ∷ []) (cycle 1 ∷ ingress ∷ [])
      (λ e. omega arith) (λ e. omega arith)

-- A module that writes its name and the address of the packet into the trace.
abbrev tracing : ℕ → Module (List ℕ)
tracing n = record {
  name = n;
  hook_establish = λ conn host app src w. (w, hook_continue);
  hook_destablish = λ conn w. (w, hook_continue);
  hook_send = λ conn p buff len (w, ret). ((p ∷ n ∷ w, ret), hook_continue);
  hook_ingress = λ p w. (w, hook_continue);
  hook_net_init = λ w. w;
  sequence = 0;
}

abbrev trace : Operations (List ℕ)
trace = record {
  request_send_buffer = λ w. (300, w);
  set_signaling_state = λ c s w. c ∷ w;
  set_total_len = λ p len w. len ∷ w;
  set_computed_total_len = λ p len w. len ∷ w;
}

abbrev sizes : Sizes
sizes = record { headroom = 24; total_size = 63 }

abbrev signaling : Module (List ℕ)
signaling = record (tracing 1) { sequence = 1 }

abbrev network : Module (List ℕ)
network = record (tracing 2) { sequence = 2 }

signaling_behind :
    register_all [] (tracing 0 ∷ tracing 1 ∷ tracing 2 ∷ [])
    ≡ (tracing 0 ∷ []) ++ signaling ∷ network ∷ []
unfolding register_all register_module
signaling_behind = refl

abbrev no_data : DataQueue
no_data = record { elems = λ i. 0; sizes = λ i. 0; current_elems = 0 }

hook_establish_after_lem_example :
    (hook_establish_after trace sizes false
        (register_all [] (tracing 0 ∷ tracing 1 ∷ tracing 2 ∷ []))
        true
        1
        100
        3
        8080
        []
      ≡ (
        after_state trace sizes false (network ∷ []) 100 (hook_establish true 3 8080) [],
        hook_continue,
      ))
    × (deliver (peer_layout sizes) no_data 500 38 ≡ some no_data)
hook_establish_after_lem_example =
    hook_establish_after_lem trace sizes false (tracing 0 ∷ tracing 1 ∷ tracing 2 ∷ [])
      (tracing 0 ∷ []) signaling (network ∷ []) true 100 3 8080 500 no_data [] signaling_behind
      (omega arith) (omega arith)

-- The packet gets its length, goes through the network module and through no other.
signal_sent :
    after_state trace sizes false (network ∷ []) 100 (hook_establish true 3 8080) []
    ≡ 300 ∷ 2 ∷ 38 ∷ 38 ∷ 100 ∷ []
unfolding after_state fill_packet hook_establish packet_len run_path
signal_sent = refl
