-- ===== src/Interface/Examples.antt =====
-- Modules whose hooks leave a trace.
use mathlib.Core.List.{reverse}
use net_blocks.Base.{ℕ, ◌≡◌, List, [], ◌∷◌, map, ◌==◌, if◌then◌else◌}
use net_blocks.Framework.{hook_continue, hook_drop, Module}
use net_blocks.Framework.Paths.{run_path}
use net_blocks.Interface.{
  Runtime, establish_impl, destablish_impl, send_impl, net_init_impl, run_ingress_step,
}
use net_blocks.Interface.Calls.{interface_calls}

abbrev tracing : ℕ → Module (List ℕ)
tracing n = record {
  name = n;
  hook_establish = λ conn host app src w. (conn ∷ n ∷ w, hook_continue);
  hook_destablish = λ conn w. (n ∷ w, hook_continue);
  hook_send = λ conn p buff len (w, ret). ((p ∷ n ∷ w, len), hook_continue);
  hook_ingress = λ p w. (n ∷ w, if p == n then hook_drop else hook_continue);
  hook_net_init = λ w. n ∷ w;
  sequence = 0;
}

abbrev stack : List (Module (List ℕ))
stack = tracing 1 ∷ tracing 2 ∷ []

abbrev runtime : Runtime (List ℕ)
runtime = record {
  malloc = λ w. (100, w);
  free = λ c w. c ∷ w;
  set_callback = λ c callback w. callback ∷ w;
  request_send_buffer = λ w. (200, w);
  init_timers = λ w. 0 ∷ w;
}

interface_calls_example :
    (establish_impl runtime stack 3 8080 9000 55 []
      ≡ (100, run_path (map (λ m. m.hook_establish 100 3 8080 9000) stack) (55 ∷ [])))
    × (destablish_impl runtime stack 7 [] ≡ 7 ∷ run_path (map (λ m. m.hook_destablish 7) stack) [])
    × (send_impl runtime stack 7 [] 5 []
        ≡ run_path (map (λ m. m.hook_send 7 200 [] 5) stack) ([], 0))
    × (run_ingress_step stack 2 5 [] ≡ run_path (map (λ m. m.hook_ingress 2) (reverse stack)) [])
    × (net_init_impl runtime stack []
        ≡ run_path (map (λ m v. (m.hook_net_init v, hook_continue)) stack) (0 ∷ []))
interface_calls_example = interface_calls runtime stack 7 3 8080 9000 55 2 5 [] []
