-- ===== src/Framework/Examples.antt =====
-- Modules whose hooks leave a trace.
use net_blocks.Base.{
  some, ◌⊎◌, false, true, ◌&&◌, none, ℕ, ◌+◌, ◌≡◌, refl, List, [], ◌∷◌, ◌==◌, if◌then◌else◌,
}
use net_blocks.Framework.{hook_continue, hook_drop, Module, register_module}
use net_blocks.Framework.Paths.{register_all}
use net_blocks.Framework.Schedule.{
  is_scheduled, all_satisfied, in_order, sweep, finalize_path, finalize_paths, aborted,
  finalize_path_aborts,
}

-- Writes its name into the trace; on ingress it drops the packets that are not its own.
abbrev tracing : ℕ → Module (List ℕ)
tracing n = record {
  name = n;
  hook_establish = λ conn host app src w. (n ∷ w, hook_continue);
  hook_destablish = λ conn w. (n ∷ w, hook_continue);
  hook_send = λ conn p buff len (w, ret). ((n ∷ w, ret + 1), hook_continue);
  hook_ingress = λ p w. (n ∷ w, if p == n then hook_drop else hook_continue);
  hook_net_init = λ w. n ∷ w;
  sequence = 0;
}

abbrev stack : List (Module (List ℕ))
stack = tracing 1 ∷ tracing 2 ∷ tracing 3 ∷ []

abbrev numbered : ℕ → Module (List ℕ)
numbered n = record (tracing (n + 1)) { sequence = n }

stack-register_all : register_all [] stack ≡ numbered 0 ∷ numbered 1 ∷ numbered 2 ∷ []
unfolding register_all register_module
stack-register_all = refl

abbrev after_previous : ℕ → List ℕ
after_previous m = if m == 1 then 0 ∷ [] else if m == 2 then 0 ∷ 1 ∷ [] else []

finalize_path_aborts_example :
    let modules : List ℕ = 0 ∷ 1 ∷ 2 ∷ [] in
    let d = after_previous in
    (path : List ℕ) × (finalize_path false 2 d modules [] ≡ aborted path)
    × (in_order d [] path ≡ true)
    × (finalize_paths false 2 d d d d modules ≡ none)
    × ((in_order d [] modules ≡ false) ⊎ (path ≡ modules))
    × (((in_order d [] modules && in_order d [] modules)
            && (in_order d [] modules && in_order d [] modules)
          ≡ false)
        ⊎ (finalize_paths true 3 d d d d modules
            ≡ some (modules ∷ modules ∷ modules ∷ modules ∷ [])))
finalize_path_aborts_example =
    finalize_path_aborts 1 after_previous after_previous after_previous after_previous 0
      (1 ∷ 2 ∷ [])

-- A module in front of the one it depends on is not scheduled in the first round.
late_module : sweep after_previous (1 ∷ 0 ∷ 2 ∷ []) [] ≡ 0 ∷ []
unfolding sweep is_scheduled all_satisfied
late_module = refl
