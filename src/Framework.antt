-- ===== src/Framework.antt =====
-- include/core/module.h, include/core/framework.h and src/core/framework.cpp: the modules of a
-- protocol, the paths that run their hooks, and the scheduling of paths. The hooks of a module act
-- on a state `W`; connections and packets are pointers, which are numbers.
pub mod Paths
pub mod Schedule
pub mod Compat
mod Examples
use net_blocks.Base.{
  ℕ, zero, suc, ◌+◌, ◌-◌, Bool, true, false, ◌||◌, Option, none, some, List, [], ◌∷◌, ◌++◌, ltb,
  length, get_elem?, if◌then◌else◌,
}

pub data HookStatus : Type 0 where
  hook_continue hook_drop : HookStatus

-- A hook takes the state to a new one and says whether the path goes on.
abbrev pub Hook : Type 0 → Type 0
Hook W = W → W × HookStatus

-- `module`: the hooks, with what they are called with. `hook_send` also gets the value that
-- `ret_len` points to, and returns the new one.
pub record Module (W : Type 0) : Type 0 where
  pub name : ℕ
  pub hook_establish : ℕ → ℕ → ℕ → ℕ → Hook W
  pub hook_destablish : ℕ → Hook W
  pub hook_send : ℕ → ℕ → List ℕ → ℕ → Hook (W × ℕ)
  pub hook_ingress : ℕ → Hook W
  pub hook_net_init : W → W
  pub sequence : ℕ

-- `HOOK_DROP` breaks out of a path's loop.
abbrev pub after : {W : Type 0} → W × HookStatus → (W → W) → W
after (w, hook_continue) rest = rest w
after (w, hook_drop) rest = w

-- The hooks of the base class.
abbrev pub keep : {W : Type 0} → Hook W
keep w = (w, hook_continue)

module _ {W : Type 0} where
  -- `register_module`: `m_sequence` is the index of the module.
  unfoldable pub register_module : List (Module W) → Module W → List (Module W)
  register_module ms m = ms ++ record m { sequence = length ms } ∷ []

-- A loop of a path: `i` counts up from where it starts, and `left` rounds are left. An index past
-- the end ends the loop too. The reliable and signaling modules start it behind themselves.
module _ {M W : Type 0} (hook : M → Hook W) (ms : List M) where
  pub run_up : ℕ → ℕ → W → W
  run_up zero i w = w
  run_up (suc left) i w = elim (get_elem? ms i) [
    | none ↦ w
    | some m ↦ after (hook m w) (λ w'. run_up left (i + 1) w')
  ]

  -- The loop of the ingress path: from `i = count - 1` down to 0.
  pub run_down : ℕ → W → W
  run_down zero w = w
  run_down (suc i) w = elim (get_elem? ms i) [
    | none ↦ w
    | some m ↦ after (hook m w) (λ w'. run_down i w')
  ]

module _ {W : Type 0} (ms : List (Module W)) where
  pub run_establish_path : ℕ → ℕ → ℕ → ℕ → W → W
  run_establish_path conn host_id app_id src_app_id =
      run_up (λ m. m.hook_establish conn host_id app_id src_app_id) ms (length ms) 0

  pub run_destablish_path : ℕ → W → W
  run_destablish_path conn = run_up (λ m. m.hook_destablish conn) ms (length ms) 0

  -- `p` is the buffer that `request_send_buffer` returned; the second result is `ret_len`.
  pub run_send_path : ℕ → ℕ → List ℕ → ℕ → W → W × ℕ
  run_send_path conn p buff len w =
      run_up (λ m. m.hook_send conn p buff len) ms (length ms) 0 (w, 0)

  pub run_ingress_path : ℕ → W → W
  run_ingress_path p = run_down (λ m. m.hook_ingress p) ms (length ms)

unfoldable pub net_init_loop : {W : Type 0} → List (Module W) → W → W
net_init_loop [] w = w
net_init_loop (m ∷ ms) w = net_init_loop ms (m.hook_net_init w)

unfoldable pub run_net_init_path : {W : Type 0} → List (Module W) → W → W
unfolding net_init_loop
run_net_init_path = net_init_loop

-- `compat_level_t`
pub data CompatLevel : Type 0 where
  no_compat eth_compat ip_compat udp_compat tcp_compat : CompatLevel

abbrev is_level : CompatLevel → CompatLevel → Bool
is_level no_compat no_compat = true
is_level eth_compat eth_compat = true
is_level ip_compat ip_compat = true
is_level udp_compat udp_compat = true
is_level tcp_compat tcp_compat = true
is_level _ _ = false

unfoldable pub is_eth_compat : CompatLevel → Bool
is_eth_compat c =
    is_level c eth_compat || is_level c ip_compat || is_level c udp_compat || is_level c tcp_compat

unfoldable pub is_ip_compat : CompatLevel → Bool
is_ip_compat c = is_level c ip_compat || is_level c udp_compat || is_level c tcp_compat

unfoldable pub is_udp_compat : CompatLevel → Bool
is_udp_compat c = is_level c udp_compat
