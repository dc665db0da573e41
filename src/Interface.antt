-- ===== src/Interface.antt =====
-- src/modules/interface_module.cpp, and the functions of src/core/impl.cpp that the stack is generated
-- from: `nb__establish`, `nb__destablish`, `nb__send`, `nb__run_ingress_step` and `nb__net_init`. They act
-- on the common state `W` of the modules.
mod Calls
mod Examples
use net_blocks.Base.{ℕ, List}
use net_blocks.Framework.{
  Module, run_establish_path, run_destablish_path, run_send_path, run_ingress_path,
  run_net_init_path,
}

-- The runtime, and the member `callback_f` of a connection. A callback is a pointer.
pub record Runtime (W : Type 0) : Type 0 where
  pub malloc : W → ℕ × W
  pub free : ℕ → W → W
  pub set_callback : ℕ → ℕ → W → W
  pub request_send_buffer : W → ℕ × W
  pub init_timers : W → W

module _ {W : Type 0} (k : Runtime W) (modules : List (Module W)) where
  unfoldable pub establish_impl : ℕ → ℕ → ℕ → ℕ → W → ℕ × W
  establish_impl host_id app_id ca callback w =
      let (c, w') = k.malloc w in
      (c, run_establish_path modules c host_id app_id ca (k.set_callback c callback w'))

  unfoldable pub destablish_impl : ℕ → W → W
  destablish_impl c w = k.free c (run_destablish_path modules c w)

  -- The buffer is requested by `run_send_path`.
  unfoldable pub send_impl : ℕ → List ℕ → ℕ → W → W × ℕ
  send_impl c buff len w =
      let (p, w') = k.request_send_buffer w in run_send_path modules c p buff len w'

  unfoldable pub net_init_impl : W → W
  net_init_impl w = run_net_init_path modules (k.init_timers w)

-- The length is not used.
unfoldable pub run_ingress_step : {W : Type 0} → List (Module W) → ℕ → ℕ → W → W
run_ingress_step modules p len = run_ingress_path modules p
