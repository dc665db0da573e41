-- ===== src/Interface/Calls.antt =====
-- What the functions of the stack do, in terms of the hooks of the registered modules.
use mathlib.Core.List.{reverse}
use net_blocks.Base.{ℕ, ◌≡◌, refl, ap, List, [], ◌∷◌, map}
use net_blocks.Framework.{Module, hook_continue, run_net_init_path, net_init_loop}
use net_blocks.Framework.Paths.{run_path, paths_order}
use net_blocks.Interface.{
  Runtime, establish_impl, destablish_impl, send_impl, net_init_impl, run_ingress_step,
}

net_init_loop-run_path :
    {W : Type 0} (ms : List (Module W)) (w : W)
    → net_init_loop ms w ≡ run_path (map (λ m v. (m.hook_net_init v, hook_continue)) ms) w
unfolding net_init_loop run_path
net_init_loop-run_path [] w = refl
net_init_loop-run_path (m ∷ ms) w = net_init_loop-run_path ms (m.hook_net_init w)

-- Establishing runs the establish hooks, in the order in which the modules were registered, on the connection
-- that `malloc` gives, with its callback set, and returns it. Closing runs the destablish hooks in that order
-- and then frees the connection. Sending runs the send hooks in that order on the buffer that is requested, with
-- a length to return of 0, and returns what they make of it. A packet that is received runs through the ingress
-- hooks in the opposite order. All these stop at the first drop. At the start the timers are initialized, and then
-- every module.
pub interface_calls :
    {W : Type 0} (k : Runtime W) (ms : List (Module W)) (c h a ca callback p len : ℕ)
    (buff : List ℕ) (w : W)
    → (establish_impl k ms h a ca callback w ≡ (
        let (new, w') = k.malloc w in
        (
          new,
          run_path (map (λ m. m.hook_establish new h a ca) ms) (k.set_callback new callback w'),
        )))
      × (destablish_impl k ms c w ≡ k.free c (run_path (map (λ m. m.hook_destablish c) ms) w))
      × (send_impl k ms c buff len w ≡ (
          let (sent, w') = k.request_send_buffer w in
          run_path (map (λ m. m.hook_send c sent buff len) ms) (w', 0)))
      × (run_ingress_step ms p len w ≡ run_path (map (λ m. m.hook_ingress p) (reverse ms)) w)
      × (net_init_impl k ms w
          ≡ run_path (map (λ m v. (m.hook_net_init v, hook_continue)) ms) (k.init_timers w))
unfolding establish_impl destablish_impl send_impl net_init_impl run_ingress_step run_net_init_path
interface_calls {W} k ms c h a ca callback p len buff w =
    let (new, made) = k.malloc w in
    let (sent, given) = k.request_send_buffer w in
    (
      ap (λ (u : W). (new, u))
          ((paths_order ms new h a ca p len buff (k.set_callback new callback made)).0),
      ap (k.free c) ((paths_order ms c h a ca p len buff w).1),
      (paths_order ms c h a ca sent len buff given).2,
      (paths_order ms c h a ca p len buff w).3,
      net_init_loop-run_path ms (k.init_timers w),
    )
