-- ===== src/Protocol/Order.antt =====
-- The order in which src/impls/simple.cpp initializes the modules, and the dependencies that they
-- declare: the paths of src/core/framework.cpp run the hooks in that order, or backwards.
use mathlib.Core.List.{reverse}
use net_blocks.Base.{
  ℕ, ◌≡◌, refl, sym, subst, Bool, true, not, ◌&&◌, some, List, [], ◌∷◌, ◌++◌, map, ◌==◌,
  if◌then◌else◌,
}
use net_blocks.Packet.{IntegerMember}
use net_blocks.Framework.{CompatLevel, is_eth_compat, is_ip_compat, is_udp_compat}
use net_blocks.Framework.Schedule.{is_scheduled, all_satisfied}
use net_blocks.Inorder.{InorderStrategy}
use net_blocks.Protocol.Settings.{Config}
use net_blocks.Protocol.Modules.{
  Registration, Protocol, init_signaling, init_inorder, init_reliable, register_identifier,
  init_signaling_after, init_routing, init_checksum, init_network, is_hold_forever,
}
use net_blocks.Protocol.{init_protocol}
use net_blocks.Protocol.Cases.{
  for_bools, for_levels, for_strategies, for_settings, for_settings-true, with_payload, built,
  laid_out, init_protocol-laid_out, with_settings, agree, agree-eq,
}

-- What a module depends on, by one of the fields of its registration.
unfoldable pub depends_of : (Registration → List ℕ) → List Registration → ℕ → List ℕ
depends_of field [] m = []
depends_of field (r ∷ rs) m = if r.name == m then field r else depends_of field rs m

-- Each module of the list stands behind the modules that it depends on, and none stands twice.
unfoldable pub is_in_order : (ℕ → List ℕ) → List ℕ → List ℕ → Bool
is_in_order depends path [] = true
is_in_order depends path (m ∷ ms) =
    (not (is_scheduled m path) && all_satisfied (depends m) path)
    && is_in_order depends (path ++ m ∷ []) ms

unfoldable pub names : Protocol → List ℕ
names s = map (λ r. r.name) s.registered

-- The paths that run forwards, by the field of their dependencies, and the ingress path.
unfoldable pub runs_in_order : (Registration → List ℕ) → Protocol → Bool
runs_in_order field s = is_in_order (depends_of field s.registered) [] (names s)

unfoldable pub ingress_in_order : Protocol → Bool
ingress_in_order s =
    is_in_order (depends_of (λ r. r.ingress_depends) s.registered) [] (reverse (names s))

order_test :
    Config
    → IntegerMember
    → IntegerMember
    → IntegerMember
    → CompatLevel
    → InorderStrategy
    → Bool
    → Bool
    → Bool
    → Bool
    → Bool
order_test c len host app l t rel rou sum sig =
    let s = laid_out (with_settings c l t rel rou sum sig) len host app in
    agree (runs_in_order (λ r. r.establish_depends) s) (rel && sum)
    && (agree (runs_in_order (λ r. r.destablish_depends) s) (rel && sum)
        && (agree (runs_in_order (λ r. r.send_depends) s) (rel && sum)
            && (agree (ingress_in_order s) (rel && sum) && true)))

order_checked :
    (c : Config) (len host app : IntegerMember) → for_settings (order_test c len host app) ≡ true
unfolding for_settings for_bools for_levels for_strategies order_test runs_in_order ingress_in_order
    names is_in_order depends_of is_scheduled all_satisfied laid_out built with_payload
    init_signaling init_inorder init_reliable register_identifier init_signaling_after init_routing
    init_checksum init_network is_hold_forever is_eth_compat is_ip_compat is_udp_compat
order_checked c len host app = refl

-- Whatever the configuration, the order in which the modules are registered satisfies the dependencies
-- of the establish, destablish and send paths, and the opposite order those of the ingress path,
-- exactly if the reliable and the checksum modules are enabled: other modules depend on these two.
pub init_protocol-in_order :
    (c : Config) (s : Protocol)
    → init_protocol c ≡ some s
    → (runs_in_order (λ r. r.establish_depends) s ≡ (c.reliability && c.checksum))
      × (runs_in_order (λ r. r.destablish_depends) s ≡ (c.reliability && c.checksum))
      × (runs_in_order (λ r. r.send_depends) s ≡ (c.reliability && c.checksum))
      × (ingress_in_order s ≡ (c.reliability && c.checksum))
unfolding order_test
init_protocol-in_order c s h =
    let (len, host, app, _, _, _, e) = init_protocol-laid_out c s h in
    let both = c.reliability && c.checksum in
    let checked =
      for_settings-true (order_test c len host app) c.compat_level c.inorder_strategy c.reliability
        c.routing c.checksum c.signaling (order_checked c len host app) in
    let (establish, rest) = agree-eq _ both _ checked in
    let (destablish, rest') = agree-eq _ both _ rest in
    let (send, rest'') = agree-eq _ both _ rest' in
    let (ingress, _) = agree-eq _ both _ rest'' in
    subst
      (λ u.
        (runs_in_order (λ r. r.establish_depends) u ≡ both)
        × (runs_in_order (λ r. r.destablish_depends) u ≡ both)
        × (runs_in_order (λ r. r.send_depends) u ≡ both)
        × (ingress_in_order u ≡ both))
      (sym e) (establish, destablish, send, ingress)
