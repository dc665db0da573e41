-- ===== src/Protocol/Cases.antt =====
-- Checks of all values of the settings that a layout depends on, and what `init_modules` gives
-- once the ranges are there.
use net_blocks.Base.{
  ◌≡◌, refl, Bool, true, false, not, ◌&&◌, some, [], ◌∷◌, arith, if◌then◌else◌, Bool-cases,
  Option-cases, inl, inr, ap,
}
use net_blocks.Packet.{IntegerMember, integer}
use net_blocks.Layout.{fix_layout}
use net_blocks.Framework.{
  CompatLevel, no_compat, eth_compat, ip_compat, udp_compat, tcp_compat, is_ip_compat,
}
use net_blocks.Inorder.{InorderStrategy, drop_out_of_order, hold_forever, no_inorder}
use net_blocks.Protocol.Settings.{Config}
use net_blocks.Protocol.Modules.{
  Protocol, payload_module, integer_of, inorder_module, add, register, signed_member,
  init_interface, total_len_member, init_payload, init_signaling, init_inorder, init_reliable,
  host_member, app_member, register_identifier, init_identifier, init_signaling_after, init_routing,
  init_checksum, init_network,
}
use net_blocks.Protocol.{no_protocol, init_modules, init_protocol}

-- Two truth values agree, and a further one is true.
abbrev pub agree : Bool → Bool → Bool
agree true b = b
agree false b = not b

pub agree-eq : (a b c : Bool) → (agree a b && c) ≡ true → (a ≡ b) × (c ≡ true)
agree-eq true true c h = (refl, h)
agree-eq true false c h = cc
agree-eq false true c h = cc
agree-eq false false c h = (refl, h)

pub &&-both : (a b : Bool) → (a && b) ≡ true → (a ≡ true) × (b ≡ true)
&&-both true b h = (refl, h)
&&-both false b h = cc

unfoldable pub for_bools : (Bool → Bool) → Bool
for_bools p = p true && p false

unfoldable pub for_levels : (CompatLevel → Bool) → Bool
for_levels p = p no_compat && (p eth_compat && (p ip_compat && (p udp_compat && p tcp_compat)))

unfoldable pub for_strategies : (InorderStrategy → Bool) → Bool
for_strategies p = p drop_out_of_order && (p hold_forever && p no_inorder)

for_bools-true : (p : Bool → Bool) (b : Bool) → for_bools p ≡ true → p b ≡ true
unfolding for_bools
for_bools-true p true h = ground arith
for_bools-true p false h = ground arith

for_levels-true : (p : CompatLevel → Bool) (l : CompatLevel) → for_levels p ≡ true → p l ≡ true
unfolding for_levels
for_levels-true p no_compat h = ground arith
for_levels-true p eth_compat h = ground arith
for_levels-true p ip_compat h = ground arith
for_levels-true p udp_compat h = ground arith
for_levels-true p tcp_compat h = ground arith

for_strategies-true :
    (p : InorderStrategy → Bool) (t : InorderStrategy) → for_strategies p ≡ true → p t ≡ true
unfolding for_strategies
for_strategies-true p drop_out_of_order h = ground arith
for_strategies-true p hold_forever h = ground arith
for_strategies-true p no_inorder h = ground arith

-- A test of the six settings holds for all their values.
unfoldable pub for_settings :
    (CompatLevel → InorderStrategy → Bool → Bool → Bool → Bool → Bool) → Bool
for_settings p = for_levels λ l.
    for_strategies
      λ t. for_bools λ rel. for_bools λ rou. for_bools λ sum. for_bools λ sig. p l t rel rou sum sig

pub for_settings-true :
    (p : CompatLevel → InorderStrategy → Bool → Bool → Bool → Bool → Bool) (l : CompatLevel)
    (t : InorderStrategy) (rel rou sum sig : Bool)
    → for_settings p ≡ true
    → p l t rel rou sum sig ≡ true
unfolding for_settings
for_settings-true p l t rel rou sum sig h = for_bools-true (p l t rel rou sum) sig (
    for_bools-true (λ sum. for_bools (p l t rel rou sum)) sum
      (for_bools-true (λ rou. for_bools λ sum. for_bools (p l t rel rou sum)) rou
        (for_bools-true (λ rel. for_bools λ rou. for_bools λ sum. for_bools (p l t rel rou sum)) rel
          (for_strategies-true
            (λ t. for_bools λ rel. for_bools λ rou. for_bools λ sum. for_bools (p l t rel rou sum))
            t
            (for_levels-true
              (λ l. for_strategies λ t.
                for_bools λ rel. for_bools λ rou. for_bools λ sum. for_bools (p l t rel rou sum))
              l h)))))

-- What `init_payload` gives with the member for the length.
unfoldable pub with_payload : Config → IntegerMember → Protocol
unfolding init_interface add register signed_member
with_payload c t =
    let s = add "payload" (signed_member 1) 5 (init_interface no_protocol) in
    let ingress = inorder_module ∷ [] in
    if is_ip_compat c.compat_level
    then register payload_module [] ingress s
    else register payload_module [] ingress (add "total_len" (integer t) 4 s)

-- What `init_modules` gives with the members that may have a range.
unfoldable pub built : Config → IntegerMember → IntegerMember → IntegerMember → Protocol
built c t host app =
    let s = init_reliable c (init_inorder c (init_signaling (with_payload c t))) in
    init_network
      (init_checksum c (init_routing c (init_signaling_after (register_identifier c host app s))))

identifier_of :
    (c : Config) (s s' : Protocol)
    → init_identifier c s ≡ some s'
    → (host : IntegerMember) × (app : IntegerMember) × (host_member c ≡ some host)
      × (app_member c ≡ some app)
      × (s' ≡ register_identifier c host app s)
unfolding init_identifier
identifier_of c s s' h = elim (Option-cases (host_member c)) [
  | inl e ↦ ground (arith, e)
  | inr (host, e) ↦ elim (Option-cases (app_member c)) [
    | inl e' ↦ ground (arith, e, e')
    | inr (app, e') ↦ (host, app, e, e', ground (arith, e, e'))
  ]
]

payload_of :
    (c : Config) (s : Protocol)
    → init_payload c (init_interface no_protocol) ≡ some s
    → (t : IntegerMember) × (is_ip_compat c.compat_level ≡ false → total_len_member c ≡ some t)
      × (s ≡ with_payload c t)
unfolding init_payload with_payload
payload_of c s h = elim (Bool-cases (is_ip_compat c.compat_level)) [
  | inl ip ↦ (integer_of 4 true true, (λ e. ground (arith, ip, e)), ground (arith, ip))
  | inr ip ↦ elim (Option-cases (total_len_member c)) [
    | inl e ↦ ground (arith, ip, e)
    | inr (t, e) ↦ (t, (λ _. e), ground (arith, ip, e))
  ]
]

init_modules-built :
    (c : Config) (s : Protocol)
    → init_modules c ≡ some s
    → (t : IntegerMember) × (host : IntegerMember) × (app : IntegerMember) × (is_ip_compat
            c.compat_level
          ≡ false
        → total_len_member c ≡ some t)
      × (host_member c ≡ some host)
      × (app_member c ≡ some app)
      × (s ≡ built c t host app)
unfolding init_modules built
init_modules-built c s h = elim (Option-cases (init_payload c (init_interface no_protocol))) [
  | inl e ↦ ground (arith, e)
  | inr (s₁, e) ↦
      let (t, ranged, is_t) = payload_of c s₁ e in
      let before = init_reliable c (init_inorder c (init_signaling s₁)) in
      elim (Option-cases (init_identifier c before)) [
        | inl e' ↦ ground (arith, e, e')
        | inr (s₂, e') ↦
            let (host, app, found, found', is_ids) = identifier_of c before s₂ e' in
            (t, host, app, ranged, found, found', cc (rw (e, e') at h, is_t, is_ids))
      ]
]

-- The same after `fix_layout`.
unfoldable pub laid_out : Config → IntegerMember → IntegerMember → IntegerMember → Protocol
laid_out c t host app =
    let s = built c t host app in record s { net_packet = fix_layout s.net_packet }

pub init_protocol-laid_out :
    (c : Config) (s : Protocol)
    → init_protocol c ≡ some s
    → (t : IntegerMember) × (host : IntegerMember) × (app : IntegerMember) × (is_ip_compat
            c.compat_level
          ≡ false
        → total_len_member c ≡ some t)
      × (host_member c ≡ some host)
      × (app_member c ≡ some app)
      × (s ≡ laid_out c t host app)
unfolding init_protocol laid_out
init_protocol-laid_out c s h = elim (Option-cases (init_modules c)) [
  | inl e ↦ ground (arith, e)
  | inr (s', e) ↦
      let (t, host, app, ranged, found, found', is_built) = init_modules-built c s' e in
      (
        t,
        host,
        app,
        ranged,
        found,
        found',
        cc (
          rw e at h,
          ap (λ (u : Protocol). record u { net_packet = fix_layout u.net_packet }) is_built,
        ),
      )
]

-- The configuration with other settings.
abbrev pub with_settings :
    Config → CompatLevel → InorderStrategy → Bool → Bool → Bool → Bool → Config
with_settings c l t rel rou sum sig = record c {
  compat_level = l;
  inorder_strategy = t;
  reliability = rel;
  routing = rou;
  checksum = sum;
  signaling = sig;
}
