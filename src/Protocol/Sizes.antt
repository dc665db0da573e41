-- ===== src/Protocol/Sizes.antt =====
-- The sizes of headers without custom ranges, for all configurations.
use net_blocks.Base.{
  ℕ, ◌+◌, ◌≡◌, refl, sym, subst, ap, ◌∙◌, Bool, true, false, ◌&&◌, Option, none, some, inl, inr,
  ◌==◌, ==_iff, Bool-cases, if◌then◌else◌,
}
use net_blocks.Packet.{align_to, IntegerMember, get_size, place}
use net_blocks.Layout.{
  insert, lookup, push_name, add_member, fix_layout, link_groups, link_group, set_prev, offset_of,
  back, last_of, group_at, first_of_group, get_total_size, group_start_offset, get_headroom,
}
use net_blocks.Framework.{CompatLevel, is_eth_compat, is_ip_compat, is_udp_compat}
use net_blocks.Inorder.{InorderStrategy}
use net_blocks.Protocol.Settings.{Config}
use net_blocks.Protocol.Modules.{
  Protocol, integer_of, has_sequence, has_range, id_member, host_member, app_member,
  total_len_member, init_signaling, init_inorder, init_reliable, register_identifier,
  init_signaling_after, init_routing, init_checksum, init_network, is_hold_forever,
}
use net_blocks.Protocol.{init_protocol}
use net_blocks.Protocol.Cases.{
  for_bools, for_levels, for_strategies, for_settings, for_settings-true, with_payload, built,
  laid_out, init_protocol-laid_out, with_settings, agree-eq,
}

-- No custom range is set.
pub record HasNoRange (c : Config) : Type 0 where
  pub host_min : c.host_range_min ≡ 0
  pub host_max : c.host_range_max ≡ 0
  pub app_min : c.app_range_min ≡ 0
  pub app_max : c.app_range_max ≡ 0
  pub max_len : c.max_packet_len ≡ 0

abbrev pub plain_len : IntegerMember
plain_len = integer_of 4 true true

abbrev pub plain_host : IntegerMember
plain_host = record (integer_of 8 false true) { bit_size = 48 }

abbrev pub plain_app : IntegerMember
plain_app = integer_of 2 false false

laid_out-ip :
    (c : Config) (t u host app : IntegerMember)
    → is_ip_compat c.compat_level ≡ true
    → laid_out c t host app ≡ laid_out c u host app
unfolding laid_out built with_payload
laid_out-ip c t u host app ip = rw ip refl

host_member-plain : (c : Config) → HasNoRange c → host_member c ≡ some plain_host
unfolding host_member id_member has_range
host_member-plain c n = rw (n.host_min, n.host_max) refl

app_member-plain : (c : Config) → HasNoRange c → app_member c ≡ some plain_app
unfolding app_member id_member has_range
app_member-plain c n = rw (n.app_min, n.app_max) refl

total_len_member-plain : (c : Config) → HasNoRange c → total_len_member c ≡ some plain_len
unfolding total_len_member
total_len_member-plain c n = rw (n.max_len) refl

pub init_protocol-plain :
    (c : Config) (s : Protocol)
    → HasNoRange c
    → init_protocol c ≡ some s
    → s ≡ laid_out c plain_len plain_host plain_app
init_protocol-plain c s n h =
    let (t, host, app, is_len, is_host, is_app, e) = init_protocol-laid_out c s h in
    let same_host : host ≡ plain_host = cc (is_host, host_member-plain c n) in
    let same_app : app ≡ plain_app = cc (is_app, app_member-plain c n) in
    let ids : laid_out c t host app ≡ laid_out c t plain_host plain_app =
      cc (same_host, same_app) in
    elim (Bool-cases (is_ip_compat c.compat_level)) [
      | inl ip ↦ e ∙ ids ∙ laid_out-ip c t plain_len plain_host plain_app ip
      | inr ip ↦
          e
          ∙ ids
          ∙ ap (λ u. laid_out c u plain_host plain_app) (cc (is_len ip, total_len_member-plain c n))
    ]

-- The bytes of the members that are not sent, and of those that are sent before the payload.
unfoldable pub unsent_bytes : Config → ℕ
unsent_bytes c = 16 + (if c.reliability then 8 else 0)

unfoldable pub header_bytes : Config → ℕ
header_bytes c =
    12
    + (if is_eth_compat c.compat_level then 2 else 0)
    + (if c.routing then 8 + (if is_ip_compat c.compat_level then 12 else 0) else 0)
    + (4 + (if is_udp_compat c.compat_level then 4 else 0))
    + (if is_ip_compat c.compat_level then 0 else 4)
    + (if has_sequence c then 4 else 0)
    + (if c.reliability then 4 else 0)
    + (if c.checksum then 2 else 0)

unfoldable pub holds : Option ℕ → ℕ → Bool
holds none n = false
holds (some m) n = m == n

pub holds-some : (o : Option ℕ) (n : ℕ) → holds o n ≡ true → o ≡ some n
unfolding holds
holds-some none n h = cc
holds-some (some m) n h = ap some ((==_iff m n).0 h)

-- The settings that a layout depends on.
abbrev pub at_settings :
    (CompatLevel → InorderStrategy → Bool → Bool → Bool → Bool → Bool) → Config → Bool
at_settings p c = p c.compat_level c.inorder_strategy c.reliability c.routing c.checksum c.signaling

sizes_test : Config → CompatLevel → InorderStrategy → Bool → Bool → Bool → Bool → Bool
sizes_test c l t rel rou sum sig =
    let c' = with_settings c l t rel rou sum sig in
    let p = (laid_out c' plain_len plain_host plain_app).net_packet in
    holds (get_headroom p) (unsent_bytes c')
    && holds (get_total_size p) (unsent_bytes c' + header_bytes c' + 1)

sizes_checked : (c : Config) → for_settings (sizes_test c) ≡ true
unfolding for_settings for_bools for_levels for_strategies sizes_test holds unsent_bytes
    header_bytes laid_out built with_payload init_signaling init_inorder init_reliable
    register_identifier init_signaling_after init_routing init_checksum init_network is_hold_forever
    has_sequence is_eth_compat is_ip_compat is_udp_compat insert lookup push_name add_member
    fix_layout link_groups link_group set_prev offset_of get_size place get_total_size get_headroom
    group_start_offset back last_of group_at first_of_group align_to integer_of
sizes_checked c = refl

-- The headroom and the size of a packet.
pub init_protocol-sizes :
    (c : Config) (s : Protocol)
    → HasNoRange c
    → init_protocol c ≡ some s
    → (get_headroom s.net_packet ≡ some (unsent_bytes c))
      × (get_total_size s.net_packet ≡ some (unsent_bytes c + header_bytes c + 1))
unfolding sizes_test
init_protocol-sizes c s n h =
    let all : at_settings (sizes_test c) c ≡ true =
      for_settings-true (sizes_test c) c.compat_level c.inorder_strategy c.reliability c.routing
        c.checksum c.signaling (sizes_checked c) in
    let p = (laid_out c plain_len plain_host plain_app).net_packet in
    let (room, size) =
      agree-eq true (holds (get_headroom p) (unsent_bytes c))
        (holds (get_total_size p) (unsent_bytes c + header_bytes c + 1)) all in
    subst
      (λ (u : Protocol).
        (get_headroom u.net_packet ≡ some (unsent_bytes c))
        × (get_total_size u.net_packet ≡ some (unsent_bytes c + header_bytes c + 1)))
      (sym (init_protocol-plain c s n h)) (holds-some _ _ (sym room), holds-some _ _ size)
