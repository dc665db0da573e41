-- ===== src/Protocol/OnByte.antt =====
-- Where the members of packets lie without custom ranges: one after another, each on a byte.
use net_blocks.Base.{
  ℕ, ◌+◌, ◌/◌, ◌%◌, ◌≡◌, refl, sym, subst, Bool, true, false, ◌&&◌, none, some, List, [], ◌∷◌,
  String, ◌==◌, ==_iff, inl, inr, Option-cases,
}
use net_blocks.Packet.{align_to, get_size, place, get_addr}
use net_blocks.Layout.{
  Entry, Layout, insert, lookup, push_name, add_member, fix_layout, link_groups, link_group,
  set_prev, offset_of, back, last_of, get_total_size, get_headroom, get_member, address_of,
}
use net_blocks.Layout.Chain.{all_names}
use net_blocks.Framework.{CompatLevel, is_eth_compat, is_ip_compat, is_udp_compat}
use net_blocks.Inorder.{InorderStrategy}
use net_blocks.Protocol.Settings.{Config}
use net_blocks.Protocol.Modules.{
  Protocol, integer_of, init_signaling, init_inorder, init_reliable, register_identifier,
  init_signaling_after, init_routing, init_checksum, init_network,
}
use net_blocks.Protocol.{init_protocol}
use net_blocks.Protocol.Cases.{
  for_bools, for_levels, for_strategies, for_settings, for_settings-true, with_payload, built,
  laid_out, with_settings, &&-both,
}
use net_blocks.Protocol.Sizes.{
  HasNoRange, plain_len, plain_host, plain_app, init_protocol-plain, holds, holds-some,
  unsent_bytes, header_bytes, init_protocol-sizes,
}

-- The members of these names lie at `at` and behind, in whole bytes and without gaps, up to the end.
abbrev pub IsPacked : Layout → ℕ → List String → Type 0
IsPacked p at [] = get_total_size p ≡ some at
IsPacked p at (name ∷ names) =
    (e : Entry) × (get_member p name ≡ some e)
    × (address_of p name 0 ≡ some at)
    × (get_size e.member % 8 ≡ 0)
    × IsPacked p (at + get_size e.member / 8) names

packed : Layout → ℕ → List String → Bool
packed p at [] = holds (get_total_size p) at
packed p at (name ∷ names) = elim (get_member p name) [
  | none ↦ false
  | some e ↦
      (get_size e.member % 8 == 0)
      && (holds (address_of p name 0) at && packed p (at + get_size e.member / 8) names)
]

packed-IsPacked :
    (p : Layout) (at : ℕ) (names : List String) → packed p at names ≡ true → IsPacked p at names
unfolding packed
packed-IsPacked p at [] h = holds-some _ _ h
packed-IsPacked p at (name ∷ names) h = elim (Option-cases (get_member p name)) [
  | inl e ↦ cc (rw (e, packed) at h)
  | inr (d, e) ↦
      let (size, rest) = &&-both (get_size d.member % 8 == 0) _ (rw (e, packed) at h) in
      let (here, behind) = &&-both (holds (address_of p name 0) at) _ rest in
      (
        d,
        e,
        holds-some _ _ here,
        (==_iff _ 0).0 size,
        packed-IsPacked p (at + get_size d.member / 8) names behind,
      )
]

packed_test : Config → CompatLevel → InorderStrategy → Bool → Bool → Bool → Bool → Bool
packed_test c l t rel rou sum sig =
    let p =
      (laid_out (with_settings c l t rel rou sum sig) plain_len plain_host plain_app).net_packet in
    packed p 0 (all_names p.registered)

packed_checked : (c : Config) → for_settings (packed_test c) ≡ true
unfolding for_settings for_bools for_levels for_strategies packed_test packed holds address_of
    get_member get_addr laid_out built with_payload init_signaling init_inorder init_reliable
    register_identifier init_signaling_after init_routing init_checksum init_network is_eth_compat
    is_ip_compat is_udp_compat insert lookup push_name add_member fix_layout link_groups link_group
    set_prev offset_of get_size place get_total_size back last_of align_to integer_of
packed_checked c = refl

-- Without custom ranges, whatever the other settings: the members of a packet fill it from its first
-- byte to its last, in the order of their groups and without gaps or overlaps, and each starts on a byte.
-- The headroom, which is not sent, has 16 bytes and 8 more with reliability; the members that are sent have
-- the bytes that `header_bytes` adds up, some for each feature that is on, and one byte more for `payload`.
pub init_protocol-IsPacked :
    (c : Config) (s : Protocol)
    → HasNoRange c
    → init_protocol c ≡ some s
    → IsPacked s.net_packet 0 (all_names s.net_packet.registered)
      × (get_headroom s.net_packet ≡ some (unsent_bytes c))
      × (get_total_size s.net_packet ≡ some (unsent_bytes c + header_bytes c + 1))
unfolding packed_test
init_protocol-IsPacked c s n h =
    let p = (laid_out c plain_len plain_host plain_app).net_packet in
    let (room, size) = init_protocol-sizes c s n h in
    (
      subst (λ (u : Protocol). IsPacked u.net_packet 0 (all_names u.net_packet.registered))
          (sym (init_protocol-plain c s n h))
          (packed-IsPacked p 0 (all_names p.registered) (
            for_settings-true (packed_test c) c.compat_level c.inorder_strategy c.reliability
              c.routing c.checksum c.signaling (packed_checked c))),
      room,
      size,
    )
