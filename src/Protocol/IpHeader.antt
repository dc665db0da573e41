-- ===== src/Protocol/IpHeader.antt =====
-- The members of the IP header as the modules register them, against the numbers that
-- src/modules/routing_module.cpp counts on: 14 bytes in front of the header, and 28 with the UDP header.
use net_blocks.Base.{
  ℕ, ◌+◌, ◌<◌, ◌≡◌, refl, sym, subst, ap, ◌∙◌, Bool, true, false, not, ◌&&◌, ◌||◌, Option, some,
  List, [], ◌∷◌, String, arith, ◌==◌, inl, inr, Bool-cases, if◌then◌else◌,
}
use net_blocks.Packet.{align_to, get_size, place, get_addr, ◌>>=◌}
use net_blocks.Packet.Bytes.{Memory}
use net_blocks.Layout.{
  Layout, insert, lookup, push_name, add_member, fix_layout, link_groups, link_group, set_prev,
  offset_of, get_member, address_of,
}
use net_blocks.Framework.{CompatLevel, is_eth_compat, is_ip_compat, is_udp_compat}
use net_blocks.Inorder.{InorderStrategy}
use net_blocks.Routing.{ByteOrder, IpLayout, do_ip_checksum, hook_send, ingress_len}
use net_blocks.Routing.Checksum.{IsByteOrder}
use net_blocks.Routing.Header.{IsContiguous, hook_send-valid}
use net_blocks.Protocol.Settings.{Config}
use net_blocks.Protocol.Modules.{
  Protocol, integer_of, has_sequence, init_signaling, init_inorder, init_reliable,
  register_identifier, init_signaling_after, init_routing, init_checksum, init_network,
  is_hold_forever, is_no_inorder,
}
use net_blocks.Protocol.{init_protocol}
use net_blocks.Protocol.Cases.{
  for_bools, for_levels, for_strategies, for_settings, for_settings-true, with_payload, built,
  laid_out, with_settings, agree, agree-eq,
}
use net_blocks.Protocol.Sizes.{
  HasNoRange, plain_len, plain_host, plain_app, init_protocol-plain, unsent_bytes, header_bytes,
  holds, holds-some, at_settings,
}

-- The addresses of the members that the routing module names.
unfoldable pub ip_layout_of : Layout → Option IpLayout
ip_layout_of l = do
  vide ← address_of l "ip_VIDE" 0
  total_len ← address_of l "ip_total_len" 0
  iff ← address_of l "ip_IFF" 0
  ttl ← address_of l "ip_ttl" 0
  protocol ← address_of l "ip_protocol" 0
  header_checksum ← address_of l "ip_header_checksum" 0
  dst ← address_of l "dst_global_id" 0
  src ← address_of l "src_global_id" 0
  some (record {
    vide = vide;
    total_len = total_len;
    iff = iff;
    ttl = ttl;
    protocol = protocol;
    header_checksum = header_checksum;
    dst_global_id = dst;
    src_global_id = src;
  })

-- A header of 20 bytes behind the 14 of the frame, whose members follow one another.
abbrev header_at : ℕ → IpLayout
header_at n = record {
  vide = n + 14;
  total_len = n + 16;
  iff = n + 18;
  ttl = n + 22;
  protocol = n + 23;
  header_checksum = n + 24;
  dst_global_id = n + 26;
  src_global_id = n + 30;
}

-- What is sent between the IP header and the payload has 8 bytes: the ports with either the rest
-- of the UDP header or a sequence number, and nothing else.
unfoldable pub counts_right : Config → Bool
counts_right c =
    (if is_udp_compat c.compat_level then not (has_sequence c) else has_sequence c)
    && (not c.reliability && not c.checksum)

-- Members with the places that the routing module takes them to have.
abbrev ip_places : List (String × ℕ)
ip_places =
    ("ip_VIDE", 14)
    ∷ ("ip_total_len", 16)
    ∷ ("ip_IFF", 18)
    ∷ ("ip_ttl", 22)
    ∷ ("ip_protocol", 23)
    ∷ ("ip_header_checksum", 24)
    ∷ ("dst_global_id", 26)
    ∷ ("src_global_id", 30)
    ∷ ("dst_app_id", 34)
    ∷ []

all_placed : Layout → ℕ → List (String × ℕ) → Bool
all_placed p n [] = true
all_placed p n ((name, k) ∷ places) = holds (address_of p name 0) (n + k) && all_placed p n places

abbrev AllPlaced : Layout → ℕ → List (String × ℕ) → Type 0
AllPlaced p n [] = Unit {0}
AllPlaced p n ((name, k) ∷ places) = (address_of p name 0 ≡ some (n + k)) × AllPlaced p n places

all_placed-AllPlaced :
    (p : Layout) (n : ℕ) (places : List (String × ℕ))
    → all_placed p n places ≡ true
    → AllPlaced p n places
unfolding all_placed
all_placed-AllPlaced p n [] h = tt
all_placed-AllPlaced p n ((name, k) ∷ places) h =
    elim (Bool-cases (holds (address_of p name 0) (n + k))) [
      | inl e ↦ (holds-some _ _ e, all_placed-AllPlaced p n places (rw e at h))
      | inr e ↦ cc (rw e at h)
    ]

ip_test : Config → CompatLevel → InorderStrategy → Bool → Bool → Bool → Bool → Bool
ip_test c l t rel rou sum sig =
    let c' = with_settings c l t rel rou sum sig in
    let p = (laid_out c' plain_len plain_host plain_app).net_packet in
    not (rou && is_ip_compat l)
    || (agree (header_bytes c' == 42) (counts_right c') && all_placed p (unsent_bytes c') ip_places)

ip_checked : (c : Config) → for_settings (ip_test c) ≡ true
unfolding for_settings for_bools for_levels for_strategies ip_test all_placed holds unsent_bytes
    header_bytes address_of get_member get_addr counts_right laid_out built with_payload
    init_signaling init_inorder init_reliable register_identifier init_signaling_after init_routing
    init_checksum init_network is_hold_forever has_sequence is_eth_compat is_ip_compat is_udp_compat
    insert lookup push_name add_member fix_layout link_groups link_group set_prev offset_of get_size
    place align_to integer_of is_no_inorder
ip_checked c = refl

-- The addresses in a layout, and the length of the headers.
record HasIpHeader (c : Config) (p : Layout) : Type 0 where
  header : ip_layout_of p ≡ some (header_at (unsent_bytes c))
  ports : address_of p "dst_app_id" 0 ≡ some (unsent_bytes c + 34)
  length_fits : (header_bytes c == 42) ≡ counts_right c

if-so : (a b : Bool) → (not a || b) ≡ true → a ≡ true → b ≡ true
if-so true b h e = h
if-so false b h e = cc

laid_out-HasIpHeader :
    (c : Config)
    → (c.routing && is_ip_compat c.compat_level) ≡ true
    → HasIpHeader c (laid_out c plain_len plain_host plain_app).net_packet
unfolding ip_test ip_layout_of
laid_out-HasIpHeader c on =
    let all : at_settings (ip_test c) c ≡ true =
      for_settings-true (ip_test c) c.compat_level c.inorder_strategy c.reliability c.routing
        c.checksum c.signaling (ip_checked c) in
    let p = (laid_out c plain_len plain_host plain_app).net_packet in
    let both =
      agree-eq (header_bytes c == 42) (counts_right c) (all_placed p (unsent_bytes c) ip_places)
        (if-so (c.routing && is_ip_compat c.compat_level) _ all on) in
    let (vide, (total, (iff, (ttl, (protocol, (sum, (dst, (src, (ports, _))))))))) =
      all_placed-AllPlaced p (unsent_bytes c) ip_places both.1 in
    record {
      header = rw (vide, total, iff, ttl, protocol, sum, dst, src) refl;
      ports = ports;
      length_fits = both.0;
    }

header_at-IsContiguous : (n : ℕ) → IsContiguous (header_at n)
header_at-IsContiguous n = omega arith

same_length : (len b : ℕ) → (len + 42 == b + len) ≡ (b == 42)
same_length len b = ground arith

-- Without custom ranges, with IP compatibility and routing, whatever the other settings: the members of the IP
-- header lie 14 bytes behind the headroom, one after another, and the ports 20 bytes further. The IP header that
-- `hook_send` of the routing module writes there has a valid checksum. For a payload of `len` bytes with room in
-- 16 bits, the length that the peer computes from the header is that of the packet exactly if the configuration
-- has one of the UDP header and a sequence number, and neither reliability nor a checksum.
pub init_protocol-ip_header :
    (c : Config) (s : Protocol) (o : ByteOrder) (dst my_host_id : ℕ) (m : Memory) (p len : ℕ)
    → HasNoRange c
    → (c.routing && is_ip_compat c.compat_level) ≡ true
    → init_protocol c ≡ some s
    → IsByteOrder o
    → len + 42 < 65536
    → (l : IpLayout) × (ip_layout_of s.net_packet ≡ some l)
      × (l.vide ≡ unsent_bytes c + 14)
      × (address_of s.net_packet "dst_app_id" 0 ≡ some (l.vide + 20))
      × (do_ip_checksum o (hook_send o true l dst my_host_id m p len).0 (p + l.vide) 20 ≡ o.htons 0)
      × ((ingress_len o l (hook_send o true l dst my_host_id m p len).0 p == header_bytes c + len)
          ≡ counts_right c)
init_protocol-ip_header c s o dst my_host_id m p len n on h ok small =
    let at = laid_out-HasIpHeader c on in
    let is_s = init_protocol-plain c s n h in
    let l = header_at (unsent_bytes c) in
    let further : unsent_bytes c + 34 ≡ unsent_bytes c + 14 + 20 = omega arith in
    let sent =
      hook_send-valid o l dst my_host_id m p len ok (header_at-IsContiguous (unsent_bytes c))
        small in
    (
      l,
      subst (λ (u : Protocol). ip_layout_of u.net_packet ≡ some l) (sym is_s) at.header,
      refl,
      subst
          (λ (u : Protocol).
            address_of u.net_packet "dst_app_id" 0 ≡ some (unsent_bytes c + 14 + 20))
          (sym is_s) (at.ports ∙ ap some further),
      sent.0,
      ap (λ k. k == header_bytes c + len) sent.1
          ∙ same_length len (header_bytes c)
          ∙ at.length_fits,
    )
