-- ===== src/Protocol/Fields.antt =====
-- A packet as a record of fields: what the modules write into one member of a packet in memory, they read
-- there, and the other members keep their values.
use net_blocks.Base.{
  ℕ, ◌+◌, ◌*◌, ◌/◌, ◌≤◌, ◌≡◌, ◌≢◌, ◌⊎◌, inl, inr, refl, sym, subst, ◌∙◌, Bool, true, false, ◌&&◌,
  ◌||◌, not, none, some, List, [], ◌∷◌, String, arith, ltb, leb, ◌==◌, Bool-cases, Option-cases,
}
use net_blocks.Packet.{IntegerMember, align_to, get_size, place, get_integer}
use net_blocks.Packet.Bytes.{Memory, IsBytes}
use net_blocks.Packet.Aligned.{Fits, get_integer-set_integer}
use net_blocks.Packet.Local.{IsByteMember, get_integer_ext}
use net_blocks.Layout.{
  Layout, insert, lookup, push_name, add_member, fix_layout, link_groups, link_group, set_prev,
  offset_of, integer_at, set_field, get_field,
}
use net_blocks.Layout.Chain.{all_names}
use net_blocks.Framework.{CompatLevel, is_eth_compat, is_ip_compat, is_udp_compat}
use net_blocks.Inorder.{InorderStrategy}
use net_blocks.Protocol.Settings.{Config}
use net_blocks.Protocol.Modules.{
  Protocol, integer_of, init_signaling, init_inorder, init_reliable, register_identifier,
  init_signaling_after, init_routing, init_checksum, init_network,
}
use net_blocks.Protocol.{init_protocol}
use net_blocks.Protocol.Cases.{
  for_bools, for_levels, for_strategies, for_settings, for_settings-true, with_payload, built,
  laid_out, with_settings, &&-both,
}
use net_blocks.Protocol.Sizes.{
  HasNoRange, plain_len, plain_host, plain_app, init_protocol-plain, holds, holds-some,
}

-- A member of whole bytes, from byte `at` of the packet on.
record IsField (p : Layout) (name : String) (m : IntegerMember) (at : ℕ) : Type 0 where
  found : integer_at p name ≡ some m
  placed : offset_of (p.total_members + 1) p.members name ≡ some (at * 8)
  bytes : IsByteMember m

-- The members of these names lie one behind the other.
abbrev Fields : Layout → ℕ → List String → Type 0
Fields p at [] = Unit {0}
Fields p at (name ∷ names) =
    (m : IntegerMember) × IsField p name m at × Fields p (at + m.bit_size / 8) names

is_byte_member : IntegerMember → Bool
is_byte_member m =
    (leb m.bytes 8 && (ltb 0 m.bytes && leb m.bit_size (m.bytes * 8)))
    && ((m.bit_size == m.bit_size / 8 * 8) && ((m.bit_size == m.bytes * 8) || not m.is_signed))

is_byte_member-IsByteMember : (m : IntegerMember) → is_byte_member m ≡ true → IsByteMember m
unfolding is_byte_member
is_byte_member-IsByteMember m h = record {
  formed = record { word = ground arith; nonempty = ground arith; size = ground arith };
  whole_bytes = ground arith;
  plain = elim (Bool-cases (m.bit_size == m.bytes * 8)) [
    | inl e ↦ inl (ground arith)
    | inr e ↦ inr (ground (arith, e))
  ];
}

check_fields : Layout → ℕ → List String → Bool
check_fields p at [] = true
check_fields p at (name ∷ names) = elim (integer_at p name) [
  | none ↦ false
  | some m ↦
      is_byte_member m
      && (holds (offset_of (p.total_members + 1) p.members name) (at * 8)
          && check_fields p (at + m.bit_size / 8) names)
]

check_fields-Fields :
    (p : Layout) (at : ℕ) (names : List String) → check_fields p at names ≡ true → Fields p at names
unfolding check_fields
check_fields-Fields p at [] h = tt
check_fields-Fields p at (name ∷ names) h = elim (Option-cases (integer_at p name)) [
  | inl e ↦ cc (rw (e, check_fields) at h)
  | inr (m, e) ↦
      let (formed, rest) = &&-both (is_byte_member m) _ (rw (e, check_fields) at h) in
      let (here, behind) =
        &&-both (holds (offset_of (p.total_members + 1) p.members name) (at * 8)) _ rest in
      (
        m,
        record {
          found = e;
          placed = holds-some _ _ here;
          bytes = is_byte_member-IsByteMember m formed;
        },
        check_fields-Fields p (at + m.bit_size / 8) names behind,
      )
]

fields_test : Config → CompatLevel → InorderStrategy → Bool → Bool → Bool → Bool → Bool
fields_test c l t rel rou sum sig =
    let p =
      (laid_out (with_settings c l t rel rou sum sig) plain_len plain_host plain_app).net_packet in
    check_fields p 0 (all_names p.registered)

fields_checked : (c : Config) → for_settings (fields_test c) ≡ true
unfolding for_settings for_bools for_levels for_strategies fields_test check_fields is_byte_member
    holds integer_at laid_out built with_payload init_signaling init_inorder init_reliable
    register_identifier init_signaling_after init_routing init_checksum init_network is_eth_compat
    is_ip_compat is_udp_compat insert lookup push_name add_member fix_layout link_groups link_group
    set_prev offset_of get_size place align_to integer_of
fields_checked c = refl

-- The name is one of the list's.
abbrev pub IsAmong : String → List String → Type 0
IsAmong a [] = ⊥
IsAmong a (name ∷ names) = (name ≡ a) ⊎ IsAmong a names

among-IsField :
    (p : Layout) (at : ℕ) (names : List String) (a : String)
    → Fields p at names
    → IsAmong a names
    → (m : IntegerMember) × (x : ℕ) × IsField p a m x × (at ≤ x)
among-IsField p at [] a all among = absurd among
among-IsField p at (name ∷ names) a (m, here, rest) (inl e) =
    (m, at, subst (λ n. IsField p n m at) e here, omega arith)
among-IsField p at (name ∷ names) a (m, here, rest) (inr among) =
    let (k, x, there, le) = among-IsField p (at + m.bit_size / 8) names a rest among in
    (k, x, there, omega arith)

members_apart :
    (p : Layout) (at : ℕ) (names : List String) (a b : String)
    → Fields p at names
    → IsAmong a names
    → IsAmong b names
    → a ≢ b
    → (m k : IntegerMember) × (x y : ℕ) × IsField p a m x
      × IsField p b k y
      × ((x + m.bit_size / 8 ≤ y) ⊎ (y + k.bit_size / 8 ≤ x))
members_apart p at [] a b all in_a in_b differ = absurd in_a
members_apart p at (name ∷ names) a b (m, here, rest) (inl e) (inl d) differ =
    absurd (differ (sym e ∙ d))
members_apart p at (name ∷ names) a b (m, here, rest) (inl e) (inr in_b) differ =
    let (k, y, there, le) = among-IsField p (at + m.bit_size / 8) names b rest in_b in
    (m, k, at, y, subst (λ n. IsField p n m at) e here, there, inl le)
members_apart p at (name ∷ names) a b (m, here, rest) (inr in_a) (inl d) differ =
    let (k, x, there, le) = among-IsField p (at + m.bit_size / 8) names a rest in_a in
    (k, m, x, at, there, subst (λ n. IsField p n m at) d here, inr le)
members_apart p at (name ∷ names) a b (m, here, rest) (inr in_a) (inr in_b) differ =
    members_apart p (at + m.bit_size / 8) names a b rest in_a in_b differ

-- What a write of `v` into the member `a` leaves in the memory `h'`.
abbrev pub IsWritten : Layout → String → String → Memory → ℕ → ℕ → Memory → Type 0
IsWritten p a b h base v h' =
    (set_field p a h base v ≡ some h')
    × (get_field p a h' base ≡ some v)
    × (get_field p b h' base ≡ get_field p b h base)
    × IsBytes h'

write_field :
    (p : Layout) (a b : String) (m k : IntegerMember) (x y : ℕ) (h : Memory) (base v : ℕ)
    → IsField p a m x
    → IsField p b k y
    → (x + m.bit_size / 8 ≤ y) ⊎ (y + k.bit_size / 8 ≤ x)
    → Fits m v
    → IsBytes h
    → (h' : Memory) × IsWritten p a b h base v h'
unfolding set_field get_field
write_field p a b m k x y h base v fa fb apart fits hb =
    let (h', stored, back, hb', frame) =
      get_integer-set_integer m (x * 8) h base v fa.bytes.formed (omega arith) hb fits in
    let same : get_integer k (y * 8) h' base ≡ get_integer k (y * 8) h base =
      get_integer_ext k (y * 8) h' h base fb.bytes (omega arith) hb' hb
        (λ i lt. frame (base + y * 8 / 8 + i) (ground (arith, apart, fa.bytes.whole_bytes, lt))) in
    (
      h',
      (
        rw (fa.found, fa.placed) stored,
        rw (fa.found, fa.placed) back,
        rw (fb.found, fb.placed) same,
        hb',
      ),
    )

write_among :
    (p : Layout) (names : List String) (a b : String) (m : IntegerMember) (h : Memory) (base v : ℕ)
    → Fields p 0 names
    → IsAmong a names
    → IsAmong b names
    → a ≢ b
    → integer_at p a ≡ some m
    → Fits m v
    → IsBytes h
    → (h' : Memory) × IsWritten p a b h base v h'
write_among p names a b m h base v all in_a in_b differ found fits hb =
    let (n, k, x, y, fa, fb, apart) = members_apart p 0 names a b all in_a in_b differ in
    let same : m ≡ n = cc in
    write_field p a b n k x y h base v fa fb apart (subst (λ t. Fits t v) same fits) hb

-- Without custom ranges, whatever the other settings: a value that fits into a member of a packet is
-- stored there, is read back from it, and leaves every other member of the packet with its value.
pub get_field-set_field :
    (c : Config) (s : Protocol) (a b : String) (m : IntegerMember) (h : Memory) (base v : ℕ)
    → HasNoRange c
    → init_protocol c ≡ some s
    → IsAmong a (all_names s.net_packet.registered)
    → IsAmong b (all_names s.net_packet.registered)
    → a ≢ b
    → integer_at s.net_packet a ≡ some m
    → Fits m v
    → IsBytes h
    → (h' : Memory) × IsWritten s.net_packet a b h base v h'
unfolding fields_test
get_field-set_field c s a b m h base v n ok in_a in_b differ found fits hb =
    let p = (laid_out c plain_len plain_host plain_app).net_packet in
    write_among s.net_packet (all_names s.net_packet.registered) a b m h base v
      (subst (λ (u : Protocol). Fields u.net_packet 0 (all_names u.net_packet.registered))
        (sym (init_protocol-plain c s n ok))
        (check_fields-Fields p 0 (all_names p.registered) (
          for_settings-true (fields_test c) c.compat_level c.inorder_strategy c.reliability
            c.routing c.checksum c.signaling (fields_checked c))))
      in_a in_b differ found fits hb
