-- ===== src/Layout.antt =====
-- `dynamic_layout` of include/core/packet.h and src/core/packet.cpp: members registered by name in
-- groups, linked in order by `fix_layout`. A pointer to a member is its name, since each call of
-- `add_member` registers an object of its own. `none` is a failed assertion or an access that is
-- undefined.
pub mod Chain
mod Examples
use text.Mathlib.Text.{◌==◌ as str_eq}
use net_blocks.Base.{
  ℕ, zero, suc, ◌+◌, ◌*◌, ◌/◌, Option, none, some, List, [], ◌∷◌, ◌++◌, String, leb, length,
  if◌then◌else◌,
}
use net_blocks.Packet.{
  byte_size, align_to, IntegerMember, Member, integer, byte_array, get_size, place, get_addr,
  set_integer, get_integer, ◌>>=◌,
}
use net_blocks.Packet.Bytes.{Memory}

-- A member with the fields that registering it sets.
pub record Entry : Type 0 where
  pub member : Member
  pub order : ℕ
  pub prev : Option String

abbrev pub Members : Type 0
Members = List (String × Entry)

unfoldable pub lookup : String → Members → Option Entry
lookup k [] = none
lookup k ((j, e) ∷ m) = if str_eq j k then some e else lookup k m

unfoldable pub insert : String → Entry → Members → Members
insert k e [] = (k, e) ∷ []
insert k e ((j, d) ∷ m) = if str_eq j k then (k, e) ∷ m else (j, d) ∷ insert k e m

pub record Layout : Type 0 where
  pub total_members : ℕ
  pub registered : List (List String)
  pub members : Members

-- The loop that makes the groups up to `group`, with the push of the name.
unfoldable pub push_name : ℕ → String → List (List String) → List (List String)
push_name zero name [] = (name ∷ []) ∷ []
push_name zero name (g ∷ gs) = (g ++ name ∷ []) ∷ gs
push_name (suc group) name [] = [] ∷ push_name group name []
push_name (suc group) name (g ∷ gs) = g ∷ push_name group name gs

unfoldable pub add_member : Layout → String → Member → ℕ → Layout
add_member l name m group = record {
  total_members = l.total_members + 1;
  registered = push_name group name l.registered;
  members = insert name (record { member = m; order = l.total_members; prev = none }) l.members;
}

-- `m_members_map[m_name]->m_prev = last`
unfoldable pub set_prev : String → Option String → Members → Members
set_prev name last m = elim (lookup name m) [
  | none ↦ m
  | some e ↦ insert name (record e { prev = last }) m
]

unfoldable pub link_group : List String → Option String → Members → Option String × Members
link_group [] last m = (last, m)
link_group (n ∷ ns) last m = link_group ns (some n) (set_prev n last m)

unfoldable pub link_groups : List (List String) → Option String → Members → Members
link_groups [] last m = m
link_groups (g ∷ gs) last m = let (last', m') = link_group g last m in link_groups gs last' m'

unfoldable pub fix_layout : Layout → Layout
fix_layout l = record l { members = link_groups l.registered none l.members }

-- `get_offset` follows `m_prev`, on fuel; `none` is also the end of the fuel.
unfoldable pub offset_of : ℕ → Members → String → Option ℕ
offset_of zero m name = none
offset_of (suc fuel) m name = lookup name m >>= λ e. elim e.prev [
  | none ↦ some 0
  | some p ↦ lookup p m >>= λ q.
      offset_of fuel m p >>= λ before. some (place e.member (before + get_size q.member))
]

unfoldable pub last_of : List String → Option String
last_of [] = none
last_of (n ∷ []) = some n
last_of (n ∷ k ∷ ns) = last_of (k ∷ ns)

unfoldable pub back : List (List String) → Option (List String)
back [] = none
back (g ∷ []) = some g
back (g ∷ k ∷ gs) = back (k ∷ gs)

-- `m_total_members + 1` rounds are enough where the names are distinct.
unfoldable pub get_total_size : Layout → Option ℕ
get_total_size l = do
  group ← back l.registered
  name ← last_of group
  e ← lookup name l.members
  offset ← offset_of (l.total_members + 1) l.members name
  some (align_to (offset + get_size e.member) byte_size / byte_size)

unfoldable pub group_at : ℕ → List (List String) → Option (List String)
group_at i [] = none
group_at zero (g ∷ gs) = some g
group_at (suc i) (g ∷ gs) = group_at i gs

unfoldable pub first_of_group : List String → Option String
first_of_group [] = none
first_of_group (n ∷ ns) = some n

unfoldable pub group_start_offset : Layout → ℕ → Option ℕ
group_start_offset l i = do
  group ← group_at i l.registered
  name ← first_of_group group
  offset ← offset_of (l.total_members + 1) l.members name
  some (offset / byte_size)

-- src/core/framework.cpp: group 0 is not sent.
unfoldable pub get_headroom : Layout → Option ℕ
get_headroom l = group_start_offset l 1

-- `operator[]`, with its assertion.
unfoldable pub get_member : Layout → String → Option Entry
get_member l name = lookup name l.members

-- `net_packet[name]->get_addr(base)`
unfoldable pub address_of : Layout → String → ℕ → Option ℕ
unfolding get_member
address_of l name base = do
  e ← get_member l name
  offset ← offset_of (l.total_members + 1) l.members name
  get_addr offset base

-- The base class asserts that the calls of `set_integer` and `get_integer` are on integer members.
unfoldable pub as_integer : Member → Option IntegerMember
as_integer (integer m) = some m
as_integer (byte_array n aligned) = none

unfoldable pub integer_at : Layout → String → Option IntegerMember
unfolding get_member as_integer
integer_at l name = get_member l name >>= λ e. as_integer e.member

-- `net_packet[name]->set_integer(base, v)` and `net_packet[name]->get_integer(base)`
unfoldable pub set_field : Layout → String → Memory → ℕ → ℕ → Option Memory
set_field l name h base v = do
  m ← integer_at l name
  offset ← offset_of (l.total_members + 1) l.members name
  set_integer m offset h base v

unfoldable pub get_field : Layout → String → Memory → ℕ → Option ℕ
get_field l name h base = do
  m ← integer_at l name
  offset ← offset_of (l.total_members + 1) l.members name
  get_integer m offset h base
