-- ===== src/Layout/Chain.antt =====
-- After `fix_layout` the members form one chain, in the order of the groups: the offsets that
-- src/core/packet.cpp computes by name are those of the list of members.
use text.Mathlib.Text.{◌==◌ as str_eq}
use text.Mathlib.TextEquality.{eq_iff}
use text.Mathlib.TextPositions.{eq_refl}
use net_blocks.Base.{
  ℕ, zero, suc, ◌+◌, ◌≤◌, ◌≡◌, refl, sym, ◌∙◌, inl, inr, false, Option, none, some, List, [], ◌∷◌,
  ◌++◌, String, arith, length, if◌then◌else◌, Option-cases,
}
use net_blocks.Packet.{Member, get_offset}
use net_blocks.Layout.{
  Entry, Members, lookup, insert, Layout, set_prev, link_group, link_groups, fix_layout, offset_of,
}

lookup-insert :
    (k j : String) (e : Entry) (m : Members)
    → lookup j (insert k e m) ≡ (if str_eq k j then some e else lookup j m)
unfolding lookup insert
lookup-insert k j e [] = refl
lookup-insert k j e ((i, d) ∷ m) =
    ground (arith, eq_iff k j, eq_iff i k, eq_iff i j, lookup-insert k j e m)

lookup-set_prev_self :
    (n : String) (last : Option String) (m : Members) {e : Entry}
    → lookup n m ≡ some e
    → lookup n (set_prev n last m) ≡ some (record e { prev = last })
unfolding set_prev
lookup-set_prev_self n last m {e} h = rw (h, set_prev) (rw (lookup-insert, eq_refl n))

lookup-set_prev_ne :
    (n k : String) (last : Option String) (m : Members)
    → str_eq n k ≡ false
    → lookup k (set_prev n last m) ≡ lookup k m
unfolding set_prev
lookup-set_prev_ne n k last m ne = elim (Option-cases (lookup n m)) [
  | inl e ↦ rw (e, set_prev)
  | inr (d, e) ↦ rw (e, set_prev) (rw (lookup-insert, ne))
]

-- The name is none of the list's.
abbrev pub NotIn : String → List String → Type 0
NotIn n [] = Unit {0}
NotIn n (k ∷ ks) = (str_eq k n ≡ false) × NotIn n ks

abbrev pub Distinct : List String → Type 0
Distinct [] = Unit {0}
Distinct (n ∷ ns) = NotIn n ns × Distinct ns

-- The map holds these members under these names.
abbrev pub Registered : Members → List String → List Member → Type 0
Registered m [] [] = Unit {0}
Registered m [] (q ∷ qs) = ⊥
Registered m (n ∷ ns) [] = ⊥
Registered m (n ∷ ns) (q ∷ qs) =
    ((e : Entry) × (lookup n m ≡ some e) × (e.member ≡ q)) × Registered m ns qs

-- The same, linked to `last` and then one to the other.
abbrev Linked : Members → Option String → List String → List Member → Type 0
Linked m last [] [] = Unit {0}
Linked m last [] (q ∷ qs) = ⊥
Linked m last (n ∷ ns) [] = ⊥
Linked m last (n ∷ ns) (q ∷ qs) =
    ((e : Entry) × (lookup n m ≡ some e) × (e.member ≡ q) × (e.prev ≡ last))
    × Linked m (some n) ns qs

lookup-link_group :
    (k : String) (ns : List String) (last : Option String) (m : Members)
    → NotIn k ns
    → lookup k (link_group ns last m).1 ≡ lookup k m
unfolding link_group
lookup-link_group k [] last m out = refl
lookup-link_group k (n ∷ ns) last m (ne, out) =
    lookup-link_group k ns (some n) (set_prev n last m) out ∙ lookup-set_prev_ne n k last m ne

Registered-set_prev :
    (n : String) (last : Option String) (m : Members) (ns : List String) (qs : List Member)
    → NotIn n ns
    → Registered m ns qs
    → Registered (set_prev n last m) ns qs
Registered-set_prev n last m [] [] out r = tt
Registered-set_prev n last m [] (q ∷ qs) out r = r
Registered-set_prev n last m (k ∷ ns) [] out r = r
Registered-set_prev n last m (k ∷ ns) (q ∷ qs) (ne, out) ((e, found, same), r) =
    let flip : str_eq n k ≡ false = ground (arith, eq_iff k n, eq_iff n k) in
    (
      (e, lookup-set_prev_ne n k last m flip ∙ found, same),
      Registered-set_prev n last m ns qs out r,
    )

link_group-Linked :
    (ns : List String) (qs : List Member) (last : Option String) (m : Members)
    → Distinct ns
    → Registered m ns qs
    → Linked (link_group ns last m).1 last ns qs
unfolding link_group
link_group-Linked [] [] last m d r = tt
link_group-Linked [] (q ∷ qs) last m d r = r
link_group-Linked (n ∷ ns) [] last m d r = r
link_group-Linked (n ∷ ns) (q ∷ qs) last m (out, d) ((e, found, same), r) = (
  (
    record e { prev = last },
    lookup-link_group n ns (some n) (set_prev n last m) out ∙ lookup-set_prev_self n last m found,
    same,
    refl,
  ),
  link_group-Linked ns qs (some n) (set_prev n last m) d (Registered-set_prev n last m ns qs out r),
)

-- The names of all groups, in order.
abbrev pub all_names : List (List String) → List String
all_names [] = []
all_names (g ∷ gs) = g ++ all_names gs

link_group-append :
    (xs ys : List String) (last : Option String) (m : Members)
    → (link_group (xs ++ ys) last m).1
      ≡ (link_group ys (link_group xs last m).0 (link_group xs last m).1).1
unfolding link_group
link_group-append [] ys last m = refl
link_group-append (x ∷ xs) ys last m = link_group-append xs ys (some x) (set_prev x last m)

link_groups_flat :
    (gs : List (List String)) (last : Option String) (m : Members)
    → link_groups gs last m ≡ (link_group (all_names gs) last m).1
unfolding link_groups
link_groups_flat [] last m = unfold link_group in refl
link_groups_flat (g ∷ gs) last m =
    link_groups_flat gs (link_group g last m).0 (link_group g last m).1
    ∙ sym (link_group-append g (all_names gs) last m)

-- The offset of each name is that of its member behind the members before it.
abbrev pub OffsetsAgree : ℕ → Members → List Member → List String → List Member → Type 0
OffsetsAgree fuel m ps [] [] = Unit {0}
OffsetsAgree fuel m ps [] (q ∷ qs) = ⊥
OffsetsAgree fuel m ps (n ∷ ns) [] = ⊥
OffsetsAgree fuel m ps (n ∷ ns) (q ∷ qs) =
    (offset_of fuel m n ≡ some (get_offset q ps)) × OffsetsAgree fuel m (q ∷ ps) ns qs

-- The chain has been walked up to `last`.
abbrev Reached : ℕ → Members → Option String → List Member → Type 0
Reached fuel m none [] = Unit {0}
Reached fuel m none (q ∷ qs) = ⊥
Reached fuel m (some p) [] = ⊥
Reached fuel m (some p) (q ∷ qs) =
    ((e : Entry) × (lookup p m ≡ some e) × (e.member ≡ q))
    × ((f : ℕ) → fuel ≤ f → offset_of f m p ≡ some (get_offset q qs))

offset_of_step :
    (fuel f : ℕ) (m : Members) (n : String) (q : Member) (last : Option String) (ps : List Member)
    → ((e : Entry) × (lookup n m ≡ some e) × (e.member ≡ q) × (e.prev ≡ last))
    → Reached fuel m last ps
    → fuel ≤ f
    → offset_of (suc f) m n ≡ some (get_offset q ps)
unfolding offset_of get_offset
offset_of_step fuel f m n q none [] (e, found, same, linked) r le = rw (found, linked)
offset_of_step fuel f m n q none (p ∷ ps) (e, found, same, linked) r le = elim r [ ]
offset_of_step fuel f m n q (some p) [] (e, found, same, linked) r le = elim r [ ]
offset_of_step fuel f m n q (some p) (k ∷ ks) (e, found, same, linked) ((d, found', same'), r) le =
    rw (found, linked, found', r f le, same, same')

Linked-OffsetsAgree :
    (fuel limit : ℕ) (m : Members) (last : Option String) (ps : List Member) (ns : List String)
    (qs : List Member)
    → Reached fuel m last ps
    → Linked m last ns qs
    → fuel + length ns ≤ limit
    → OffsetsAgree limit m ps ns qs
Linked-OffsetsAgree fuel limit m last ps [] [] r l le = tt
Linked-OffsetsAgree fuel limit m last ps [] (q ∷ qs) r l le = l
Linked-OffsetsAgree fuel limit m last ps (n ∷ ns) [] r l le = l
Linked-OffsetsAgree fuel limit m last ps (n ∷ ns) (q ∷ qs) r (here, l) le = (
  reached limit (omega arith),
  Linked-OffsetsAgree (suc fuel) limit m (some n) (q ∷ ps) ns qs ((here.0, here.1, here.2), reached)
      l (omega arith),
)
  where
    reached : (f : ℕ) → suc fuel ≤ f → offset_of f m n ≡ some (get_offset q ps)
    reached zero h = absurd (omega arith)
    reached (suc f) h = offset_of_step fuel f m n q last ps here r (omega arith)

-- `fix_layout` links distinct names so that following `m_prev` gives, for every member, the offset
-- behind all the members registered before it, group by group.
pub fix_layout_offsets :
    (l : Layout) (qs : List Member)
    → Distinct (all_names l.registered)
    → Registered l.members (all_names l.registered) qs
    → OffsetsAgree
        (length (all_names l.registered))
        (fix_layout l).members
        []
        (all_names l.registered)
        qs
unfolding fix_layout
fix_layout_offsets l qs d r = rw (link_groups_flat l.registered none l.members) (
    Linked-OffsetsAgree 0 (length (all_names l.registered)) _ none [] (all_names l.registered) qs tt
      (link_group-Linked (all_names l.registered) qs none l.members d r) (omega arith))
