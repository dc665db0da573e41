-- ===== src/Layout/Examples.antt =====
-- A layout with two groups.
use net_blocks.Base.{◌≡◌, refl, none, true, [], ◌∷◌, length}
use net_blocks.Packet.{byte_array}
use net_blocks.Layout.{Layout, lookup, push_name, insert, add_member, fix_layout}
use net_blocks.Layout.Chain.{all_names, Distinct, Registered, OffsetsAgree, fix_layout_offsets}

abbrev no_members : Layout
no_members = record { total_members = 0; registered = []; members = [] }

abbrev two_groups : Layout
two_groups = record {
  total_members = 2;
  registered = ("flow" ∷ []) ∷ ("host" ∷ []) ∷ [];
  members =
      ("flow", record { member = byte_array 8 true; order = 0; prev = none })
      ∷ ("host", record { member = byte_array 6 true; order = 1; prev = none })
      ∷ [];
}

two_groups-added :
    add_member (add_member no_members "flow" (byte_array 8 true) 0) "host" (byte_array 6 true) 1
    ≡ two_groups
unfolding add_member push_name insert
two_groups-added = refl

two_groups-Distinct : Distinct (all_names two_groups.registered)
two_groups-Distinct = ((refl, tt), (tt, tt))

two_groups-Registered :
    Registered two_groups.members
      (all_names two_groups.registered)
      (byte_array 8 true ∷ byte_array 6 true ∷ [])
unfolding lookup
two_groups-Registered = ((_, refl, refl), ((_, refl, refl), tt))

fix_layout_offsets_example :
    OffsetsAgree
      (length (all_names two_groups.registered))
      (fix_layout two_groups).members
      []
      (all_names two_groups.registered)
      (byte_array 8 true ∷ byte_array 6 true ∷ [])
fix_layout_offsets_example =
    fix_layout_offsets two_groups (byte_array 8 true ∷ byte_array 6 true ∷ []) two_groups-Distinct
      two_groups-Registered
