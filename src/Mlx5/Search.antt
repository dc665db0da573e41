-- ===== src/Mlx5/Search.antt =====
-- Which device and port the search of runtime/mlx5_impl/transport.cc finds, and what it leaves open.
use text.Mathlib.Text.{◌==◌ as str_eq}
use net_blocks.Base.{
  ℕ, zero, suc, ◌+◌, ◌-◌, ◌≤◌, ◌<◌, ◌≡◌, ◌≢◌, refl, sym, subst, ap, ◌∙◌, true, false, none, some,
  List, [], ◌∷◌, String, arith, ◌==◌, if◌then◌else◌, inl, inr, Bool-cases, Option-cases,
}
use net_blocks.Mlx5.Device.{
  Verbs, PortSearch, port_failed, no_port, active_port, endless, Search, failed, not_found, found,
  never_ends, search_ports, after_ports, search_devices, try_devices, is_active, IsPortSearch,
  search_ports_lem,
}

-- The device has the name, and it has so many ports.
abbrev pub HasPorts : Verbs → String → ℕ → ℕ → Type 0
HasPorts v name j count = (str_eq (v.netdev j) name ≡ true) × (v.query_device j ≡ some count)

-- The device has another name, or no port of it is up.
abbrev pub IsUnfit : Verbs → String → ℕ → Type 0
IsUnfit v name j =
    (count q : ℕ) → HasPorts v name j count → 1 ≤ q → q ≤ count → is_active v j q ≡ false

abbrev next : Verbs → String → ℕ → List ℕ → List ℕ
next v name i opened = if str_eq (v.netdev i) name then opened else i ∷ opened

-- The devices with other names among the `left` ones from `i` on, in front of those of `opened`.
unfoldable pub other_names : Verbs → String → ℕ → ℕ → List ℕ → List ℕ
other_names v name zero i opened = opened
other_names v name (suc left) i opened = other_names v name left (i + 1) (next v name i opened)

abbrev pub IsSearch : Verbs → String → ℕ → ℕ → List ℕ → Search → Type 0
IsSearch v name left i opened failed = ⊥
IsSearch v name left i opened (not_found l) =
    (l ≡ other_names v name left i opened) × ((j : ℕ) → i ≤ j → j < i + left → IsUnfit v name j)
IsSearch v name left i opened (found k p l) =
    (i ≤ k)
    × (k < i + left)
    × (l ≡ k ∷ other_names v name (k - i) i opened)
    × (count : ℕ) × HasPorts v name k count
    × IsPortSearch v k count 1 (active_port p)
    × ((j : ℕ) → i ≤ j → j < k → IsUnfit v name j)
IsSearch v name left i opened never_ends = ⊥

from_next :
    (v : Verbs) (name : String) (i k : ℕ)
    → IsUnfit v name i
    → ((j : ℕ) → i + 1 ≤ j → j < k → IsUnfit v name j)
    → (j : ℕ) → i ≤ j
    → j < k
    → IsUnfit v name j
from_next v name i k here rest j lo hi = elim (Bool-cases (j == i)) [
  | inl e ↦ subst (λ t. IsUnfit v name t) (ground (arith, e)) here
  | inr e ↦ rest j (ground (arith, e)) hi
]

IsSearch-step :
    (v : Verbs) (name : String) (left i : ℕ) (opened : List ℕ) (r : Search)
    → IsUnfit v name i
    → IsSearch v name left (i + 1) (next v name i opened) r
    → IsSearch v name (suc left) i opened r
unfolding other_names
IsSearch-step v name left i opened failed here h = h
IsSearch-step v name left i opened (not_found l) here (e, none_fits) = (
  e,
  λ j lo hi.
      from_next v name i (i + suc left) here (λ j lo hi. none_fits j lo (omega arith)) j lo hi,
)
IsSearch-step v name left i opened (found k p l) here (lo, hi, e, count, has, up, before) =
    let back : k - i ≡ suc (k - (i + 1)) = omega arith in
    (
      omega arith,
      omega arith,
      e ∙ ap (λ t. k ∷ other_names v name t i opened) (sym back),
      count,
      has,
      up,
      from_next v name i k here before,
    )
IsSearch-step v name left i opened never_ends here h = h

-- The calls of the library succeed, and a device has at most 254 ports.
pub record IsAnswering (v : Verbs) : Type 0 where
  pub opens : (i : ℕ) → v.open_device i ≡ true
  pub closes : (i : ℕ) → v.close_device i ≡ true
  pub device : (i : ℕ) → v.query_device i ≢ none
  pub few : (i count : ℕ) → v.query_device i ≡ some count → count < 255
  pub port : (i q : ℕ) → v.query_port i q ≢ none

after_ports_lem :
    (v : Verbs) (name : String) (left i count : ℕ) (opened : List ℕ) (closed : Search)
    (r : PortSearch)
    → v.close_device i ≡ true
    → HasPorts v name i count
    → IsPortSearch v i count 1 r
    → IsSearch v name left (i + 1) opened closed
    → IsSearch v name (suc left) i opened (after_ports v i opened closed r)
unfolding after_ports other_names
after_ports_lem v name left i count opened closed port_failed closes has ports rest = absurd ports
after_ports_lem v name left i count opened closed no_port closes (same, e) ports rest =
    rw (closes) (
      IsSearch-step v name left i opened closed
        (λ n q (name_too, has) lo hi. ports q lo (le_count n q has hi)) (rw (same) rest))
  where
    le_count : (n q : ℕ) → v.query_device i ≡ some n → q ≤ n → q ≤ count
    le_count n q has hi = let eq : n ≡ count = cc in omega arith
after_ports_lem v name left i count opened closed (active_port p) closes has ports rest =
    let none_left : i - i ≡ 0 = omega arith in
    (
      omega arith,
      omega arith,
      ap (λ t. i ∷ other_names v name t i opened) (sym none_left),
      count,
      has,
      ports,
      λ j lo hi. absurd (omega arith),
    )
after_ports_lem v name left i count opened closed endless closes has ports rest = absurd ports

search_devices_lem :
    (v : Verbs) (name : String) (left i : ℕ) (opened : List ℕ)
    → IsAnswering v
    → IsSearch v name left i opened (search_devices v name left i opened)
unfolding search_devices other_names
search_devices_lem v name zero i opened ok = (refl, λ j lo hi. absurd (omega arith))
search_devices_lem v name (suc left) i opened ok = elim (Option-cases (v.query_device i)) [
  | inl e ↦ absurd (ok.device i e)
  | inr (count, e) ↦ elim (Bool-cases (str_eq (v.netdev i) name)) [
    | inr other ↦
        rw (ok.opens i, e, other)
          (IsSearch-step v name left i opened _ (λ n q (same, has) lo hi. cc)
            (rw (other) (search_devices_lem v name left (i + 1) (i ∷ opened) ok)))
    | inl same ↦
        rw (ok.opens i, e, same)
          (after_ports_lem v name left i count opened _ (search_ports v i count 256 1) (ok.closes i)
            (same, e)
            (search_ports_lem v i count 256 1 (ok.few i count e) (omega arith)
              (omega (arith, ok.few i count e)) (ok.port i))
            (search_devices_lem v name left (i + 1) opened ok))
  ]
]

-- When the calls of the library succeed, and no device has 255 ports, the search for a device ends with
-- an answer. It finds the first port that is up of the first device with the requested name that has such
-- a port, or no device with the name has one. The devices with other names in front of it stay open.
pub try_devices_lem :
    (v : Verbs) (name : String)
    → IsAnswering v
    → IsSearch v name v.num_devices 0 [] (try_devices v name)
unfolding try_devices
try_devices_lem v name ok = search_devices_lem v name v.num_devices 0 [] ok
