-- ===== src/Mlx5/Device.antt =====
-- The search of `mlx5_try_transport` for a device with the requested name and a port that is up. The
-- calls of the verbs library and `ibdev2netdev` are arguments; `exit(-1)` is the result `failed`.
use text.Mathlib.Text.{◌==◌ as str_eq}
use net_blocks.Base.{
  ℕ, zero, suc, ◌+◌, ◌%◌, ◌≤◌, ◌<◌, ◌≡◌, ◌≢◌, refl, subst, ◌∙◌, Bool, true, false, ◌||◌, Option,
  none, some, List, [], ◌∷◌, String, arith, leb, ◌==◌, if◌then◌else◌, inl, inr, Bool-cases,
  Option-cases,
}

-- What the library answers for the device and the port of these indices; `query_device` gives
-- `phys_port_cnt`, `query_port` gives `phys_state`, and `netdev` is the name behind `ibdev2netdev`.
pub record Verbs : Type 0 where
  pub num_devices : ℕ
  pub open_device : ℕ → Bool
  pub query_device : ℕ → Option ℕ
  pub netdev : ℕ → String
  pub query_port : ℕ → ℕ → Option ℕ
  pub close_device : ℕ → Bool
  pub ibv_port_active : ℕ
  pub ibv_port_active_defer : ℕ

pub data PortSearch : Type 0 where
  port_failed : PortSearch
  no_port : PortSearch
  active_port : ℕ → PortSearch
  endless : PortSearch

-- With the devices that are left open.
pub data Search : Type 0 where
  failed : Search
  not_found : List ℕ → Search
  found : ℕ → ℕ → List ℕ → Search
  never_ends : Search

unfoldable pub is_up : Verbs → ℕ → Bool
is_up v state = (state == v.ibv_port_active) || (state == v.ibv_port_active_defer)

-- `port_i` has 8 bits, so that the test never fails for 255 ports.
unfoldable pub search_ports : Verbs → ℕ → ℕ → ℕ → ℕ → PortSearch
search_ports v i count zero port = endless
search_ports v i count (suc fuel) port =
    let rest = search_ports v i count fuel ((port + 1) % 256) in
    if leb port count
    then elim (v.query_port i port) [
      | none ↦ port_failed
      | some state ↦ if is_up v state then active_port port else rest
    ]
    else no_port

-- What follows the loop over the ports, with what the devices behind give if this one is closed.
unfoldable pub after_ports : Verbs → ℕ → List ℕ → Search → PortSearch → Search
after_ports v i opened closed port_failed = failed
after_ports v i opened closed no_port = if v.close_device i then closed else failed
after_ports v i opened closed (active_port port) = found i port (i ∷ opened)
after_ports v i opened closed endless = never_ends

-- A device with another name is left open by `continue`.
unfoldable pub search_devices : Verbs → String → ℕ → ℕ → List ℕ → Search
unfolding after_ports search_ports
search_devices v name zero i opened = not_found opened
search_devices v name (suc left) i opened =
    let skipped = search_devices v name left (i + 1) (i ∷ opened) in
    let closed = search_devices v name left (i + 1) opened in
    if v.open_device i
    then elim (v.query_device i) [
      | none ↦ failed
      | some count ↦
          if str_eq (v.netdev i) name
          then after_ports v i opened closed (search_ports v i count 256 1)
          else skipped
    ]
    else failed

unfoldable pub try_devices : Verbs → String → Search
unfolding search_devices
try_devices v name = search_devices v name v.num_devices 0 []

unfoldable pub is_active : Verbs → ℕ → ℕ → Bool
is_active v i port = elim (v.query_port i port) [ none ↦ false | some state ↦ is_up v state ]

abbrev pub IsPortSearch : Verbs → ℕ → ℕ → ℕ → PortSearch → Type 0
IsPortSearch v i count port port_failed = ⊥
IsPortSearch v i count port no_port = (q : ℕ) → port ≤ q → q ≤ count → is_active v i q ≡ false
IsPortSearch v i count port (active_port p) =
    (port ≤ p)
    × (p ≤ count)
    × (is_active v i p ≡ true)
    × ((q : ℕ) → port ≤ q → q < p → is_active v i q ≡ false)
IsPortSearch v i count port endless = ⊥

is_active-up :
    (v : Verbs) (i q state : ℕ) → v.query_port i q ≡ some state → is_active v i q ≡ is_up v state
unfolding is_active
is_active-up v i q state e = rw (e, is_active) refl

IsPortSearch-step :
    (v : Verbs) (i count port : ℕ) (r : PortSearch)
    → is_active v i port ≡ false
    → IsPortSearch v i count (port + 1) r
    → IsPortSearch v i count port r
IsPortSearch-step v i count port port_failed off h = h
IsPortSearch-step v i count port no_port off h = λ q lo hi. elim (Bool-cases (q == port)) [
  | inl e ↦ subst (λ t. is_active v i t ≡ false) (ground (arith, e)) off
  | inr e ↦ h q (ground (arith, e)) hi
]
IsPortSearch-step v i count port (active_port p) off (lo, hi, up, before) = (
  omega arith,
  hi,
  up,
  λ q low high. elim (Bool-cases (q == port)) [
    | inl e ↦ subst (λ t. is_active v i t ≡ false) (ground (arith, e)) off
    | inr e ↦ before q (ground (arith, e)) high
  ],
)
IsPortSearch-step v i count port endless off h = h

pub search_ports_lem :
    (v : Verbs) (i count fuel port : ℕ)
    → count < 255
    → port ≤ count + 1
    → count + 1 < port + fuel
    → ((q : ℕ) → v.query_port i q ≢ none)
    → IsPortSearch v i count port (search_ports v i count fuel port)
unfolding search_ports
search_ports_lem v i count zero port small le enough answers = absurd (omega arith)
search_ports_lem v i count (suc fuel) port small le enough answers =
    elim (Bool-cases (leb port count)) [
      | inr off ↦ rw (off) (λ q lo hi. absurd (ground (arith, off)))
      | inl on ↦ elim (Option-cases (v.query_port i port)) [
        | inl e ↦ absurd (answers port e)
        | inr (state, e) ↦ elim (Bool-cases (is_up v state)) [
          | inl up ↦
              rw (on, e, up)
                (
                  omega arith,
                  ground (arith, on),
                  is_active-up v i port state e ∙ up,
                  λ q lo hi. absurd (omega arith),
                )
          | inr down ↦
              let small_port : (port + 1) % 256 ≡ port + 1 = ground (arith, on) in
              let rest =
                search_ports_lem v i count fuel (port + 1) small (ground (arith, on)) (omega arith)
                  answers in
              rw (on, e, down, small_port)
                (IsPortSearch-step v i count port _ (is_active-up v i port state e ∙ down) rest)
        ]
      ]
    ]
