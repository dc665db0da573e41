-- ===== src/Posix/Select.antt =====
-- `nbp_select` of network.c.
use net_blocks.Base.{
  ℕ, zero, suc, ◌+◌, ◌≤◌, ◌<◌, ◌≡◌, ◌≢◌, ◌⊎◌, inl, inr, refl, sym, ◌∙◌, Bool, true, List, [], ◌∷◌,
  ◌==◌, arith, Bool-cases, if◌then◌else◌,
}
use native.Mathlib.Decide.{dec_lt}
use net_blocks.Posix.{Sockets}
use net_blocks.Posix.Calls.{Stack}

-- What a look at the descriptors gives, and what `nbp_select` returns: 1 with the one descriptor that
-- is left in the set, 0 with an empty set, or an access through `NULL`.
pub data Ready : Type 0 where
  nothing fault : Ready
  ready : ℕ → Ready

-- The loop that collects the descriptors of the set from `fd` on.
unfoldable pub members : ℕ → ℕ → (ℕ → Bool) → List ℕ
members zero fd set = []
members (suc left) fd set =
    let rest = members left (fd + 1) set in if set fd then fd ∷ rest else rest

module _ {W : Type 0} (k : Stack W) where
  -- The loop over the descriptors.
  unfoldable pub scan : List ℕ → Sockets × W → Ready
  scan [] state = nothing
  scan (fd ∷ fds) state =
      let rest = scan fds state in
      if state.0.fd_accept_counter fd == 0
      then if state.0.fd_table fd == 0
        then fault
        else if k.input_elems (state.0.fd_table fd) state.1 == 0
        then rest
        else ready fd
      else ready fd

  -- The loop with `left` steps of the main loop to go.
  unfoldable pub select_loop : ℕ → List ℕ → Sockets × W → Ready × (Sockets × W)
  select_loop zero fds state = (nothing, state)
  select_loop (suc left) fds state =
      let next = k.main_loop_step state in
      let rest = select_loop left fds next in
      elim (scan fds next) [ nothing ↦ rest | fault ↦ (fault, next) | ready fd ↦ (ready fd, next) ]

  unfoldable pub nbp_select : ℕ → (ℕ → Bool) → Sockets × W → Ready × (Sockets × W)
  unfolding members
  nbp_select nfds set state = select_loop 1000 (members nfds 0 set) state

  -- So many steps of the main loop.
  unfoldable pub steps : ℕ → Sockets × W → Sockets × W
  steps zero state = state
  steps (suc n) state = steps n (k.main_loop_step state)

  -- A descriptor with a connection to accept or something to read.
  abbrev pub IsReady : Sockets × W → ℕ → Type 0
  IsReady state fd =
      (state.0.fd_accept_counter fd ≢ 0)
      ⊎ ((state.0.fd_table fd ≢ 0) × (k.input_elems (state.0.fd_table fd) state.1 ≢ 0))

  unfoldable pub IsIdle : Sockets × W → ℕ → Type 0
  IsIdle state fd =
      (state.0.fd_accept_counter fd ≡ 0) × (k.input_elems (state.0.fd_table fd) state.1 ≡ 0)

  -- A descriptor without a connection, and with none to accept.
  abbrev pub IsLoose : Sockets × W → ℕ → Type 0
  IsLoose state fd = (state.0.fd_accept_counter fd ≡ 0) × (state.0.fd_table fd ≡ 0)

  -- The first descriptor is ready, or idle, or has no connection.
  scan_cases :
      (fd : ℕ) (fds : List ℕ) (state : Sockets × W)
      → ((scan (fd ∷ fds) state ≡ ready fd) × IsReady state fd)
        ⊎ (((scan (fd ∷ fds) state ≡ scan fds state) × IsIdle state fd)
            ⊎ ((scan (fd ∷ fds) state ≡ fault) × IsLoose state fd))
  unfolding scan IsIdle
  scan_cases fd fds state = elim (Bool-cases (state.0.fd_accept_counter fd == 0)) [
    | inr waits ↦ inl (rw waits refl, inl (λ e. ground (arith, waits, e)))
    | inl none_waits ↦ elim (Bool-cases (state.0.fd_table fd == 0)) [
      | inl no_conn ↦ inr (
          inr
            (rw (none_waits, no_conn) refl, (ground (arith, none_waits), ground (arith, no_conn))))
      | inr conn ↦ elim (Bool-cases (k.input_elems (state.0.fd_table fd) state.1 == 0)) [
        | inl empty ↦ inr (
            inl (
              rw (none_waits, conn, empty) refl,
              (ground (arith, none_waits), ground (arith, empty)),
            ))
        | inr some_elems ↦ inl (
          rw (none_waits, conn, some_elems) refl,
          inr ((λ e. ground (arith, conn, e)), (λ e. ground (arith, some_elems, e))),
        )
      ]
    ]
  ]

  scan-ready :
      (left from fd : ℕ) (set : ℕ → Bool) (state : Sockets × W)
      → scan (members left from set) state ≡ ready fd
      → (set fd ≡ true) × (from ≤ fd) × (fd < from + left) × IsReady state fd
  unfolding members
  scan-ready zero from fd set state e = absurd (unfold scan in cc e)
  scan-ready (suc left) from fd set state e = elim (Bool-cases (set from)) [
    | inl here ↦
        let first : scan (from ∷ members left (from + 1) set) state ≡ ready fd = rw here at e in
        elim (scan_cases from (members left (from + 1) set) state) [
          | inl (is, r) ↦
              let same : from ≡ fd = cc in
              (rw (sym same) here, omega arith, omega arith, rw (sym same) r)
          | inr (inl (rest, idle)) ↦
              let (a, b, c, r) = scan-ready left (from + 1) fd set state (sym rest ∙ first) in
              (a, omega arith, omega arith, r)
          | inr (inr (bad, loose)) ↦ cc
        ]
    | inr out ↦
        let (a, b, c, r) = scan-ready left (from + 1) fd set state (rw out at e) in
        (a, omega arith, omega arith, r)
  ]

  scan-fault :
      (left from : ℕ) (set : ℕ → Bool) (state : Sockets × W)
      → scan (members left from set) state ≡ fault
      → (fd : ℕ) × (set fd ≡ true) × (fd < from + left) × IsLoose state fd
  unfolding members
  scan-fault zero from set state e = absurd (unfold scan in cc e)
  scan-fault (suc left) from set state e = elim (Bool-cases (set from)) [
    | inl here ↦
        let first : scan (from ∷ members left (from + 1) set) state ≡ fault = rw here at e in
        elim (scan_cases from (members left (from + 1) set) state) [
          | inl (is, r) ↦ cc
          | inr (inl (rest, idle)) ↦
              let (fd, own, hi, loose) = scan-fault left (from + 1) set state (sym rest ∙ first) in
              (fd, own, omega arith, loose)
          | inr (inr (is, loose)) ↦ (from, here, omega arith, loose)
        ]
    | inr out ↦
        let (fd, own, hi, loose) = scan-fault left (from + 1) set state (rw out at e) in
        (fd, own, omega arith, loose)
  ]

  scan-nothing :
      (left from fd : ℕ) (set : ℕ → Bool) (state : Sockets × W)
      → scan (members left from set) state ≡ nothing
      → from ≤ fd
      → fd < from + left
      → set fd ≡ true
      → IsIdle state fd
  unfolding members
  scan-nothing zero from fd set state e lo hi here = absurd (omega arith)
  scan-nothing (suc left) from fd set state e lo hi here = elim (Bool-cases (set from)) [
    | inl own ↦
        let all : scan (from ∷ members left (from + 1) set) state ≡ nothing = rw own at e in
        elim (scan_cases from (members left (from + 1) set) state) [
          | inl (is, r) ↦ cc
          | inr (inr (bad, loose)) ↦ cc
          | inr (inl (rest, idle)) ↦ elim (dec_lt from fd) [
            | yes lt ↦
                scan-nothing left (from + 1) fd set state (sym rest ∙ all) (omega arith)
                  (omega arith) here
            | no ge ↦ let same : from ≡ fd = omega arith in rw (sym same) idle
          ]
        ]
    | inr out ↦ elim (dec_lt from fd) [
      | yes lt ↦
          scan-nothing left (from + 1) fd set state (rw out at e) (omega arith) (omega arith) here
      | no ge ↦ let same : from ≡ fd = omega arith in let own : set from ≡ true = rw same here in cc
    ]
  ]

  -- What `nbp_select` returns after steps of the main loop from `state`, of which `left` are to go.
  abbrev pub Selected : ℕ → ℕ → (ℕ → Bool) → Sockets × W → Ready × (Sockets × W) → Type 0
  Selected left nfds set state (ready fd, st) =
      (set fd ≡ true)
      × (fd < nfds)
      × IsReady st fd
      × ((n : ℕ) × (n < left)
          × (st ≡ steps (suc n) state)
          × ((j fd' : ℕ) → j < n → fd' < nfds → set fd' ≡ true → IsIdle (steps (suc j) state) fd'))
  Selected left nfds set state (nothing, st) =
      (st ≡ steps left state)
      × ((j fd' : ℕ) → j < left → fd' < nfds → set fd' ≡ true → IsIdle (steps (suc j) state) fd')
  Selected left nfds set state (fault, st) =
      (n fd : ℕ) × (n < left)
      × (st ≡ steps (suc n) state)
      × (set fd ≡ true)
      × (fd < nfds)
      × IsLoose st fd

  -- The descriptors of the set are idle after one step, and after those that follow.
  IsIdle-later :
      (nfds n : ℕ) (set : ℕ → Bool) (state : Sockets × W)
      → scan (members nfds 0 set) (k.main_loop_step state) ≡ nothing
      → ((j fd : ℕ)
          → j < n
          → fd < nfds
          → set fd ≡ true
          → IsIdle (steps (suc j) (k.main_loop_step state)) fd)
      → (j fd : ℕ) → j < suc n
      → fd < nfds
      → set fd ≡ true
      → IsIdle (steps (suc j) state) fd
  unfolding steps
  IsIdle-later nfds n set state e rest zero fd lt hi own =
      scan-nothing nfds 0 fd set (k.main_loop_step state) e (omega arith) (omega arith) own
  IsIdle-later nfds n set state e rest (suc j) fd lt hi own = rest j fd (omega arith) hi own

  Selected-step :
      (left nfds : ℕ) (set : ℕ → Bool) (state : Sockets × W) (r : Ready × (Sockets × W))
      → scan (members nfds 0 set) (k.main_loop_step state) ≡ nothing
      → Selected left nfds set (k.main_loop_step state) r
      → Selected (suc left) nfds set state r
  unfolding steps
  Selected-step left nfds set state (ready fd, st) e (own, hi, r, (n, lt, at, idle)) =
      (own, hi, r, (suc n, omega arith, at, IsIdle-later nfds n set state e idle))
  Selected-step left nfds set state (nothing, st) e (at, idle) =
      (at, IsIdle-later nfds left set state e idle)
  Selected-step left nfds set state (fault, st) e (n, fd, lt, at, own, hi, loose) =
      (suc n, fd, omega arith, at, own, hi, loose)

  select_loop-Selected :
      (left nfds : ℕ) (set : ℕ → Bool) (state : Sockets × W)
      → Selected left nfds set state (select_loop left (members nfds 0 set) state)
  unfolding select_loop steps
  select_loop-Selected zero nfds set state = (refl, λ j fd' lt. absurd (omega arith))
  select_loop-Selected (suc left) nfds set state =
      looked (scan (members nfds 0 set) (k.main_loop_step state)) refl (λ e.
        Selected-step left nfds set state _ e
          (select_loop-Selected left nfds set (k.main_loop_step state)))
    where
      next : Sockets × W
      next = k.main_loop_step state

      looked :
          (r : Ready)
          → scan (members nfds 0 set) next ≡ r
          → (scan (members nfds 0 set) next ≡ nothing
              → Selected (suc left) nfds set state (select_loop left (members nfds 0 set) next))
          → Selected (suc left) nfds set state (elim r [
            | nothing ↦ select_loop left (members nfds 0 set) next
            | fault ↦ (fault, next)
            | ready fd ↦ (ready fd, next)
          ])
      looked nothing e rest = rest e
      looked fault e rest =
          let (fd, own, hi, loose) = scan-fault nfds 0 set next e in
          (0, fd, omega arith, refl, own, omega arith, loose)
      looked (ready fd) e rest =
          let (own, lo, hi, r) = scan-ready nfds 0 fd set next e in
          (own, omega arith, r, (0, omega arith, refl, λ j fd' lt. absurd (omega arith)))

-- `nbp_select` always returns. With 1, there is exactly one descriptor left in the set: it was in the set, it has a
-- connection to accept or something to read, and no descriptor of the set had so after an earlier step of the
-- main loop. With 0, a thousand steps were made, and none had so after any of them. Else a
-- descriptor was looked at that has no connection and none to accept.
pub nbp_select_lem :
    {W : Type 0} (k : Stack W) (nfds : ℕ) (set : ℕ → Bool) (state : Sockets × W)
    → Selected k 1000 nfds set state (nbp_select k nfds set state)
unfolding nbp_select
nbp_select_lem k nfds set state = select_loop-Selected k 1000 nfds set state
