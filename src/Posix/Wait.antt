-- ===== src/Posix/Wait.antt =====
-- The calls of network.c that run the main loop until something comes.
use net_blocks.Base.{
  ltb, ◌&&◌, ℕ, zero, suc, ◌-◌, ◌<◌, ◌≡◌, ◌≢◌, refl, ap, ◌∙◌, true, false, Option, none, some, ◌==◌,
  arith,
}
use net_blocks.Queue.{put}
use net_blocks.Posix.{max_fds, Sockets, grab_free_fd}
use net_blocks.Posix.Calls.{Stack, wait_accept, accepted, accept_at, nbp_accept}
use net_blocks.Posix.Select.{steps}

module _ {W : Type 0} (k : Stack W) where
  wait_accept-steps :
      (n fuel sockfd : ℕ) (state : Sockets × W)
      → n < fuel
      → ((j : ℕ) → j < n → (steps k j state).0.fd_accept_counter sockfd ≡ 0)
      → (steps k n state).0.fd_accept_counter sockfd ≢ 0
      → wait_accept k fuel sockfd state ≡ some (steps k n state)
  unfolding wait_accept steps
  wait_accept-steps n zero sockfd state lt before waits = absurd (omega arith)
  wait_accept-steps zero (suc fuel) sockfd state lt before waits =
      let some_waits : (state.0.fd_accept_counter sockfd == 0) ≡ false = ground (arith, waits) in
      rw some_waits refl
  wait_accept-steps (suc n) (suc fuel) sockfd state lt before waits =
      let none_waits : (state.0.fd_accept_counter sockfd == 0) ≡ true =
        ground (arith, before 0 (omega arith)) in
      rw none_waits (
        wait_accept-steps n fuel sockfd (k.main_loop_step state) (omega arith)
          (λ j lt'. before (suc j) (omega arith)) waits)

  -- The tables when a connection has been accepted: only those entries are changed.
  pub record IsAccepted (s t : Sockets) (sockfd fd conn : ℕ) : Type 0 where
    pub belongs : t.nb_fd fd ≡ 1
    pub connection : t.fd_table fd ≡ conn
    pub listener : t.fd_table sockfd ≡ s.fd_table sockfd
    pub taken : t.fd_accept_counter sockfd ≡ s.fd_accept_counter sockfd - 1
    pub stale : t.fd_accept_counter fd ≡ s.fd_accept_counter fd
    pub others : (i : ℕ) → i ≢ fd → i ≢ sockfd → t.fd_accept_counter i ≡ s.fd_accept_counter i

  grab_free_fd-some :
      (s : Sockets) (fd : ℕ)
      → fd < max_fds
      → s.nb_fd fd ≡ 0
      → grab_free_fd s fd ≡ some (record s { nb_fd = put s.nb_fd fd 1 })
  unfolding grab_free_fd
  grab_free_fd-some s fd inside free =
      let test : (ltb fd max_fds && (s.nb_fd fd == 0)) ≡ true = ground (arith, free, inside) in
      rw test refl

  accept_at-some :
      (s : Sockets) (w : W) (sockfd fd : ℕ)
      → fd < max_fds
      → s.nb_fd fd ≡ 0
      → (k.accept (s.fd_table sockfd) w).0 ≢ 0
      → accept_at k sockfd fd (s, w)
        ≡ some
            (fd, k.main_loop_step (accepted k sockfd fd (record s { nb_fd = put s.nb_fd fd 1 }) w))
  unfolding accept_at
  accept_at-some s w sockfd fd inside free gives =
      let there : ((k.accept (s.fd_table sockfd) w).0 == 0) ≡ false = ground (arith, gives) in
      rw (grab_free_fd-some s fd inside free, there, accept_at) refl

  accepted-IsAccepted :
      (s : Sockets) (w : W) (sockfd fd : ℕ)
      → fd ≢ sockfd
      → IsAccepted s
          (accepted k sockfd fd (record s { nb_fd = put s.nb_fd fd 1 }) w).0
          sockfd
          fd
          (k.accept (s.fd_table sockfd) w).0
  unfolding accepted put
  accepted-IsAccepted s w sockfd fd ne = record {
    belongs = ground arith;
    connection = ground arith;
    listener = ground (arith, ne);
    taken = ground arith;
    stale = ground (arith, ne);
    others = λ i a b. ground arith;
  }

-- `nbp_accept` on a descriptor of the stack returns when there is a connection to accept after `n` steps of
-- the main loop, fewer than the fuel, and none before, and `nb__accept` does not give `NULL` then: the system's new descriptor, which lies within the tables and is not in use, gets the connection, one
-- connection less waits, and then one more step is made. The count of waiting connections of the new descriptor
-- is what an earlier socket left there.
pub nbp_accept_lem :
    {W : Type 0} (k : Stack W) (n fuel sockfd fd : ℕ) (state : Sockets × W)
    → state.0.nb_fd sockfd ≡ 1
    → n < fuel
    → ((j : ℕ) → j < n → (steps k j state).0.fd_accept_counter sockfd ≡ 0)
    → (steps k n state).0.fd_accept_counter sockfd ≢ 0
    → fd < max_fds
    → (steps k n state).0.nb_fd fd ≡ 0
    → fd ≢ sockfd
    → (k.accept ((steps k n state).0.fd_table sockfd) (steps k n state).1).0 ≢ 0
    → (t : Sockets) × (w : W) × (nbp_accept k fuel state sockfd fd
        ≡ some (fd, k.main_loop_step (t, w)))
      × IsAccepted k
          (steps k n state).0
          t
          sockfd
          fd
          (k.accept ((steps k n state).0.fd_table sockfd) (steps k n state).1).0
unfolding nbp_accept
nbp_accept_lem {W} k n fuel sockfd fd (s, w) own lt before waits inside free ne gives =
    let test : (s.nb_fd sockfd == 1) ≡ true = ground (arith, own) in
    let at = steps k n (s, w) in
    let done = accepted k sockfd fd (record at.0 { nb_fd = put at.0.nb_fd fd 1 }) at.1 in
    (
      done.0,
      done.1,
      rw test (
          ap
            (λ (o : Option (Sockets × W)). elim o as (λ _. Option (ℕ × (Sockets × W))) [
              | none ↦ none
              | some state ↦ accept_at k sockfd fd state
            ])
            (wait_accept-steps k n fuel sockfd (s, w) lt before waits)
          ∙ accept_at-some k at.0 at.1 sockfd fd inside free gives),
      accepted-IsAccepted k at.0 at.1 sockfd fd ne,
    )
