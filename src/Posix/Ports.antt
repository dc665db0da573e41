-- ===== src/Posix/Ports.antt =====
-- The source ports of network.c.
use net_blocks.Base.{
  ltb, ◌&&◌, not, ◌≢◌, sym, ℕ, zero, suc, ◌+◌, ◌-◌, ◌≤◌, ◌<◌, ◌≡◌, ◌≢◌, refl, sym, ap, ◌∙◌, Option,
  none, some, arith, ◌==◌, Bool-cases, inl, inr, true, false,
}
use native.Mathlib.Decide.{dec_lt}
use net_blocks.Queue.{Array, put}
use net_blocks.Posix.{
  max_fds, first_port, end_port, Sockets, grab_free_fd, nbp_socket, reset_fd, port_loop, occupy,
  find_free_port, set_connection, nbp_connect, release_fd, nbp_close,
}

-- The first free port from `i` on.
pub record IsFirstFree (occupied : Array) (i end port : ℕ) : Type 0 where
  pub above : i ≤ port
  pub below : port < end
  pub free : occupied (port - 8000) ≡ 0
  pub least : (k : ℕ) → i ≤ k → k < port → occupied (k - 8000) ≢ 0

still_taken :
    (occupied : Array) (i j : ℕ)
    → (occupied (i - 8000) == 0) ≡ false
    → j ≡ i
    → occupied (j - 8000) ≢ 0
still_taken occupied i j taken same free =
    let here : occupied (i - 8000) ≡ 0 = ap (λ n. occupied (n - 8000)) (sym same) ∙ free in
    absurd (ground (arith, taken, here))

port_loop-IsFirstFree :
    (left : ℕ) (occupied : Array) (i end k : ℕ)
    → end ≡ i + left
    → i ≤ k
    → k < end
    → occupied (k - 8000) ≡ 0
    → (port : ℕ) × (port_loop left occupied i ≡ some port) × IsFirstFree occupied i end port
unfolding port_loop
port_loop-IsFirstFree zero occupied i end k e lo hi free = absurd (omega arith)
port_loop-IsFirstFree (suc left) occupied i end k e lo hi free =
    elim (Bool-cases (occupied (i - 8000) == 0)) [
      | inl here ↦ (
        i,
        rw here refl,
        record {
          above = omega arith;
          below = omega arith;
          free = ground (arith, here);
          least = λ j p q. absurd (omega arith);
        },
      )
      | inr taken ↦
          let ne : k ≢ i = λ same. still_taken occupied i k taken same free in
          let (port, found, rest) =
            port_loop-IsFirstFree left occupied (i + 1) end k (omega arith) (omega arith) hi free in
          let above = rest.above in
          (
            port,
            rw taken found,
            record {
              above = omega (arith, above);
              below = rest.below;
              free = rest.free;
              least = λ j p q. elim (dec_lt i j) [
                | yes later ↦ rest.least j (omega arith) q
                | no first ↦ still_taken occupied i j taken (omega arith)
              ];
            },
          )
    ]

grabbed :
    (s : Sockets) (fd : ℕ)
    → fd < max_fds
    → s.nb_fd fd ≡ 0
    → grab_free_fd s fd ≡ some (record s { nb_fd = put s.nb_fd fd 1 })
unfolding grab_free_fd
grabbed s fd inside closed =
    let e : (ltb fd max_fds && (s.nb_fd fd == 0)) ≡ true = ground (arith, closed, inside) in
    rw e refl

socket_lem :
    (s : Sockets) (fd : ℕ)
    → fd < max_fds
    → s.nb_fd fd ≡ 0
    → (g : Sockets) × (nbp_socket s fd ≡ some g)
      × (g.port_occupied ≡ s.port_occupied)
      × (g.nb_fd fd ≡ 1)
      × (g.fd_table fd ≡ 0)
      × (g.fd_src_port fd ≡ 0)
unfolding nbp_socket reset_fd put
socket_lem s fd inside closed = (
  reset_fd (record s { nb_fd = put s.nb_fd fd 1 }) fd,
  ap (λ x. elim x as (λ _. Option Sockets) [ none ↦ none | some g ↦ some (reset_fd g fd) ])
      (grabbed s fd inside closed),
  refl,
  ground arith,
  ground arith,
  ground arith,
)

free_port :
    (s : Sockets) (port : ℕ)
    → port_loop (end_port - first_port) s.port_occupied first_port ≡ some port
    → find_free_port s ≡ some (port, occupy s port)
unfolding find_free_port
free_port s port found =
    ap (λ x. elim x as (λ _. Option (ℕ × Sockets)) [ none ↦ none | some p ↦ some (p, occupy s p) ])
      found

connect_lem :
    (s : Sockets) (fd conn port : ℕ)
    → s.nb_fd fd ≡ 1
    → s.fd_table fd ≡ 0
    → port_loop (end_port - first_port) s.port_occupied first_port ≡ some port
    → (g : Sockets) × (nbp_connect s fd conn ≡ some (port, g))
      × (g.port_occupied (port - 8000) ≡ 1)
      × (g.nb_fd fd ≡ 1)
      × (g.fd_table fd ≡ conn)
      × (g.fd_src_port ≡ s.fd_src_port)
unfolding nbp_connect occupy set_connection put
connect_lem s fd conn port ours none_yet found =
    let e : (s.nb_fd fd == 1) ≡ true = ground (arith, ours) in
    let f : (s.fd_table fd == 0) ≡ true = ground (arith, none_yet) in
    (
      record (occupy s port) { fd_table = put s.fd_table fd conn },
      rw e (ap (set_connection fd conn) (free_port s port found) ∙ (rw f refl)),
      ground arith,
      ours,
      ground arith,
      refl,
    )

close_lem :
    (s : Sockets) (fd port : ℕ)
    → s.nb_fd fd ≡ 1
    → s.fd_table fd ≢ 0
    → s.fd_src_port fd ≡ 0
    → s.port_occupied (port - 8000) ≡ 1
    → first_port ≤ port
    → (g : Sockets) × (nbp_close s fd ≡ some g)
      × (g.nb_fd fd ≡ 0)
      × (g.fd_table fd ≡ 0)
      × (g.port_occupied (port - 8000) ≡ 1)
unfolding nbp_close release_fd put
close_lem s fd port ours there unset occupied lo =
    let e : ((s.nb_fd fd == 1) && not (s.fd_table fd == 0)) ≡ true = ground (arith, ours, there) in
    let far : (port - 8000 == s.fd_src_port fd) ≡ false = ground (arith, unset, lo) in
    (release_fd s fd, rw e refl, ground arith, ground arith, rw far occupied)

-- While a port is free, a socket that is opened with a descriptor within the tables, connected (to a connection that is not `NULL`) and closed takes the least free source
-- port from 8080 on, and closing it does not free the port: it is still occupied afterwards, though the
-- descriptor is released.
pub nbp_close_keeps_port :
    (s : Sockets) (fd conn k : ℕ)
    → fd < max_fds
    → s.nb_fd fd ≡ 0
    → conn ≢ 0
    → first_port ≤ k
    → k < end_port
    → s.port_occupied (k - 8000) ≡ 0
    → (s₁ s₂ s₃ : Sockets) × (port : ℕ) × (nbp_socket s fd ≡ some s₁)
      × (nbp_connect s₁ fd conn ≡ some (port, s₂))
      × (nbp_close s₂ fd ≡ some s₃)
      × IsFirstFree s.port_occupied first_port end_port port
      × (s₃.nb_fd fd ≡ 0)
      × (s₃.port_occupied (port - 8000) ≡ 1)
nbp_close_keeps_port s fd conn k inside closed there lo hi free =
    let (port, found, first) =
      port_loop-IsFirstFree (end_port - first_port) s.port_occupied first_port end_port k
        (omega arith) lo hi free in
    let (s₁, opened, same, own, empty, unset) = socket_lem s fd inside closed in
    let found₁ = ap (λ o. port_loop (end_port - first_port) o first_port) same ∙ found in
    let (s₂, connected, occupied, own₂, has, ports) =
      connect_lem s₁ fd conn port own empty found₁ in
    let (s₃, done, released, gone, left) =
      close_lem s₂ fd port own₂ (λ e. there (sym has ∙ e)) (ap (λ a. a fd) ports ∙ unset) occupied
        first.above in
    (s₁, s₂, s₃, port, opened, connected, done, first, released, left)
