-- ===== src/Posix/Calls.antt =====
-- runtime/posix/src/network.c: the calls that wait for the stack, over what the generated stack offers.
use net_blocks.Base.{
  ℕ, zero, suc, ◌+◌, ◌-◌, ◌&&◌, Option, none, some, List, [], ◌∷◌, ◌==◌, length, if◌then◌else◌,
}
use net_blocks.Queue.{put}
use net_blocks.Identifier.{QueueEvent, event_established, event_read_ready, event_accept_ready}
use net_blocks.Posix.{Sockets, grab_free_fd}

-- The functions of the stack, on the sockets and its own state: a step of the main loop with the
-- callbacks that it makes and the delay; `nb__send`, `nb__read`, `nb__establish`, `nb__accept`, with what
-- they return; the user data of a connection and the number of elements in its input queue.
pub record Stack (W : Type 0) : Type 0 where
  pub main_loop_step : Sockets × W → Sockets × W
  pub send : ℕ → List ℕ → W → ℕ × W
  pub read : ℕ → ℕ → W → ℕ × W
  pub establish : ℕ → ℕ → ℕ → W → ℕ × W
  pub accept : ℕ → W → ℕ × W
  pub set_user_data : ℕ → ℕ → W → W
  pub input_elems : ℕ → W → ℕ

-- `nb_posix_common_callback`, where `fd` is the user data of the connection.
unfoldable pub common_callback : QueueEvent → ℕ → Sockets → Sockets
unfolding put
common_callback event_accept_ready fd s = record s {
  fd_accept_counter = put s.fd_accept_counter fd (s.fd_accept_counter fd + 1);
}
common_callback event_established fd s = record s {
  fd_establish_status = put s.fd_establish_status fd 1;
}
common_callback event_read_ready fd s = s

module _ {W : Type 0} (k : Stack W) where
  -- A call that assigns a connection to a descriptor.
  unfoldable pub attach : Sockets → W → ℕ → ℕ → Sockets × W
  unfolding put
  attach s w fd conn = (record s { fd_table = put s.fd_table fd conn }, k.set_user_data conn fd w)

  -- `nbp_bind`, from the port of the address on: to the wildcard host and port.
  unfoldable pub nbp_bind : Sockets → W → ℕ → ℕ → Option (Sockets × W)
  nbp_bind s w sockfd src_port =
      if (s.nb_fd sockfd == 1) && (s.fd_table sockfd == 0)
      then some (
          k.main_loop_step
            (attach s (k.establish 0 0 src_port w).1 sockfd (k.establish 0 0 src_port w).0))
      else none

  -- The loops that wait, on fuel.
  unfoldable pub wait_accept : ℕ → ℕ → Sockets × W → Option (Sockets × W)
  wait_accept zero sockfd state = none
  wait_accept (suc fuel) sockfd state =
      let rest = wait_accept fuel sockfd (k.main_loop_step state) in
      if state.0.fd_accept_counter sockfd == 0 then rest else some state

  -- What `nbp_accept` does with a new descriptor, before the last step of the main loop. The tables of the
  -- descriptor but `fd_table` are not reset.
  unfoldable pub accepted : ℕ → ℕ → Sockets → W → Sockets × W
  unfolding put
  accepted sockfd fd g w =
      let (conn, w') = k.accept (g.fd_table sockfd) w in
      (
        record g {
          fd_table = put g.fd_table fd conn;
          fd_accept_counter = put g.fd_accept_counter sockfd (g.fd_accept_counter sockfd - 1);
        },
        k.set_user_data conn fd w',
      )

  -- What it does once a connection waits, where the system opens `fd`. `nb__set_user_data` faults on `NULL`,
  -- which `nb__accept` gives where nothing waits in its queue any more.
  unfoldable pub accept_at : ℕ → ℕ → Sockets × W → Option (ℕ × (Sockets × W))
  accept_at sockfd fd (s, w) = elim (grab_free_fd s fd) [
    | none ↦ none
    | some g ↦
        if (k.accept (g.fd_table sockfd) w).0 == 0
        then none
        else some (fd, k.main_loop_step (accepted sockfd fd g w))
  ]

  unfoldable pub nbp_accept : ℕ → Sockets × W → ℕ → ℕ → Option (ℕ × (Sockets × W))
  nbp_accept fuel (s, w) sockfd fd =
      if s.nb_fd sockfd == 1
      then elim (wait_accept fuel sockfd (s, w)) [
        | none ↦ none
        | some state ↦ accept_at sockfd fd state
      ]
      else none

  -- `nbp_send` and `nbp_write`
  unfoldable pub nbp_send : Sockets → W → ℕ → List ℕ → Option (ℕ × W)
  nbp_send s w sockfd buf =
      if s.nb_fd sockfd == 1 then some (k.send (s.fd_table sockfd) buf w) else none

  -- The loop of `nbp_writev`: it stops behind a buffer that is not sent whole.
  unfoldable pub send_all : ℕ → List (List ℕ) → ℕ → W → ℕ × W
  send_all conn [] len_sent w = (len_sent, w)
  send_all conn (buf ∷ bufs) len_sent w =
      let l = (k.send conn buf w).0 in
      let rest = send_all conn bufs (len_sent + l) (k.send conn buf w).1 in
      if l == length buf then rest else (len_sent + l, (k.send conn buf w).1)

  unfoldable pub nbp_writev : Sockets → W → ℕ → List (List ℕ) → Option (ℕ × W)
  nbp_writev s w sockfd iov =
      if s.nb_fd sockfd == 1 then some (send_all (s.fd_table sockfd) iov 0 w) else none

  -- The loop of `nbp_recv`, on fuel: it reads until something comes.
  unfoldable pub wait_read : ℕ → ℕ → ℕ → Sockets × W → Option (ℕ × (Sockets × W))
  wait_read zero conn len state = none
  wait_read (suc fuel) conn len (s, w) =
      let (ret_len, w') = k.read conn len w in
      let rest = wait_read fuel conn len (k.main_loop_step (s, w')) in
      if ret_len == 0 then rest else some (ret_len, (s, w'))

  -- `nbp_recv`, and `nbp_read` behind its test.
  unfoldable pub nbp_recv : ℕ → Sockets × W → ℕ → ℕ → Option (ℕ × (Sockets × W))
  nbp_recv fuel (s, w) sockfd len =
      if s.nb_fd sockfd == 1 then wait_read fuel (s.fd_table sockfd) len (s, w) else none
