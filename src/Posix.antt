-- ===== src/Posix.antt =====
-- runtime/posix/src/network.c: sockets over the protocol stack, as far as descriptors and ports go. A
-- call on a descriptor that is not the stack's goes to the system; `none` stands for that, and for a
-- failed assertion. What the system and `nb__establish` return are arguments.
pub mod Ports
pub mod Calls
pub mod Select
pub mod Wait
mod Examples
use net_blocks.Base.{
  ltb, ◌&&◌, not, ℕ, zero, suc, ◌+◌, ◌-◌, Option, none, some, ◌==◌, if◌then◌else◌,
}
use net_blocks.Queue.{Array, put}

abbrev pub first_port : ℕ
first_port = 8080

abbrev pub end_port : ℕ
end_port = 10000

-- The static tables. A connection is a pointer, 0 is `NULL`.
pub record Sockets : Type 0 where
  pub fd_table : Array
  pub nb_fd : Array
  pub port_occupied : Array
  pub fd_src_port : Array
  pub fd_accept_counter : Array
  pub fd_establish_status : Array

abbrev pub max_fds : ℕ
max_fds = 256

-- `grab_free_fd`, where the system opens `fd`; `none` is a failed assertion or an access behind the tables.
unfoldable pub grab_free_fd : Sockets → ℕ → Option Sockets
unfolding put
grab_free_fd s fd =
    if ltb fd max_fds && (s.nb_fd fd == 0)
    then some (record s { nb_fd = put s.nb_fd fd 1 })
    else none

unfoldable pub reset_fd : Sockets → ℕ → Sockets
unfolding put
reset_fd g fd = record g {
  fd_table = put g.fd_table fd 0;
  fd_accept_counter = put g.fd_accept_counter fd 0;
  fd_establish_status = put g.fd_establish_status fd 0;
  fd_src_port = put g.fd_src_port fd 0;
}

unfoldable pub nbp_socket : Sockets → ℕ → Option Sockets
nbp_socket s fd = elim (grab_free_fd s fd) [ none ↦ none | some g ↦ some (reset_fd g fd) ]

-- The loop of `find_free_port` from port `i` on.
unfoldable pub port_loop : ℕ → Array → ℕ → Option ℕ
port_loop zero occupied i = none
port_loop (suc left) occupied i =
    let rest = port_loop left occupied (i + 1) in if occupied (i - 8000) == 0 then some i else rest

unfoldable pub occupy : Sockets → ℕ → Sockets
unfolding put
occupy s port = record s { port_occupied = put s.port_occupied (port - 8000) 1 }

unfoldable pub find_free_port : Sockets → Option (ℕ × Sockets)
find_free_port s = elim (port_loop (end_port - first_port) s.port_occupied first_port) [
  | none ↦ none
  | some port ↦ some (port, occupy s port)
]

-- The part of `nbp_connect` with a source port, up to the wait for the connection.
unfoldable pub set_connection : ℕ → ℕ → Option (ℕ × Sockets) → Option (ℕ × Sockets)
unfolding put
set_connection sockfd conn none = none
set_connection sockfd conn (some (port, g)) =
    if g.fd_table sockfd == 0
    then some (port, record g { fd_table = put g.fd_table sockfd conn })
    else none

-- `nbp_connect`; the result also has the source port.
unfoldable pub nbp_connect : Sockets → ℕ → ℕ → Option (ℕ × Sockets)
nbp_connect s sockfd conn =
    if s.nb_fd sockfd == 1 then set_connection sockfd conn (find_free_port s) else none

unfoldable pub release_fd : Sockets → ℕ → Sockets
unfolding put
release_fd s fd = record s {
  port_occupied = put s.port_occupied (s.fd_src_port fd) 0;
  fd_table = put s.fd_table fd 0;
  nb_fd = put s.nb_fd fd 0;
}

-- `nb__destablish` faults on `NULL`, which is what a socket without a connection has.
unfoldable pub nbp_close : Sockets → ℕ → Option Sockets
nbp_close s fd =
    if (s.nb_fd fd == 1) && not (s.fd_table fd == 0) then some (release_fd s fd) else none
