-- ===== src/Hub.antt =====
-- utils/hub/ipc_hub.c: one round of the main loop over the sockets that `select` reports. What `read` gives
-- for a socket is an argument, `none` where it has closed; `send` is an entry of a list.
mod Relay
mod Round
mod Examples
use net_blocks.Base.{
  ℕ, zero, suc, ◌+◌, ◌-◌, Bool, Option, none, some, List, [], ◌∷◌, ◌++◌, ltb, ◌==◌, if◌then◌else◌,
}
use net_blocks.Packet.{◌>>=◌}
use net_blocks.Queue.{Array, put}

-- The sockets that are connected, and the messages sent in this program's run: to which socket, and what.
pub record Hub : Type 0 where
  pub fds : Array
  pub fd_count : ℕ
  pub sent : List (ℕ × ℕ)

-- What `select` and `read` say in this round.
pub record Input : Type 0 where
  pub is_set : ℕ → Bool
  pub read : ℕ → Option ℕ

abbrev pub max_sockets : ℕ
max_sockets = 256

-- `fds[fd_count++] = new_fd`; `none` is a write past the end of `fds`, which the C code does not check for.
unfoldable pub accept_new : Hub → ℕ → Option Hub
unfolding put
accept_new h new_fd =
    if ltb h.fd_count max_sockets
    then some (record h { fds = put h.fds h.fd_count new_fd; fd_count = h.fd_count + 1 })
    else none

-- The loop that sends to all sockets but the one at `i`, from `j` on.
unfoldable pub send_others : ℕ → ℕ → ℕ → Array → ℕ → List (ℕ × ℕ)
send_others zero i j fds message = []
send_others (suc left) i j fds message =
    let rest = send_others left i (j + 1) fds message in
    if i == j then rest else (fds j, message) ∷ rest

-- What is done with the socket at `i`, which is in the set: whether it is removed, and the new state.
unfoldable pub close_at : Hub → ℕ → Hub
unfolding put
close_at h i = record h { fds = put h.fds i (h.fds (h.fd_count - 1)); fd_count = h.fd_count - 1 }

unfoldable pub relay_at : Hub → ℕ → ℕ → Hub
unfolding send_others
relay_at h i message = record h { sent = h.sent ++ send_others h.fd_count i 0 h.fds message }

-- The loop over the sockets, on fuel. Behind a socket that has closed, the index stays.
unfoldable pub relay : ℕ → Input → ℕ → Hub → Option Hub
relay zero input i h = none
relay (suc fuel) input i h =
    let next = relay fuel input in
    let fd = h.fds i in
    if ltb i h.fd_count
    then if input.is_set fd
      then elim (input.read fd) as (λ _. Option Hub) [
        | none ↦ next i (close_at h i)
        | some message ↦ next (i + 1) (relay_at h i message)
      ]
      else next (i + 1) h
    else some h

-- One round: first `new_fd`, which `accept` gives where the hub's own socket is in the set.
unfoldable pub hub_round : Input → Option ℕ → Hub → Option Hub
unfolding accept_new
hub_round input none h = relay (h.fd_count + 1) input 0 h
hub_round input (some new_fd) h = accept_new h new_fd >>= λ g. relay (g.fd_count + 1) input 0 g
