-- ===== src/Hub/Round.antt =====
-- A round of ipc_hub.c, and the sockets that a message goes to.
use net_blocks.Base.{
  ℕ, zero, suc, ◌+◌, ◌-◌, ◌<◌, ◌≡◌, inl, inr, refl, sym, ap, ◌∙◌, true, false, Option, none, some,
  List, [], ◌∷◌, ◌++◌, ◌==◌, arith, ltb,
}
use net_blocks.Queue.{Array, put}
use net_blocks.Hub.{Hub, Input, max_sockets, accept_new, relay_at, relay, hub_round, send_others}
use net_blocks.Hub.Relay.{has_closed, relay-Kept}

-- A socket of the hub.
abbrev pub Connected : Hub → ℕ → Type 0
Connected h fd = (j : ℕ) × (j < h.fd_count) × (h.fds j ≡ fd)

-- What a round leaves of the sockets.
pub record Rounded (input : Input) (h h' : Hub) : Type 0 where
  pub stays : (fd : ℕ) → Connected h fd → has_closed input fd ≡ false → Connected h' fd
  pub was : (fd : ℕ) → Connected h' fd → Connected h fd
  pub alive : (fd : ℕ) → Connected h' fd → has_closed input fd ≡ false

relay-Rounded :
    (input : Input) (h : Hub) (fuel : ℕ)
    → h.fd_count < fuel
    → (h' : Hub) × (relay fuel input 0 h ≡ some h') × Rounded input h h'
relay-Rounded input h fuel lt =
    let (h', runs, k) = relay-Kept fuel input 0 h (omega arith) in
    (
      h',
      runs,
      record {
        stays = λ fd (j, lt', at) still.
            let (n, ltn, same) = k.stays j lt' (inr (ap (has_closed input) at ∙ still)) in
            (n, ltn, same ∙ at);
        was = λ fd (j, lt', at).
            (let (n, ltn, same, why) = k.from_before j lt' in (n, ltn, sym same ∙ at));
        alive = λ fd (j, lt', at).
            (let (n, ltn, same, why) = k.from_before j lt' in
              elim why [
                | inl below ↦ absurd (omega arith)
                | inr still ↦ ap (has_closed input) (sym at ∙ same) ∙ still
              ]);
      },
    )

-- The hub with the socket that it accepts in this round.
abbrev pub accepting : Option ℕ → Hub → Hub
accepting none h = h
accepting (some new_fd) h = record h {
  fds = put h.fds h.fd_count new_fd;
  fd_count = h.fd_count + 1;
}

-- With fewer than 256 sockets, a round of the hub ends. Of its sockets, the new one included, exactly those are left that have not closed.
pub hub_round_lem :
    (input : Input) (new_fd : Option ℕ) (h : Hub)
    → h.fd_count < max_sockets
    → (h' : Hub) × (hub_round input new_fd h ≡ some h') × Rounded input (accepting new_fd h) h'
unfolding hub_round accept_new
hub_round_lem input none h room = relay-Rounded input h (h.fd_count + 1) (omega arith)
hub_round_lem input (some new_fd) h room =
    let fits : ltb h.fd_count max_sockets ≡ true = ground (arith, room) in
    let g = accepting (some new_fd) h in
    rw fits (relay-Rounded input g (g.fd_count + 1) (omega arith))

-- The message for each of `n` sockets from `j` on.
unfoldable pub row : ℕ → ℕ → Array → ℕ → List (ℕ × ℕ)
row zero j fds message = []
row (suc n) j fds message = (fds j, message) ∷ row n (j + 1) fds message

send_others-behind :
    (left i j : ℕ) (fds : Array) (message : ℕ)
    → i < j
    → send_others left i j fds message ≡ row left j fds message
unfolding send_others row
send_others-behind zero i j fds message lt = refl
send_others-behind (suc left) i j fds message lt =
    let other : (i == j) ≡ false = ground arith in
    rw other (
      ap (λ ms. (fds j, message) ∷ ms)
        (send_others-behind left i (j + 1) fds message (omega arith)))

send_others-split :
    (left before behind i j : ℕ) (fds : Array) (message : ℕ)
    → left ≡ before + suc behind
    → i ≡ j + before
    → send_others left i j fds message ≡ row before j fds message ++ row behind (i + 1) fds message
unfolding send_others row
send_others-split zero before behind i j fds message len at = absurd (omega arith)
send_others-split (suc left) zero behind i j fds message len at =
    let own : (i == j) ≡ true = ground (arith, at) in
    let same : left ≡ behind = omega arith in
    let next : j + 1 ≡ i + 1 = omega arith in
    rw own (
      send_others-behind left i (j + 1) fds message (omega arith)
      ∙ ap (λ n. row n (j + 1) fds message) same
      ∙ ap (λ n. row behind n fds message) next)
send_others-split (suc left) (suc before) behind i j fds message len at =
    let other : (i == j) ≡ false = ground (arith, at) in
    rw other (
      ap (λ ms. (fds j, message) ∷ ms)
        (send_others-split left before behind i (j + 1) fds message (omega arith) (omega arith)))

-- The message of the socket at `i` is sent once to each of the sockets in front of it, in their order, and then to
-- each of those behind it, and not to the socket itself.
pub relay_at_lem :
    (h : Hub) (i message : ℕ)
    → i < h.fd_count
    → (relay_at h i message).sent
      ≡ h.sent ++ (row i 0 h.fds message ++ row (h.fd_count - i - 1) (i + 1) h.fds message)
unfolding relay_at
relay_at_lem h i message lt =
    ap (λ ms. h.sent ++ ms)
      (send_others-split h.fd_count i (h.fd_count - i - 1) i 0 h.fds message (omega arith)
        (omega arith))
