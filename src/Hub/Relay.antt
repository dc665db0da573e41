-- ===== src/Hub/Relay.antt =====
-- A round of ipc_hub.c ends, and drops the sockets that have closed and no other.
use net_blocks.Base.{
  ℕ, zero, suc, ◌+◌, ◌-◌, ◌≤◌, ◌<◌, ◌≡◌, ◌≢◌, ◌⊎◌, inl, inr, refl, sym, ap, ◌∙◌, Bool, true, false,
  ◌&&◌, Option, none, some, ltb, ◌==◌, arith, Bool-cases,
}
use native.Mathlib.Decide.{dec_lt}
use net_blocks.Queue.{put}
use net_blocks.Hub.{Hub, Input, close_at, relay_at, relay}

pub is_none {ℓ} : {A : Type ℓ} → Option A → Bool
is_none none = true
is_none (some x) = false

-- The socket is in the set, and has closed.
abbrev pub has_closed : Input → ℕ → Bool
has_closed input fd = input.is_set fd && is_none (input.read fd)

-- The loop from `i` on: what is left are the sockets in front of `i` and those that have not closed.
pub record Kept (input : Input) (i : ℕ) (h h' : Hub) : Type 0 where
  pub from_before :
      (j : ℕ)
      → j < h'.fd_count
      → (j₀ : ℕ) × (j₀ < h.fd_count)
        × (h'.fds j ≡ h.fds j₀)
        × ((j₀ < i) ⊎ (has_closed input (h.fds j₀) ≡ false))
  pub stays :
      (j₀ : ℕ)
      → j₀ < h.fd_count
      → (j₀ < i) ⊎ (has_closed input (h.fds j₀) ≡ false)
      → (j : ℕ) × (j < h'.fd_count) × (h'.fds j ≡ h.fds j₀)

-- A round of the loop that goes on behind a socket that stays.
Kept-next :
    (input : Input) (i : ℕ) (h g h' : Hub)
    → has_closed input (h.fds i) ≡ false
    → g.fds ≡ h.fds
    → g.fd_count ≡ h.fd_count
    → Kept input (i + 1) g h'
    → Kept input i h h'
Kept-next input i h g h' open_fd same count k = record {
  from_before = λ j lt.
      (let (j₀, lt₀, at, why) = k.from_before j lt in
        (j₀, omega (arith, count, lt₀), at ∙ ap (λ a. a j₀) same, front j₀ why));
  stays = λ j₀ lt why.
      let (j, lt', at) = k.stays j₀ (omega (arith, count, lt)) (behind j₀ why) in
      (j, lt', at ∙ ap (λ a. a j₀) same);
}
  where
    front :
        (j₀ : ℕ)
        → (j₀ < i + 1) ⊎ (has_closed input (g.fds j₀) ≡ false)
        → (j₀ < i) ⊎ (has_closed input (h.fds j₀) ≡ false)
    front j₀ (inr still) = inr (ap (λ a. has_closed input (a j₀)) (sym same) ∙ still)
    front j₀ (inl lt) = elim (dec_lt j₀ i) [
      | yes lt' ↦ inl lt'
      | no ge ↦
          inr (ap (λ n. has_closed input (h.fds n)) (let e : j₀ ≡ i = omega arith in e) ∙ open_fd)
    ]

    behind :
        (j₀ : ℕ)
        → (j₀ < i) ⊎ (has_closed input (h.fds j₀) ≡ false)
        → (j₀ < i + 1) ⊎ (has_closed input (g.fds j₀) ≡ false)
    behind j₀ (inl lt) = inl (omega arith)
    behind j₀ (inr still) = inr (ap (λ a. has_closed input (a j₀)) same ∙ still)

-- The entries behind a removal.
close_at-moved : (h : Hub) (i : ℕ) → (close_at h i).fds i ≡ h.fds (h.fd_count - 1)
unfolding close_at put
close_at-moved h i = ground arith

close_at-other : (h : Hub) (i j : ℕ) → j ≢ i → (close_at h i).fds j ≡ h.fds j
unfolding close_at put
close_at-other h i j ne = ground arith

close_at-count : (h : Hub) (i : ℕ) → (close_at h i).fd_count ≡ h.fd_count - 1
unfolding close_at
close_at-count h i = refl

-- A round that removes the socket at `i`.
Kept-close :
    (input : Input) (i : ℕ) (h h' : Hub)
    → i < h.fd_count
    → has_closed input (h.fds i) ≡ true
    → Kept input i (close_at h i) h'
    → Kept input i h h'
Kept-close input i h h' lt closed k = record {
  from_before =
      λ j lt'. (let (j₀, lt₀, at, why) = k.from_before j lt' in back j₀ (h'.fds j) lt₀ at why);
  stays = λ j₀ lt₀ why. forth j₀ lt₀ why;
}
  where
    g : Hub
    g = close_at h i

    moved : has_closed input (g.fds i) ≡ has_closed input (h.fds (h.fd_count - 1))
    moved = ap (has_closed input) (close_at-moved h i)

    back :
        (j₀ fd : ℕ)
        → j₀ < g.fd_count
        → fd ≡ g.fds j₀
        → (j₀ < i) ⊎ (has_closed input (g.fds j₀) ≡ false)
        → (n : ℕ) × (n < h.fd_count)
          × (fd ≡ h.fds n)
          × ((n < i) ⊎ (has_closed input (h.fds n) ≡ false))
    back j₀ fd lt₀ at why = elim (Bool-cases (j₀ == i)) [
      | inl own ↦
          let same : j₀ ≡ i = ground (arith, own) in
          (
            h.fd_count - 1,
            omega arith,
            at ∙ ap g.fds same ∙ close_at-moved h i,
            inr (elim why [
              | inl below ↦ absurd (omega arith)
              | inr still ↦ sym moved ∙ ap (λ n. has_closed input (g.fds n)) (sym same) ∙ still
            ]),
          )
      | inr other ↦
          let ne : j₀ ≢ i = λ e. ground (arith, other, e) in
          let same = close_at-other h i j₀ ne in
          (
            j₀,
            omega (arith, close_at-count h i, lt₀),
            at ∙ same,
            elim why [
              | inl below ↦ inl below
              | inr still ↦ inr (ap (has_closed input) (sym same) ∙ still)
            ],
          )
    ]

    forth :
        (j₀ : ℕ)
        → j₀ < h.fd_count
        → (j₀ < i) ⊎ (has_closed input (h.fds j₀) ≡ false)
        → (j : ℕ) × (j < h'.fd_count) × (h'.fds j ≡ h.fds j₀)
    forth j₀ lt₀ (inl below) =
        let same = close_at-other h i j₀ (omega arith) in
        let (j, lt', at) = k.stays j₀ (omega (arith, close_at-count h i)) (inl below) in
        (j, lt', at ∙ same)
    forth j₀ lt₀ (inr still) = elim (Bool-cases (j₀ == h.fd_count - 1)) [
      | inl last ↦
          let same : h.fd_count - 1 ≡ j₀ = ground (arith, last) in
          let ne : i ≢ j₀ = λ e. closed_apart (ap (λ n. has_closed input (h.fds n)) e ∙ still) in
          let (j, lt', at) =
            k.stays i (omega (arith, close_at-count h i))
              (inr (moved ∙ ap (λ n. has_closed input (h.fds n)) same ∙ still)) in
          (j, lt', at ∙ close_at-moved h i ∙ ap h.fds same)
      | inr earlier ↦
          let ne : j₀ ≢ i =
            λ e. closed_apart (ap (λ n. has_closed input (h.fds n)) (sym e) ∙ still) in
          let same = close_at-other h i j₀ ne in
          let before : j₀ ≢ h.fd_count - 1 = λ e. ground (arith, earlier, e) in
          let (j, lt', at) =
            k.stays j₀ (omega (arith, close_at-count h i))
              (inr (ap (has_closed input) same ∙ still)) in
          (j, lt', at ∙ same)
    ]
      where
        closed_apart : has_closed input (h.fds i) ≡ false → ⊥
        closed_apart e = let both = sym closed ∙ e in cc

Kept-end : (input : Input) (i : ℕ) (h : Hub) → h.fd_count ≤ i → Kept input i h h
Kept-end input i h end = record {
  from_before = λ j lt. (j, lt, refl, inl (omega arith));
  stays = λ j lt why. (j, lt, refl);
}

read_cases {ℓ} : {A : Type ℓ} → (o : Option A) → (o ≡ none) ⊎ ((a : A) × (o ≡ some a))
read_cases none = inl refl
read_cases (some a) = inr (a, refl)

-- The loop ends, once a round is left for every socket from `i` on.
pub relay-Kept :
    (fuel : ℕ) (input : Input) (i : ℕ) (h : Hub)
    → h.fd_count - i < fuel
    → (h' : Hub) × (relay fuel input i h ≡ some h') × Kept input i h h'
unfolding relay is_none
relay-Kept zero input i h lt = absurd (omega arith)
relay-Kept (suc fuel) input i h lt = elim (Bool-cases (ltb i h.fd_count)) [
  | inr end ↦ (h, rw end refl, Kept-end input i h (ground (arith, end)))
  | inl more ↦
      let below : i < h.fd_count = ground (arith, more) in
      elim (Bool-cases (input.is_set (h.fds i))) [
        | inr idle ↦
            let (h', runs, k) = relay-Kept fuel input (i + 1) h (omega arith) in
            (h', rw (more, idle) runs, Kept-next input i h h h' (rw idle refl) refl refl k)
        | inl set ↦ elim (read_cases (input.read (h.fds i))) [
          | inl closed ↦
              let (h', runs, k) =
                relay-Kept fuel input i (close_at h i) (omega (arith, close_at-count h i)) in
              (
                h',
                rw (more, set, closed) runs,
                Kept-close input i h h' below (rw (set, closed) refl) k,
              )
          | inr (message, reads) ↦
              let (h', runs, k) =
                relay-Kept fuel input (i + 1) (relay_at h i message)
                  (unfold relay_at in omega arith) in
              (
                h',
                rw (more, set, reads) runs,
                Kept-next input i h (relay_at h i message) h' (rw (set, reads) refl)
                    (unfold relay_at in refl) (unfold relay_at in refl) k,
              )
        ]
      ]
]
