-- ===== src/Posix/Examples.antt =====
-- All ports are free but the first.
use net_blocks.Base.{ℕ, ◌+◌, [], ◌∷◌, length, ◌-◌, ◌≡◌, refl, some, arith, ◌==◌, if◌then◌else◌}
use net_blocks.Posix.{first_port, end_port, Sockets, nbp_socket, nbp_connect, nbp_close}
use net_blocks.Posix.Calls.{Stack, nbp_accept, nbp_writev, send_all}
use net_blocks.Posix.Select.{
  Selected, ready, nbp_select, select_loop, scan, members, steps, nbp_select_lem,
}
use net_blocks.Posix.Wait.{IsAccepted, nbp_accept_lem}
use net_blocks.Posix.Ports.{IsFirstFree, nbp_close_keeps_port}

abbrev one_port_taken : Sockets
one_port_taken = record {
  fd_table = λ i. 0;
  nb_fd = λ i. 0;
  port_occupied = λ i. if i == 80 then 1 else 0;
  fd_src_port = λ i. 0;
  fd_accept_counter = λ i. 0;
  fd_establish_status = λ i. 0;
}

nbp_close_keeps_port_example :
    (s₁ s₂ s₃ : Sockets) × (port : ℕ) × (nbp_socket one_port_taken 5 ≡ some s₁)
    × (nbp_connect s₁ 5 700 ≡ some (port, s₂))
    × (nbp_close s₂ 5 ≡ some s₃)
    × IsFirstFree one_port_taken.port_occupied first_port end_port port
    × (s₃.nb_fd 5 ≡ 0)
    × (s₃.port_occupied (port - 8000) ≡ 1)
nbp_close_keeps_port_example =
    nbp_close_keeps_port one_port_taken 5 700 8081 (omega arith) refl (λ e. omega arith)
      (omega arith) (omega arith) refl

-- A stack that gets a connection for descriptor 3 in every step.
abbrev stack : Stack ℕ
stack = record {
  main_loop_step =
      λ state. (record state.0 { fd_accept_counter = λ i. if i == 3 then 1 else 0 }, state.1 + 1);
  send = λ conn buf w. (length buf, w);
  read = λ conn len w. (0, w);
  establish = λ host app port w. (500, w);
  accept = λ conn w. (600, w);
  set_user_data = λ conn fd w. w;
  input_elems = λ conn w. 0;
}

abbrev listening : Sockets
listening = record one_port_taken {
  fd_table = λ i. if i == 3 then 500 else 0;
  nb_fd = λ i. if i == 3 then 1 else 0;
}

nbp_select_lem_example :
    Selected stack 1000 8
      (λ i. i == 3)
      (listening, 0)
      (nbp_select stack 8 (λ i. i == 3) (listening, 0))
nbp_select_lem_example = nbp_select_lem stack 8 (λ i. i == 3) (listening, 0)

-- It finds the descriptor.
select_finds : (nbp_select stack 8 (λ i. i == 3) (listening, 0)).0 ≡ ready 3
unfolding nbp_select select_loop scan members
select_finds = refl

nbp_accept_lem_example :
    (t : Sockets) × (w : ℕ) × (nbp_accept stack 2 (listening, 0) 3 4
      ≡ some (4, stack.main_loop_step (t, w)))
    × IsAccepted stack (steps stack 1 (listening, 0)).0 t 3 4 600
nbp_accept_lem_example =
    nbp_accept_lem stack 1 2 3 4 (listening, 0) refl (omega arith)
      (λ j lt. (let first : j ≡ 0 = omega arith in unfold steps in rw first refl))
      (unfold steps in λ e. omega arith) (omega arith) (unfold steps in refl) (λ e. omega arith)
      (λ e. omega arith)

-- Buffers that are sent whole add up.
writev_adds : nbp_writev stack listening 0 3 ((1 ∷ 2 ∷ []) ∷ (3 ∷ []) ∷ []) ≡ some (3, 0)
unfolding nbp_writev send_all
writev_adds = refl
