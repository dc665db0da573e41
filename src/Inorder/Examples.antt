-- ===== src/Inorder/Examples.antt =====
-- Packet 3 arrives while packet 2, which follows it, is on the shelf.
use net_blocks.Base.{ℕ, ◌≡◌, refl, List, [], ◌∷◌, arith, ◌==◌, if◌then◌else◌}
use net_blocks.Framework.{HookStatus}
use net_blocks.Queue.{insert_data_queue}
use net_blocks.Queue.Refine.{contents}
use net_blocks.Inorder.{
  Flow, PacketLayout, Result, ok, out_of_bounds, out_of_fuel, hold_forever, hook_ingress,
  ingress_hold, ingress_flush, flush, accept_packet, deliver, shelve, set_received, update_packet,
}
use net_blocks.Inorder.Flush.{payloads_of}
use net_blocks.Inorder.Drop.{receive_all, receive_all_lem, newer, newest, Increases}
use net_blocks.Inorder.Hold.{IsWellFormed, Held, hook_ingress-hold_forever}

abbrev sequences : ℕ → ℕ
sequences p = if p == 2 then 1013 else if p == 3 then 1012 else 0

abbrev lengths : ℕ → ℕ
lengths p = if p == 2 then 60 else 50

abbrev layout : PacketLayout
layout = record { payload = 48; header_len = 40 }

abbrev one_shelved : Flow
one_shelved = record {
  last_sent_sequence = 1010;
  last_recv_sequence = 1011;
  max_ooo_sequence = 1013;
  inorder_buffer = λ k. if k == 21 then 2 else 0;
  input_queue = record { elems = λ i. 0; sizes = λ i. 0; current_elems = 0 };
  packet =
      λ p. record { sequence_number = sequences p; total_len = lengths p; computed_total_len = 0 };
}

one_shelved-IsWellFormed : IsWellFormed sequences lengths one_shelved
one_shelved-IsWellFormed = (
  record { sequence = λ p. refl; len = λ p. refl },
  record {
    above = λ k p some_k. ground arith;
    below = λ k p some_k. ground arith;
    place = λ k p some_k. ground arith;
    known = λ k p some_k. ground arith;
  },
)

hook_ingress-hold_forever_example :
    (g : Flow) × (s : HookStatus) × (ps : List ℕ) × (hook_ingress hold_forever layout one_shelved 3
      ≡ ok (g, s))
    × Held layout sequences lengths one_shelved g 3 s ps
hook_ingress-hold_forever_example =
    hook_ingress-hold_forever layout sequences lengths one_shelved 3 one_shelved-IsWellFormed
      (λ e. omega arith) (omega arith) (omega arith) (omega arith) (omega arith)

-- Packets 10 to 14 arrive with the numbers 7, 6, 9, 9 and 12.
abbrev numbers : ℕ → ℕ
numbers p = if p == 10 then 7 else if p == 11 then 6 else if p == 14 then 12 else 9

abbrev dropping : Flow
dropping = record one_shelved {
  last_recv_sequence = 5;
  packet = λ p. record { sequence_number = numbers p; total_len = 50; computed_total_len = 50 };
}

receive_all_lem_example :
    (g : Flow) × (receive_all layout dropping (10 ∷ 11 ∷ 12 ∷ 13 ∷ 14 ∷ []) ≡ ok g)
    × (contents g.input_queue ≡ (58, 10) ∷ (60, 10) ∷ (62, 10) ∷ [])
    × Increases numbers 5 (10 ∷ 12 ∷ 14 ∷ [])
    × (g.last_recv_sequence ≡ 12)
unfolding newer newest payloads_of
receive_all_lem_example =
    receive_all_lem layout dropping (10 ∷ 11 ∷ 12 ∷ 13 ∷ 14 ∷ []) (omega arith)

-- With hold_forever: packet 4 repeats the old number 981, and packets 5 and 6 have 1014 and 1012. The old packet is
-- delivered as number 1013.
abbrev repeated : ℕ → ℕ
repeated p = if p == 4 then 981 else if p == 5 then 1014 else 1012

abbrev holding : Flow
holding = record one_shelved {
  max_ooo_sequence = 0;
  inorder_buffer = λ k. 0;
  packet = λ p. record { sequence_number = repeated p; total_len = 50; computed_total_len = 50 };
}

abbrev ingress_next : Result (Flow × HookStatus) → ℕ → Result (Flow × HookStatus)
ingress_next (ok (f, s)) p = hook_ingress hold_forever layout f p
ingress_next out_of_bounds p = out_of_bounds
ingress_next out_of_fuel p = out_of_fuel

abbrev queued : Result (Flow × HookStatus) → List (ℕ × ℕ)
queued (ok (f, s)) = contents f.input_queue
queued out_of_bounds = []
queued out_of_fuel = []

stale_delivery :
    queued (ingress_next (ingress_next (hook_ingress hold_forever layout holding 4) 5) 6)
    ≡ (54, 10) ∷ (52, 10) ∷ (53, 10) ∷ []
unfolding hook_ingress ingress_hold ingress_flush flush accept_packet deliver shelve set_received
    update_packet insert_data_queue
stale_delivery = refl
