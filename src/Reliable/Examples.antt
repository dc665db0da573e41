-- ===== src/Reliable/Examples.antt =====
-- Two packets wait for their acknowledgements, the first since 100 ms.
use net_blocks.Base.{ℕ, ◌≡◌, refl, some, List, [], ◌∷◌, arith, ◌==◌, if◌then◌else◌}
use net_blocks.Framework.{hook_continue, hook_drop}
use net_blocks.Timer.{Ptr, TimerObj, Timers, check_timers}
use net_blocks.Timer.Segment.{IsRunning}
use net_blocks.Timer.Due.{due}
use net_blocks.Reliable.{
  ReliablePacket, Link, Sizes, State, callbacks, hook_send, hook_ingress, acknowledge,
}
use net_blocks.Reliable.Redeliver.{IsWaiting, Checked, check_timers_lem}
use net_blocks.Reliable.Acknowledge.{Acknowledged, hook_ingress-hook_send}

abbrev pub table : Ptr → TimerObj
table p =
    if p == 1
    then record { callback = 1; argument = 700; next = 2; prev = 0; timeout = 100 }
    else if p == 2
    then record { callback = 1; argument = 900; next = 0; prev = 1; timeout = 300 }
    else record { callback = 0; argument = 0; next = 4; prev = 0; timeout = 0 }

abbrev pub two_waiting : Timers
two_waiting = record { timer = table; free_list = 3; head = 1 }

-- The packets at 700 and 900 wait, 1100 is new, and 1300 acknowledges another number.
abbrev pub packets : ℕ → ReliablePacket
packets p =
    if p == 1300
    then record {
      sequence_number = 0;
      ack_sequence_number = 45;
      redelivery_timer = 0;
      total_len = 8;
      computed_total_len = 8;
    }
    else record {
      sequence_number = 13;
      ack_sequence_number = 0;
      redelivery_timer = 1;
      total_len = 40;
      computed_total_len = 60;
    }

abbrev pub link : Link
link = record { packet = packets; redelivery_buffer = λ i. if i == 13 then 700 else 0; sent = [] }

abbrev pub sizes : Sizes
sizes = record { headroom = 64; total_size = 100 }

two_waiting-IsRunning : IsRunning two_waiting (1 ∷ 2 ∷ [])
two_waiting-IsRunning = (
  refl,
  (λ e. omega arith),
  refl,
  ((λ e. omega arith), tt),
  (refl, (λ e. omega arith), refl, tt, refl),
)

pub two_waiting-IsWaiting : IsWaiting two_waiting (1 ∷ 2 ∷ [])
two_waiting-IsWaiting = record {
  running = two_waiting-IsRunning;
  sorted = ((omega arith, tt), (tt, tt));
  redelivers = (refl, (refl, tt));
  room = omega arith;
}

-- At 150 ms the first packet is sent again.
check_timers_lem_example :
    (ts' : Timers) × (ys : List Ptr) × (check_timers (callbacks sizes) 5 150 (two_waiting, link)
      ≡ some (ts', record link { sent = (764, 60) ∷ [] }))
    × Checked two_waiting ts' 150 (1 ∷ 2 ∷ []) ys
unfolding due
check_timers_lem_example =
    check_timers_lem sizes 5 150 two_waiting link (1 ∷ 2 ∷ []) (omega arith) (omega arith)
      two_waiting-IsWaiting

-- The new packet takes the slot of the first; the acknowledgement of number 45 stops it, and that of
-- number 13 stops nothing.
hook_ingress-hook_send_example :
    (sent acked : State) × (hook_send (two_waiting, link) 200 1100 ≡ some (sent, hook_continue))
    × (hook_ingress sizes [] 4 1500 2000 sent 1300 ≡ (acked, hook_drop))
    × Acknowledged acked two_waiting link 3 13 (1 ∷ 2 ∷ [])
    × (acknowledge acked 13 ≡ acked)
hook_ingress-hook_send_example =
    hook_ingress-hook_send sizes [] 4 1500 2000 two_waiting link 200 1100 1300 13 (1 ∷ 2 ∷ [])
      (λ e. omega arith) (λ e. omega arith) ((λ e. omega arith), ((λ e. omega arith), tt))
      (omega arith) two_waiting-IsRunning (λ e. omega arith) (λ e. omega arith) refl refl
