-- ===== src/Hub/Examples.antt =====
-- Three sockets, of which the first has closed and the last has a message.
use net_blocks.Base.{arith, ◌+◌, ◌≡◌, refl, true, false, none, some, [], ◌∷◌, ◌==◌, if◌then◌else◌}
use mathlib.Core.Option
use net_blocks.Queue.{put}
use net_blocks.Hub.{Hub, Input, relay_at, relay, close_at, send_others, hub_round}
use net_blocks.Hub.Round.{Rounded, accepting, hub_round_lem}

abbrev three : Hub
three = record { fds = λ i. i + 5; fd_count = 3; sent = [] }

abbrev input : Input
input = record {
  is_set = λ fd. if fd == 6 then false else true;
  read = λ fd. if fd == 5 then none else some 99;
}

hub_round_lem_example :
    (h' : Hub) × (hub_round input (some 9) three ≡ some h')
    × Rounded input (accepting (some 9) three) h'
hub_round_lem_example = hub_round_lem input (some 9) three (omega arith)

-- The last socket takes the place of the first, and its message goes to the second.
sends : Option.map (λ h. h.sent) (hub_round input none three) ≡ some ((6, 99) ∷ [])
unfolding hub_round relay relay_at close_at send_others put
sends = refl
