-- ===== src/Timer/Examples.antt =====
-- Two timers that run, and a third that starts between them.
use net_blocks.Base.{
  List, length, ◌≡◌, ◌≢◌, ◌<◌, ◌⊎◌, refl, inl, inr, some, [], ◌∷◌, arith, ◌==◌, if◌then◌else◌,
}
use net_blocks.Timer.{Ptr, TimerObj, Timers, insert_timer, remove_timer, alloc_timer, init_timers}
use net_blocks.Timer.Held.{Step, Reach, alloc_timer-Reach}
use net_blocks.Timer.Segment.{IsRunning, NotIn}
use net_blocks.Timer.Insert.{Inserted, insert_timer_lem}
use net_blocks.Timer.Remove.{Removed, remove_timer_lem}

abbrev table : Ptr → TimerObj
table p =
    if p == 1
    then record { callback = 7; argument = 11; next = 2; prev = 0; timeout = 100 }
    else if p == 2
    then record { callback = 7; argument = 12; next = 0; prev = 1; timeout = 300 }
    else record { callback = 0; argument = 0; next = 4; prev = 0; timeout = 0 }

abbrev two_running : Timers
two_running = record { timer = table; free_list = 4; head = 1 }

two_running-IsRunning : IsRunning two_running (1 ∷ 2 ∷ [])
two_running-IsRunning = (
  refl,
  (λ e. omega arith),
  refl,
  ((λ e. omega arith), tt),
  (refl, (λ e. omega arith), refl, tt, refl),
)

insert_timer_lem_example :
    (ts' : Timers) × (insert_timer two_running 3 100 7 13 ≡ some ts')
    × Inserted two_running ts' 3 100 7 13 (1 ∷ 2 ∷ [])
insert_timer_lem_example =
    insert_timer_lem two_running 3 100 7 13 (1 ∷ 2 ∷ []) (λ e. omega arith)
      ((λ e. omega arith), ((λ e. omega arith), tt)) (omega arith) two_running-IsRunning

remove_timer_lem_example : Removed two_running (remove_timer two_running 2) 2 (1 ∷ 2 ∷ [])
remove_timer_lem_example =
    remove_timer_lem two_running 2 (1 ∷ 2 ∷ []) two_running-IsRunning (inr (inl refl))

abbrev fresh : Timers
fresh = init_timers two_running

abbrev one_held : Timers
one_held = (alloc_timer fresh).1

abbrev held : List Ptr
held = 1 ∷ []

-- The first timer is taken, and then another one.
alloc_timer-Reach_example :
    (((alloc_timer one_held).0 ≡ 0) × (length held ≡ 1024))
    ⊎ (((alloc_timer one_held).0 ≢ 0)
        × NotIn ((alloc_timer one_held).0) held
        × (length held < 1024))
unfolding alloc_timer init_timers
alloc_timer-Reach_example =
    alloc_timer-Reach two_running one_held (alloc_timer one_held).1 held (alloc_timer one_held).0
      (Reach.goes fresh one_held [] held Reach.starts
        (Step.allocates fresh one_held 1 [] refl (λ e. omega arith)))
      refl
