-- ===== src/Timer.antt =====
-- runtime/nb_timer.h and runtime/nb_timer.c: timers in a table, linked into a free list by `next`
-- and into a doubly linked list of running timers. A pointer to a timer is its place in the table,
-- counted from 1; 0 is `NULL`. Callbacks are pointers to functions, which are numbers.
pub mod Segment
pub mod Sorted
mod Place
pub mod Insert
pub mod Unlink
pub mod Remove
pub mod Due
mod Free
mod Held
mod Examples
use net_blocks.Base.{ℕ, zero, suc, ◌+◌, ◌-◌, ◌^◌, Option, none, some, leb, ltb, ◌==◌, if◌then◌else◌}

abbrev pub Ptr : Type 0
Ptr = ℕ

abbrev pub null : Ptr
null = 0

abbrev pub max_timer_allocs : ℕ
max_timer_allocs = 1024

-- `nb__timer_obj`
pub record TimerObj : Type 0 where
  pub callback : ℕ
  pub argument : ℕ
  pub next : Ptr
  pub prev : Ptr
  pub timeout : ℕ

-- The table with the heads of its two lists.
pub record Timers : Type 0 where
  pub timer : Ptr → TimerObj
  pub free_list : Ptr
  pub head : Ptr

unfoldable pub update : (Ptr → TimerObj) → Ptr → TimerObj → Ptr → TimerObj
update h p t q = if q == p then t else h q

-- Assignments through a pointer.
abbrev pub set_next : (Ptr → TimerObj) → Ptr → Ptr → Ptr → TimerObj
set_next h p q = update h p (record (h p) { next = q })

abbrev pub set_prev : (Ptr → TimerObj) → Ptr → Ptr → Ptr → TimerObj
set_prev h p q = update h p (record (h p) { prev = q })

-- `nb__alloc_timer`: `NULL` where the free list is empty.
unfoldable pub alloc_timer : Timers → Ptr × Timers
alloc_timer ts =
    if ts.free_list == null
    then (null, ts)
    else (ts.free_list, record ts { free_list = (ts.timer ts.free_list).next })

unfoldable pub return_timer : Timers → Ptr → Timers
unfolding update
return_timer ts t = record ts { timer = set_next ts.timer t ts.free_list; free_list = t }

-- The loop that finds the place: `(prev, curr)` on fuel; `none` when the fuel runs out.
unfoldable pub find_place : ℕ → (Ptr → TimerObj) → ℕ → Ptr → Ptr → Option (Ptr × Ptr)
find_place zero h to prev curr = none
find_place (suc fuel) h to prev curr =
    let rest = find_place fuel h to curr (h curr).next in
    if curr == null
    then some (prev, curr)
    else if ltb to (h curr).timeout
    then some (prev, curr)
    else rest

-- The links of `nb__insert_timer` where the timer comes behind another one, and where it comes first.
unfoldable pub link_behind : (Ptr → TimerObj) → Ptr → Ptr → Ptr → Ptr → TimerObj
unfolding update
link_behind h t prev curr =
    let linked = set_prev (set_next (set_next h prev t) t curr) t prev in
    if curr == null then linked else set_prev linked curr t

unfoldable pub link_first : (Ptr → TimerObj) → Ptr → Ptr → Ptr → TimerObj
unfolding update
link_first h t curr =
    let linked = set_next h t curr in if curr == null then linked else set_prev linked curr t

-- `nb__insert_timer`. The table bounds the rounds of the loop.
unfoldable pub insert_timer : Timers → Ptr → ℕ → ℕ → ℕ → Option Timers
unfolding update
insert_timer ts t to cb argument =
    let h =
      update ts.timer t
        (record { callback = cb; argument = argument; next = null; prev = null; timeout = to }) in
    elim (find_place (max_timer_allocs + 1) h to null ts.head) [
      | none ↦ none
      | some (prev, curr) ↦ some (
          if prev == null
          then record ts { timer = link_first h t curr; head = t }
          else record ts { timer = link_behind h t prev curr })
    ]

-- `nb__remove_timer`. The timeout becomes `-1`, as an `unsigned long long`.
unfoldable pub remove_timer : Timers → Ptr → Timers
unfolding update
remove_timer ts t =
    let next = (ts.timer t).next in
    let h = if next == null then ts.timer else set_prev ts.timer next (ts.timer t).prev in
    let prev = (h t).prev in
    let g = if prev == null then h else set_next h prev (h t).next in
    record ts {
      timer = update g t (record (g t) { next = null; prev = null; timeout = 2 ^ 64 - 1 });
      head = if prev == null then (h t).next else ts.head;
    }

-- The loop of `nb__init_timers` from entry `i` of the table on.
unfoldable pub chain_free : ℕ → ℕ → (Ptr → TimerObj) → Ptr → TimerObj
unfolding update
chain_free zero i h = h
chain_free (suc left) i h = chain_free left (i + 1) (set_next h (i + 1) (i + 2))

unfoldable pub init_timers : Timers → Timers
unfolding chain_free update
init_timers ts = record ts {
  timer = set_next (chain_free (max_timer_allocs - 1) 0 ts.timer) max_timer_allocs null;
  free_list = 1;
}

-- What a callback does to the timers and to the rest of the program: it is called by its pointer,
-- with the timer, the argument and the time. `none` is a fault, or the end of a loop's fuel.
abbrev pub Callbacks : Type 0 → Type 0
Callbacks S = ℕ → Ptr → ℕ → ℕ → Timers × S → Option (Timers × S)

-- The loop of `nb__check_timers` at time `now`, on fuel. The time of the last check is never read,
-- so it is left out.
unfoldable pub check_timers : {S : Type 0} → Callbacks S → ℕ → ℕ → Timers × S → Option (Timers × S)
check_timers {S} call zero now (ts, s) = none
check_timers {S} call (suc fuel) now (ts, s) =
    let t = ts.head in
    let removed = remove_timer ts t in
    let rest : Option (Timers × S) =
      elim (call (removed.timer t).callback t (removed.timer t).argument now (removed, s)) [
        | none ↦ none
        | some state ↦ check_timers call fuel now state
      ] in
    if t == null then some (ts, s) else if leb (ts.timer t).timeout now then rest else some (ts, s)
