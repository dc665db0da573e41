-- ===== src/Reliable.antt =====
-- src/modules/reliable_module.cpp: packets are kept until they are acknowledged, and sent again by
-- timers. The state is that of one connection, with the timers and the members of the packets by
-- their address. `none` is an access through `NULL`, or the end of a loop's fuel.
pub mod Redeliver
pub mod Acknowledge
pub mod Examples
use net_blocks.Base.{
  ℕ, ◌+◌, ◌^◌, ◌-◌, ◌%◌, Option, none, some, List, [], ◌∷◌, ◌++◌, length, ◌==◌, if◌then◌else◌,
}
use net_blocks.Queue.{Array, put}
use net_blocks.Framework.{HookStatus, hook_continue, hook_drop, Module, run_up}
use net_blocks.Inorder.{clear_buffer}
use net_blocks.Timer.{
  Ptr, null, Timers, Callbacks, alloc_timer, return_timer, insert_timer, remove_timer,
}

abbrev pub redelivery_buffer_size : ℕ
redelivery_buffer_size = 32

abbrev pub redelivery_timeout_ms : ℕ
redelivery_timeout_ms = 50

-- The pointer to `nb__reliable_redelivery_timer_cb`.
abbrev pub redelivery_timer_callback : ℕ
redelivery_timer_callback = 1

-- The members of a packet that the module reads and writes.
pub record ReliablePacket : Type 0 where
  pub sequence_number : ℕ
  pub ack_sequence_number : ℕ
  pub redelivery_timer : Ptr
  pub total_len : ℕ
  pub computed_total_len : ℕ

-- `sent` is what `send_packet` was called with: addresses and lengths.
pub record Link : Type 0 where
  pub packet : ℕ → ReliablePacket
  pub redelivery_buffer : Array
  pub sent : List (ℕ × ℕ)

abbrev pub State : Type 0
State = Timers × Link

-- The layout of the packets: `get_headroom()` and `net_packet.get_total_size()`.
pub record Sizes : Type 0 where
  pub headroom : ℕ
  pub total_size : ℕ

unfoldable pub update_packet : (ℕ → ReliablePacket) → ℕ → ReliablePacket → ℕ → ReliablePacket
update_packet h p v q = if q == p then v else h q

unfoldable pub hook_establish : Link → Link × HookStatus
hook_establish l = (
  record l { redelivery_buffer = clear_buffer redelivery_buffer_size 0 l.redelivery_buffer },
  hook_continue,
)

abbrev pub deadline : ℕ → ℕ
deadline to = (to + redelivery_timeout_ms) % 2 ^ 64

-- `send_packet` of a redelivery.
abbrev pub resend : Sizes → Link → ℕ → Link
resend z l p = record l { sent = l.sent ++ (p + z.headroom, (l.packet p).computed_total_len) ∷ [] }

unfoldable pub redelivery_cb : Sizes → Ptr → ℕ → ℕ → State → Option State
redelivery_cb z t p to (ts, l) =
    elim (insert_timer ts t (deadline to) redelivery_timer_callback p) [
      | none ↦ none
      | some ts' ↦ some (ts', resend z l p)
    ]

-- The callbacks of the program: that of this module is the only one.
unfoldable pub callbacks : Sizes → Callbacks Link
callbacks z callback t p to s =
    if callback == redelivery_timer_callback then redelivery_cb z t p to s else none

-- What `hook_send` leaves of the connection and the packet.
unfoldable pub keep_packet : Link → ℕ → Ptr → Link
unfolding put update_packet
keep_packet l p t = record l {
  redelivery_buffer =
      put l.redelivery_buffer ((l.packet p).sequence_number % redelivery_buffer_size) p;
  packet =
      update_packet l.packet p
        (record (l.packet p) { redelivery_timer = t; ack_sequence_number = 0 });
}

-- `hook_send` at time `now`. Without a free timer, `insert_timer` writes through `NULL`.
unfoldable pub hook_send : State → ℕ → ℕ → Option (State × HookStatus)
hook_send (ts, l) now p =
    let (t, ts') = alloc_timer ts in
    if t == null
    then none
    else elim (insert_timer ts' t (deadline now) redelivery_timer_callback p) [
      | none ↦ none
      | some running ↦ some ((running, keep_packet l p t), hook_continue)
    ]

-- The branch of `hook_ingress` for an acknowledgement.
unfoldable pub acknowledge : State → ℕ → State
unfolding put
acknowledge (ts, l) ack_seq =
    let index = ack_seq % redelivery_buffer_size in
    let p_rem = l.redelivery_buffer index in
    let t = (l.packet p_rem).redelivery_timer in
    if p_rem == 0 then (ts, l) else (
      return_timer (remove_timer ts t) t,
      record l { redelivery_buffer = put l.redelivery_buffer index 0 },
    )

-- The members of the acknowledgement `p_ack` of sequence number `seq`.
unfoldable pub fill_ack : Sizes → Link → ℕ → ℕ → Link
unfolding update_packet
fill_ack z l p_ack seq = record l {
  packet = update_packet l.packet p_ack (record (l.packet p_ack) {
    ack_sequence_number = seq;
    total_len = z.total_size - z.headroom;
    computed_total_len = z.total_size - z.headroom;
  });
}

-- `hook_ingress`. The acknowledgement, in the buffer `p_ack` that `request_send_buffer` gives, goes
-- through the send hooks of the modules behind this one.
unfoldable pub hook_ingress :
    Sizes → List (Module State) → ℕ → ℕ → ℕ → State → ℕ → State × HookStatus
hook_ingress z modules sequence p_ack c (ts, l) p =
    if (l.packet p).ack_sequence_number == 0
    then (
      (run_up (λ m. m.hook_send c p_ack (0 ∷ []) 1) modules (length modules) (sequence + 1)
          ((ts, fill_ack z l p_ack (l.packet p).sequence_number), 0)).0,
      hook_continue,
    )
    else (acknowledge (ts, l) (l.packet p).ack_sequence_number, hook_drop)
