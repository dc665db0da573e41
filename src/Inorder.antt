-- ===== src/Inorder.antt =====
-- src/modules/inorder_module.cpp: sequence numbers, and delivery in order. The state is what the
-- hooks read and write of the connection that `flow_identifier` names, with the members of the
-- packets by their address. An `int` or `unsigned int` is its value modulo 2 ^ 32.
mod Flush
mod Release
pub mod Hold
mod Drop
mod Examples
use net_blocks.Base.{
  ℕ, zero, suc, ◌+◌, ◌-◌, ◌^◌, ◌%◌, Bool, true, false, ◌&&◌, ◌||◌, not, Option, none, some, ltb,
  leb, ◌==◌, if◌then◌else◌,
}
use net_blocks.Queue.{Array, put, DataQueue, insert_data_queue}
use net_blocks.Framework.{HookStatus, hook_continue, hook_drop}

abbrev pub inorder_buffer_size : ℕ
inorder_buffer_size = 32

pub data InorderStrategy : Type 0 where
  drop_out_of_order hold_forever no_inorder : InorderStrategy

pub record InorderPacket : Type 0 where
  pub sequence_number : ℕ
  pub total_len : ℕ
  pub computed_total_len : ℕ

pub record Flow : Type 0 where
  pub last_sent_sequence : ℕ
  pub last_recv_sequence : ℕ
  pub max_ooo_sequence : ℕ
  pub inorder_buffer : Array
  pub input_queue : DataQueue
  pub packet : ℕ → InorderPacket

-- The layout of the packets: where the payload starts, and how long the headers are without headroom,
-- which is `net_packet.get_total_size() - 1 - get_headroom()`.
pub record PacketLayout : Type 0 where
  pub payload : ℕ
  pub header_len : ℕ

-- A handler goes on with a value, writes past the end of a queue, or runs out of fuel.
pub data Result (A : Type 0) : Type 0 where
  ok : A → Result A
  out_of_bounds out_of_fuel : Result A

unfoldable pub or_out_of_bounds : {A : Type 0} → Option A → Result A
or_out_of_bounds none = out_of_bounds
or_out_of_bounds (some x) = ok x

-- The loop of `hook_establish`.
unfoldable pub clear_buffer : ℕ → ℕ → Array → Array
unfolding put
clear_buffer zero i a = a
clear_buffer (suc left) i a = clear_buffer left (i + 1) (put a i 0)

unfoldable pub hook_establish : InorderStrategy → Flow → Flow × HookStatus
unfolding clear_buffer
hook_establish strategy f =
    let started = record f { last_sent_sequence = 1010; last_recv_sequence = 0 } in
    (
      elim strategy [
        | no_inorder ↦ started
        | drop_out_of_order ↦ started
        | hold_forever ↦ record started {
          inorder_buffer = clear_buffer inorder_buffer_size 0 f.inorder_buffer;
          max_ooo_sequence = 0;
        }
      ],
      hook_continue,
    )

unfoldable pub update_packet : (ℕ → InorderPacket) → ℕ → InorderPacket → ℕ → InorderPacket
update_packet h p v q = if q == p then v else h q

-- `hook_send`. `reliable` is `reliable_module::is_enabled`.
unfoldable pub hook_send : InorderStrategy → Bool → Flow → ℕ → Flow × HookStatus
unfolding update_packet
hook_send strategy reliable f p =
    let sq = (f.last_sent_sequence + 1) % 2 ^ 32 in
    let sent = record f { last_sent_sequence = sq } in
    let numbered = record sent {
      packet = update_packet f.packet p (record (f.packet p) { sequence_number = sq });
    } in
    (
      elim strategy [
        | no_inorder ↦ if reliable then numbered else sent
        | drop_out_of_order ↦ numbered
        | hold_forever ↦ numbered
      ],
      hook_continue,
    )

abbrev pub payload_len : PacketLayout → ℕ → ℕ
payload_len l computed_total_len = (computed_total_len + (2 ^ 32 - l.header_len)) % 2 ^ 32

-- The payload of `p` goes into the input queue, if there is one.
unfoldable pub deliver : PacketLayout → DataQueue → ℕ → ℕ → Option DataQueue
deliver l q p computed_total_len =
    if payload_len l computed_total_len == 0
    then some q
    else insert_data_queue q (p + l.payload) (payload_len l computed_total_len)

-- What a packet that is delivered with sequence number `sq` leaves, `computed_total_len` included.
unfoldable pub set_received : Flow → ℕ → ℕ → DataQueue → Flow
unfolding update_packet
set_received f p sq q = record f {
  packet =
      update_packet f.packet p
        (record (f.packet p) { computed_total_len = (f.packet p).total_len });
  input_queue = q;
  last_recv_sequence = sq;
}

unfoldable pub accept_packet : PacketLayout → Flow → ℕ → ℕ → Option Flow
accept_packet l f p sq = elim (deliver l f.input_queue p (f.packet p).total_len) [
  | none ↦ none
  | some q ↦ some (set_received f p sq q)
]

-- The loop over the packets that have been shelved, from sequence number `i` on.
unfoldable pub flush : ℕ → PacketLayout → Flow → ℕ → Result Flow
unfolding put
flush zero l f i = out_of_fuel
flush (suc fuel) l f i =
    let rest = flush fuel l in
    let index = i % inorder_buffer_size in
    let p = f.inorder_buffer index in
    if leb i f.max_ooo_sequence && not (p == 0)
    then elim (accept_packet l f p i) [
      | none ↦ out_of_bounds
      | some g ↦
          rest (record g { inorder_buffer = put g.inorder_buffer index 0 }) ((i + 1) % 2 ^ 32)
    ]
    else ok f

-- The branch of a packet that is out of order.
unfoldable pub shelve : Flow → ℕ → ℕ → Flow
unfolding put
shelve f p packet_seq = record f {
  inorder_buffer = put f.inorder_buffer (packet_seq % inorder_buffer_size) p;
  max_ooo_sequence = if ltb f.max_ooo_sequence packet_seq then packet_seq else f.max_ooo_sequence;
}

-- The branch of a packet that is in order.
unfoldable pub ingress_flush : PacketLayout → ℕ → Option Flow → Result (Flow × HookStatus)
ingress_flush l packet_seq none = out_of_bounds
ingress_flush l packet_seq (some g) =
    elim (flush (inorder_buffer_size + 1) l g ((packet_seq + 1) % 2 ^ 32)) [
      | ok h ↦ ok (h, hook_continue)
      | out_of_bounds ↦ out_of_bounds
      | out_of_fuel ↦ out_of_fuel
    ]

-- The strategy `hold_forever`.
unfoldable pub ingress_hold : PacketLayout → Flow → ℕ → Result (Flow × HookStatus)
ingress_hold l f p =
    let packet_seq = (f.packet p).sequence_number in
    let last_seq = f.last_recv_sequence in
    if (last_seq == 0) || (packet_seq == (last_seq + 1) % 2 ^ 32)
    then ingress_flush l packet_seq (accept_packet l f p packet_seq)
    else ok (shelve f p packet_seq, hook_drop)

-- The strategy `drop_out_of_order`.
unfoldable pub ingress_drop : PacketLayout → Flow → ℕ → Option (Flow × HookStatus)
ingress_drop l f p =
    let packet_seq = (f.packet p).sequence_number in
    if ltb f.last_recv_sequence packet_seq
    then elim (deliver l f.input_queue p (f.packet p).computed_total_len) [
      | none ↦ none
      | some q ↦ some (record f { last_recv_sequence = packet_seq; input_queue = q }, hook_continue)
    ]
    else some (f, hook_drop)

unfoldable pub ingress_any : PacketLayout → Flow → ℕ → Option (Flow × HookStatus)
ingress_any l f p = elim (deliver l f.input_queue p (f.packet p).computed_total_len) [
  | none ↦ none
  | some q ↦ some (record f { input_queue = q }, hook_continue)
]

unfoldable pub hook_ingress : InorderStrategy → PacketLayout → Flow → ℕ → Result (Flow × HookStatus)
unfolding or_out_of_bounds
hook_ingress no_inorder l f p = or_out_of_bounds (ingress_any l f p)
hook_ingress drop_out_of_order l f p = or_out_of_bounds (ingress_drop l f p)
hook_ingress hold_forever l f p = ingress_hold l f p
