-- ===== src/Mlx5.antt =====
-- runtime/mlx5_impl/transport.cc, runtime/mlx5_impl/transport.h and runtime/nb_mlx5_transport.cc: the
-- indices into the rings of the network card. The completion queue is what `ntohs` gives for its
-- entries, which the card writes; the calls of the verbs library succeed, and posting a receive
-- buffer is an entry of a list.
pub mod Count
pub mod Ring
pub mod Poll
pub mod Device
pub mod Search
mod Examples
use net_blocks.Base.{
  ℕ, zero, suc, ◌+◌, ◌-◌, ◌*◌, ◌%◌, Bool, ◌||◌, Option, none, some, List, [], ◌∷◌, ◌++◌, ltb, leb,
  ◌==◌, if◌then◌else◌,
}
use net_blocks.Queue.{Array}

abbrev pub ibv_frame_size : ℕ
ibv_frame_size = 1024

abbrev pub max_inline_data_size : ℕ
max_inline_data_size = 972

abbrev pub mlx5_eth_inline_header_size : ℕ
mlx5_eth_inline_header_size = 18

abbrev pub mlx5_mtu : ℕ
mlx5_mtu = 1024

-- `transport_t`, with the entries of `recv_cqe_arr` and the receive buffers posted so far: the index
-- of the work request and the address.
pub record Transport : Type 0 where
  pub send_buffer : ℕ
  pub recv_buffer : ℕ
  pub per_size : ℕ
  pub send_buffer_index : ℕ
  pub recv_buffer_index : ℕ
  pub wqe_id : Array
  pub wqe_counter : Array
  pub cqe_idx : ℕ
  pub recv_index_cycle : ℕ
  pub recv_index_to_post : ℕ
  pub recvs_to_post : ℕ
  pub sends_to_signal : ℕ
  pub posted : List (ℕ × ℕ)

unfoldable pub get_recv_cycle : ℕ → ℕ → ℕ
get_recv_cycle id counter = id * 512 + counter

abbrev pub total_cycles : ℕ
total_cycles = 33554432

-- The receive buffers that `mlx5_try_transport` posts, from index `i` on.
unfoldable pub post_all : ℕ → ℕ → ℕ → ℕ → List (ℕ × ℕ)
post_all zero i recv_buffer per_size = []
post_all (suc left) i recv_buffer per_size =
    (i, recv_buffer + per_size * i) ∷ post_all left (i + 1) recv_buffer per_size

-- The state that `mlx5_try_transport` leaves.
unfoldable pub init_transport : ℕ → ℕ → Transport
unfolding get_recv_cycle post_all
init_transport send_buffer recv_buffer = record {
  send_buffer = send_buffer;
  recv_buffer = recv_buffer;
  per_size = ibv_frame_size * 512;
  send_buffer_index = 0;
  recv_buffer_index = 0;
  wqe_id = λ i. 65535;
  wqe_counter = λ i. 511;
  cqe_idx = 0;
  recv_index_cycle = get_recv_cycle 65535 511;
  recv_index_to_post = 0;
  recvs_to_post = 0;
  sends_to_signal = 0;
  posted = post_all 8 0 recv_buffer (ibv_frame_size * 512);
}

-- `mlx5_try_send`: whether the packet is sent inline, and the new state.
unfoldable pub mlx5_try_send : Transport → ℕ → Bool × Transport
mlx5_try_send tr len = (
  ltb len (max_inline_data_size + mlx5_eth_inline_header_size),
  record tr { sends_to_signal = tr.sends_to_signal + 1 },
)

unfoldable pub get_packet_count : Transport → ℕ × Transport
unfolding get_recv_cycle
get_packet_count tr =
    let new_cycle = get_recv_cycle (tr.wqe_id tr.cqe_idx) (tr.wqe_counter tr.cqe_idx) in
    let diff = (new_cycle + total_cycles - tr.recv_index_cycle) % total_cycles in
    if (diff == 0) || ltb 4096 diff
    then (0, tr)
    else (diff, record tr { cqe_idx = (tr.cqe_idx + 1) % 8; recv_index_cycle = new_cycle })

-- The body of the loop of `mlx5_try_recv`.
unfoldable pub post_recv : Transport → Transport
post_recv tr =
    let idx = tr.recv_index_to_post in
    record tr {
      recv_index_to_post = (idx + 1) % 8;
      posted = tr.posted ++ (idx, tr.recv_buffer + tr.per_size * idx) ∷ [];
      recvs_to_post = tr.recvs_to_post - 512;
    }

-- The loop, on fuel; `none` is the end of the fuel.
unfoldable pub post_loop : ℕ → Transport → Option Transport
post_loop zero tr = none
post_loop (suc fuel) tr =
    let rest = post_loop fuel (post_recv tr) in if leb 512 tr.recvs_to_post then rest else some tr

unfoldable pub mlx5_try_recv : Transport → Option (ℕ × Transport)
mlx5_try_recv tr =
    let (ret, counted) = get_packet_count tr in
    elim (post_loop (tr.recvs_to_post + ret + 1)
      (record counted { recvs_to_post = counted.recvs_to_post + ret })) [
        | none ↦ none
        | some tr' ↦ some (ret, tr')
      ]

unfoldable pub mlx5_get_next_send_buffer : Transport → ℕ × Transport
mlx5_get_next_send_buffer tr = (
  tr.send_buffer + ibv_frame_size * tr.send_buffer_index,
  record tr { send_buffer_index = (tr.send_buffer_index + 1) % 512 },
)

unfoldable pub mlx5_get_next_recv_buffer : Transport → ℕ × Transport
mlx5_get_next_recv_buffer tr = (
  tr.recv_buffer + ibv_frame_size * tr.recv_buffer_index,
  record tr { recv_buffer_index = (tr.recv_buffer_index + 1) % 4096 },
)

-- `nb_mlx5_transport.cc`: the transport with the packets that have been counted and not returned.
pub record Card : Type 0 where
  pub transport : Transport
  pub pending_recv : ℕ

-- The rest of `nb__poll_packet`, with what is pending: the address and size of a packet.
unfoldable pub take_pending : Card → ℕ → Option (ℕ × ℕ) × Card
unfolding mlx5_get_next_recv_buffer
take_pending c headroom =
    let (addr, tr) = mlx5_get_next_recv_buffer c.transport in
    if c.pending_recv == 0 then (none, c) else (
      some (addr - headroom, mlx5_mtu),
      record { transport = tr; pending_recv = c.pending_recv - 1 },
    )

-- `nb__poll_packet`; `none` is the end of the fuel.
unfoldable pub poll_packet : Card → ℕ → Option (Option (ℕ × ℕ) × Card)
poll_packet c headroom =
    if c.pending_recv == 0
    then elim (mlx5_try_recv c.transport) [
      | none ↦ none
      | some (ret, tr) ↦
          some (take_pending (record { transport = tr; pending_recv = ret }) headroom)
    ]
    else some (take_pending c headroom)
