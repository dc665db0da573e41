-- ===== src/Queue.antt =====
-- runtime/nb_data_queue.h and the queue functions of runtime/nb_runtime.c. `none` is a write past
-- the end of the arrays, which the C code does not check for.
pub mod Refine
mod Examples
use net_blocks.Base.{
  ℕ, zero, suc, ◌+◌, ◌-◌, ◌%◌, ◌^◌, Bool, Option, none, some, List, [], ◌∷◌, ltb, leb, ◌==◌,
  if◌then◌else◌,
}

abbrev pub max_data_queue_elems : ℕ
max_data_queue_elems = 512

abbrev pub max_accept_queue_elems : ℕ
max_accept_queue_elems = 512

-- A C array. Only the elements that a counter covers mean anything.
abbrev pub Array : Type 0
Array = ℕ → ℕ

unfoldable pub put : Array → ℕ → ℕ → Array
put a i v j = if j == i then v else a j

-- `data_queue_t`: pointers to payloads, and their sizes.
pub record DataQueue : Type 0 where
  pub elems : Array
  pub sizes : Array
  pub current_elems : ℕ

-- `nb__new_data_queue` leaves the arrays as `malloc` gave them.
unfoldable pub new_data_queue : Array → Array → DataQueue
new_data_queue elems sizes = record { elems = elems; sizes = sizes; current_elems = 0 }

unfoldable pub insert_data_queue : DataQueue → ℕ → ℕ → Option DataQueue
unfolding put
insert_data_queue q buff len =
    if ltb q.current_elems max_data_queue_elems
    then some (record {
      elems = put q.elems q.current_elems buff;
      sizes = put q.sizes q.current_elems len;
      current_elems = q.current_elems + 1;
    })
    else none

-- The loop of `nb__read` on one array: `a[i - 1] = a[i]`.
unfoldable pub shift : ℕ → ℕ → Array → Array
unfolding put
shift zero i a = a
shift (suc left) i a = shift left (i + 1) (put a (i - 1) (a i))

-- An `int`, as its value modulo 2^32: whether it is below 0, and the order.
unfoldable pub is_negative : ℕ → Bool
is_negative n = leb (2 ^ 31) n

unfoldable pub int_ltb : ℕ → ℕ → Bool
int_ltb m n = ltb ((m + 2 ^ 31) % 2 ^ 32) ((n + 2 ^ 31) % 2 ^ 32)

-- `nb__read`: what it returns, and the payload of which that many bytes are copied. `none` is a `memcpy`
-- of a negative length, which is a length beyond all memory.
unfoldable pub read : DataQueue → ℕ → Option ((ℕ × Option ℕ) × DataQueue)
unfolding shift is_negative int_ltb
read q max_len =
    let size = q.sizes 0 in
    let copy_size = if int_ltb max_len size then max_len else size in
    if q.current_elems == 0
    then some ((0, none), q)
    else if is_negative copy_size
    then none
    else some (
      (copy_size, some (q.elems 0)),
      record {
        elems = shift (q.current_elems - 1) 1 q.elems;
        sizes = shift (q.current_elems - 1) 1 q.sizes;
        current_elems = q.current_elems - 1;
      },
    )

-- `accept_queue_t`: packets that wait for an accept, with where they came from.
pub record AcceptQueue : Type 0 where
  pub src_app_id : Array
  pub src_host_id : Array
  pub packet : Array
  pub current_elems : ℕ

unfoldable pub new_accept_queue : Array → Array → Array → AcceptQueue
new_accept_queue apps hosts packets = record {
  src_app_id = apps;
  src_host_id = hosts;
  packet = packets;
  current_elems = 0;
}

unfoldable pub insert_accept_queue : AcceptQueue → ℕ → ℕ → ℕ → Option AcceptQueue
unfolding put
insert_accept_queue q src_app_id src_host_id packet =
    if ltb q.current_elems max_accept_queue_elems
    then some (record {
      src_app_id = put q.src_app_id q.current_elems src_app_id;
      src_host_id = put q.src_host_id q.current_elems src_host_id;
      packet = put q.packet q.current_elems packet;
      current_elems = q.current_elems + 1;
    })
    else none

-- The swap of `nb__accept`: the last element takes the place of element `i`.
unfoldable pub remove_at : AcceptQueue → ℕ → AcceptQueue
unfolding put
remove_at q i =
    let last = q.current_elems - 1 in
    record {
      src_app_id = put q.src_app_id i (q.src_app_id last);
      src_host_id = put q.src_host_id i (q.src_host_id last);
      packet = put q.packet i (q.packet last);
      current_elems = q.current_elems - 1;
    }
