-- ===== src/Queue/Refine.antt =====
-- The queues of nb_runtime.c as lists: the data queue is first in, first out.
use Prim.Native.Nat.{min}
use native.Mathlib.Decide.{dec_lt}
use native.Mathlib.Numerals.{add-one}
use net_blocks.Base.{
  ℕ, zero, suc, ◌+◌, ◌-◌, ◌≤◌, ◌<◌, ◌≡◌, refl, ap, ap₂, ◌∙◌, ◌^◌, ◌&&◌, true, inl, inr, Bool-cases,
  if◌then◌else◌, ltb, false, Option, none, some, List, [], ◌∷◌, ◌++◌, arith, ◌==◌,
}
use net_blocks.Queue.{
  max_data_queue_elems, Array, put, DataQueue, insert_data_queue, shift, is_negative, int_ltb, read,
}

-- The first `n` elements from index `i` on.
abbrev pub window : (ℕ → ℕ × ℕ) → ℕ → ℕ → List (ℕ × ℕ)
window a i zero = []
window a i (suc n) = a i ∷ window a (suc i) n

-- What a data queue holds, oldest first: payloads with their sizes.
abbrev pub contents : DataQueue → List (ℕ × ℕ)
contents q = window (λ i. (q.elems i, q.sizes i)) 0 q.current_elems

window_ext :
    (a b : ℕ → ℕ × ℕ) (i n : ℕ)
    → ((k : ℕ) → i ≤ k → k < i + n → a k ≡ b k)
    → window a i n ≡ window b i n
window_ext a b i zero same = refl
window_ext a b i (suc n) same =
    ap₂ ◌∷◌ (same i (omega arith) (omega arith))
      (window_ext a b (suc i) n (λ k p q. same k (omega arith) (omega arith)))

window-suc : (a : ℕ → ℕ × ℕ) (i n : ℕ) → window a i (suc n) ≡ window a i n ++ a (i + n) ∷ []
window-suc a i zero = ap (λ t. a t ∷ []) (omega arith)
window-suc a i (suc n) =
    let e : i + suc n ≡ suc i + n = omega arith in rw e (ap (λ l. a i ∷ l) (window-suc a (suc i) n))

window-shift :
    (a b : ℕ → ℕ × ℕ) (i n : ℕ)
    → ((k : ℕ) → i ≤ k → k < i + n → a k ≡ b (k + 1))
    → window a i n ≡ window b (suc i) n
window-shift a b i zero same = refl
window-shift a b i (suc n) same =
    ap₂ ◌∷◌ (same i (omega arith) (omega arith) ∙ ap b (omega arith))
      (window-shift a b (suc i) n (λ k p q. same k (omega arith) (omega arith)))

shift-before : (left i : ℕ) (a : Array) (j : ℕ) → j + 1 < i → shift left i a j ≡ a j
unfolding shift put
shift-before zero i a j below = refl
shift-before (suc left) i a j below =
    shift-before left (i + 1) (put a (i - 1) (a i)) j (omega arith) ∙ ground arith

-- The loop of `nb__read` moves every element down by one.
shift-inside :
    (left i : ℕ) (a : Array) (j : ℕ)
    → 0 < i
    → i ≤ j + 1
    → j + 1 < i + left
    → shift left i a j ≡ a (j + 1)
unfolding shift put
shift-inside zero i a j pos lo hi = absurd (omega arith)
shift-inside (suc left) i a j pos lo hi = elim (dec_lt i (j + 1)) [
  | yes p ↦
      shift-inside left (i + 1) (put a (i - 1) (a i)) j (omega arith) (omega arith) (omega arith)
      ∙ ground arith
  | no p ↦
      let here : i ≡ j + 1 = omega arith in
      shift-before left (i + 1) (put a (i - 1) (a i)) j (omega arith) ∙ ground arith
]

-- `nb__insert_data_queue` puts the payload behind what the queue holds, while there is room.
pub insert_data_queue-contents :
    (q : DataQueue) (buff len : ℕ)
    → q.current_elems < max_data_queue_elems
    → (q' : DataQueue) × (insert_data_queue q buff len ≡ some q')
      × (contents q' ≡ contents q ++ (buff, len) ∷ [])
      × (q'.current_elems ≡ q.current_elems + 1)
unfolding insert_data_queue put
insert_data_queue-contents q buff len room = (
  record {
    elems = put q.elems q.current_elems buff;
    sizes = put q.sizes q.current_elems len;
    current_elems = q.current_elems + 1;
  },
  ground arith,
  longer
      ∙ ap₂ ◌++◌ (window_ext new old 0 n (λ k p q. ground arith)) (ap (λ t. t ∷ []) (ground arith)),
  refl,
)
  where
    n : ℕ
    n = q.current_elems

    old : ℕ → ℕ × ℕ
    old i = (q.elems i, q.sizes i)

    new : ℕ → ℕ × ℕ
    new i = (put q.elems n buff i, put q.sizes n len i)

    longer : window new 0 (n + 1) ≡ window new 0 n ++ new (0 + n) ∷ []
    longer = rw add-one (window-suc new 0 n)

-- The specification of a read: what it returns, and the payloads that are left. A negative `max_len` and
-- a negative size are faults.
unfoldable pub read_front : List (ℕ × ℕ) → ℕ → Option ((ℕ × Option ℕ) × List (ℕ × ℕ))
read_front [] max_len = some ((0, none), [])
read_front ((payload, size) ∷ rest) max_len =
    if ltb max_len (2 ^ 31) && ltb size (2 ^ 31)
    then some ((min max_len size, some payload), rest)
    else none

copied : ℕ → ℕ → ℕ
unfolding int_ltb
copied max_len size = if int_ltb max_len size then max_len else size

copied-negative :
    (max_len size : ℕ)
    → max_len < 2 ^ 32
    → size < 2 ^ 32
    → (ltb max_len (2 ^ 31) && ltb size (2 ^ 31)) ≡ false
    → is_negative (copied max_len size) ≡ true
unfolding copied int_ltb is_negative
copied-negative max_len size fit_len fit_size below = ground arith

copied-min :
    (max_len size : ℕ)
    → (ltb max_len (2 ^ 31) && ltb size (2 ^ 31)) ≡ true
    → (copied max_len size ≡ min max_len size) × (is_negative (copied max_len size) ≡ false)
unfolding copied int_ltb is_negative
copied-min max_len size ints = (ground arith, ground arith)

shifted :
    (elems sizes : Array) (n : ℕ)
    → window (λ i. (shift n 1 elems i, shift n 1 sizes i)) 0 n
      ≡ window (λ i. (elems i, sizes i)) 1 n
shifted elems sizes n =
    window-shift (λ i. (shift n 1 elems i, shift n 1 sizes i)) (λ i. (elems i, sizes i)) 0 n
      (λ k p below.
        let moved_elem = shift-inside n 1 elems k (omega arith) (omega arith) (omega arith) in
        let moved_size = shift-inside n 1 sizes k (omega arith) (omega arith) (omega arith) in cc)

-- What a read returns, with the queue as a list.
abbrev pub with_contents :
    Option ((ℕ × Option ℕ) × DataQueue) → Option ((ℕ × Option ℕ) × List (ℕ × ℕ))
with_contents none = none
with_contents (some (r, q)) = some (r, contents q)

read_at :
    (elems sizes : Array) (n max_len : ℕ)
    → max_len < 2 ^ 32
    → sizes 0 < 2 ^ 32
    → let q : DataQueue = record { elems = elems; sizes = sizes; current_elems = n } in
      with_contents (read q max_len) ≡ read_front (contents q) max_len
unfolding read read_front copied
read_at elems sizes zero max_len fit_len fit_size = refl
read_at elems sizes (suc n) max_len fit_len fit_size =
    let count : suc n - 1 ≡ n = omega arith in
    let full : (suc n == 0) ≡ false = ground arith in
    elim (Bool-cases (ltb max_len (2 ^ 31) && ltb (sizes 0) (2 ^ 31))) [
      | inr e ↦ rw (full, copied-negative max_len (sizes 0) fit_len fit_size e, e) refl
      | inl e ↦
          let (least, positive) = copied-min max_len (sizes 0) e in
          rw (full, positive, e, count)
            (ap
                (λ k.
                  some
                    ((k, some (elems 0)), window (λ i. (shift n 1 elems i, shift n 1 sizes i)) 0 n))
                least
              ∙ ap (λ t. some ((min max_len (sizes 0), some (elems 0)), t)) (shifted elems sizes n))
    ]

-- `nb__read` takes the oldest payload, returns no more than `max_len` and no more than its size, and
-- leaves the others in order; on an empty queue it returns 0 and leaves it empty. With a negative `max_len`
-- or a payload of negative size, both of 32 bits, it copies a negative length, which is a fault.
pub read-contents :
    (q : DataQueue) (max_len : ℕ)
    → max_len < 2 ^ 32
    → q.sizes 0 < 2 ^ 32
    → with_contents (read q max_len) ≡ read_front (contents q) max_len
read-contents q max_len fit_len fit_size =
    read_at q.elems q.sizes q.current_elems max_len fit_len fit_size
