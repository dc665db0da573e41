-- ===== src/Inorder/Flush.antt =====
-- The delivery of shelved packets in inorder_module.cpp.
use net_blocks.Base.{
  ℕ, zero, suc, ◌+◌, ◌%◌, ◌≤◌, ◌<◌, ◌≡◌, ◌≢◌, refl, sym, ap, subst, ◌∙◌, ◌⊎◌, inl, inr, false, ◌&&◌,
  not, Option, none, some, List, [], ◌∷◌, ◌++◌, map, arith, leb, length, ◌==◌, if◌then◌else◌,
  Bool-cases,
}
use mathlib.Core.List.{append-nil}
use native.Mathlib.Decide.{dec_lt}
use net_blocks.Queue.{put, DataQueue}
use net_blocks.Queue.Refine.{contents, insert_data_queue-contents}
use net_blocks.Inorder.{
  Flow, PacketLayout, payload_len, deliver, accept_packet, set_received, update_packet,
}

-- What the queue gets of a packet of length `len`: nothing, if there is no payload.
unfoldable pub payload_of : PacketLayout → (ℕ → ℕ) → ℕ → List (ℕ × ℕ)
payload_of l total p =
    if payload_len l (total p) == 0 then [] else (p + l.payload, payload_len l (total p)) ∷ []

unfoldable pub payloads_of : PacketLayout → (ℕ → ℕ) → List ℕ → List (ℕ × ℕ)
unfolding payload_of
payloads_of l total [] = []
payloads_of l total (p ∷ ps) = payload_of l total p ++ payloads_of l total ps

-- The numbers from `i` on.
unfoldable pub run : ℕ → ℕ → List ℕ
run i zero = []
run i (suc n) = i ∷ run (suc i) n

pub deliver_lem :
    (l : PacketLayout) (q : DataQueue) (total : ℕ → ℕ) (p : ℕ)
    → q.current_elems < 512
    → (q' : DataQueue) × (deliver l q p (total p) ≡ some q')
      × (contents q' ≡ contents q ++ payload_of l total p)
      × (q'.current_elems ≤ q.current_elems + 1)
unfolding deliver payload_of
deliver_lem l q total p room = elim (Bool-cases (payload_len l (total p) == 0)) [
  | inl e ↦ (q, rw e refl, rw e (sym (append-nil (contents q))), omega arith)
  | inr e ↦
      let (q', inserted, more, count) =
        insert_data_queue-contents q (p + l.payload) (payload_len l (total p)) room in
      (q', rw e inserted, rw e more, omega (arith, count))
]

-- The sequence numbers and lengths of the packets, which no handler here changes.
pub record HasPackets (seq total : ℕ → ℕ) (f : Flow) : Type 0 where
  pub sequence : (p : ℕ) → (f.packet p).sequence_number ≡ seq p
  pub len : (p : ℕ) → (f.packet p).total_len ≡ total p

-- `g` is `f` after the delivery of the packets `ps`.
pub record Delivered (l : PacketLayout) (seq total : ℕ → ℕ) (f g : Flow) (ps : List ℕ)
    : Type 0 where
  pub queue : contents (g.input_queue) ≡ contents (f.input_queue) ++ payloads_of l total ps
  pub order : map seq ps ≡ run (f.last_recv_sequence + 1) (length ps)
  pub last : g.last_recv_sequence ≡ f.last_recv_sequence + length ps
  pub packets : HasPackets seq total g

pub accept_packet_lem :
    (l : PacketLayout) (seq total : ℕ → ℕ) (f : Flow) (p sq : ℕ)
    → HasPackets seq total f
    → f.input_queue.current_elems < 512
    → (g : Flow) × (accept_packet l f p sq ≡ some g)
      × HasPackets seq total g
      × (contents (g.input_queue) ≡ contents (f.input_queue) ++ payload_of l total p)
      × (g.input_queue.current_elems ≤ f.input_queue.current_elems + 1)
      × (g.last_recv_sequence ≡ sq)
      × (g.inorder_buffer ≡ f.inorder_buffer)
      × (g.max_ooo_sequence ≡ f.max_ooo_sequence)
unfolding accept_packet set_received update_packet
accept_packet_lem l seq total f p sq hp room =
    let (q, e, more, count) = deliver_lem l (f.input_queue) total p room in
    (
      set_received f p sq q,
      ap (λ x. elim x as (λ _. Option Flow) [ none ↦ none | some q ↦ some (set_received f p sq q) ])
          (ap (λ n. deliver l (f.input_queue) p n) (hp.len p) ∙ e),
      record {
        sequence = λ r. let s = hp.sequence r in let s' = hp.sequence p in ground arith;
        len = λ r. let s = hp.len r in let s' = hp.len p in ground arith;
      },
      more,
      count,
      refl,
      refl,
      refl,
    )

-- `q` is one of the packets.
abbrev pub IsIn : ℕ → List ℕ → Type 0
IsIn q [] = ⊥
IsIn q (p ∷ ps) = (p ≡ q) ⊎ IsIn q ps

-- From the shelf of `f` to that of `g`, exactly the packets `ps` are taken: any other place keeps its packet.
pub record Taken (f g : Flow) (ps : List ℕ) : Type 0 where
  pub kept :
      (k : ℕ)
      → (g.inorder_buffer k ≡ f.inorder_buffer k)
        ⊎ ((g.inorder_buffer k ≡ 0) × IsIn (f.inorder_buffer k) ps)
  pub shelved : (q : ℕ) → IsIn q ps → (k : ℕ) × (f.inorder_buffer k ≡ q) × (q ≢ 0)

pub Taken-none : (f : Flow) → Taken f f []
Taken-none f = record { kept = λ k. inl refl; shelved = λ q i. absurd i }

pub Taken-from :
    (f g h : Flow) (ps : List ℕ) → g.inorder_buffer ≡ f.inorder_buffer → Taken g h ps → Taken f h ps
Taken-from f g h ps same t = record {
  kept = λ k.
      let here = ap (λ b. b k) same in
      elim (t.kept k) [
        | inl e ↦ inl (e ∙ here)
        | inr (e, i) ↦ inr (e, subst (λ q. IsIn q ps) here i)
      ];
  shelved = λ q i. let (k, e, ne) = t.shelved q i in (k, sym (ap (λ b. b k) same) ∙ e, ne);
}

-- The packet at the place `j` is taken, and then others.
pub Taken-cons :
    (f g h : Flow) (j : ℕ) (ps : List ℕ)
    → ((k : ℕ) → g.inorder_buffer k ≡ put f.inorder_buffer j 0 k)
    → f.inorder_buffer j ≢ 0
    → Taken g h ps
    → Taken f h (f.inorder_buffer j ∷ ps)
unfolding put
Taken-cons f g h j ps buf here t = record {
  kept = λ k. elim (Bool-cases (k == j)) [
    | inl e ↦
        let same : k ≡ j = ground (arith, e) in
        let cleared : g.inorder_buffer k ≡ 0 = ground (arith, buf k, e) in
        let gone : h.inorder_buffer k ≡ 0 = elim (t.kept k) [
          | inl e' ↦ e' ∙ cleared
          | inr (e', i) ↦ e'
        ] in
        inr (gone, inl (ap f.inorder_buffer (sym same)))
    | inr e ↦
        let still : g.inorder_buffer k ≡ f.inorder_buffer k = ground (arith, buf k, e) in
        elim (t.kept k) [
          | inl e' ↦ inl (e' ∙ still)
          | inr (e', i) ↦ inr (e', inr (subst (λ q. IsIn q ps) still i))
        ]
  ];
  shelved = λ q i. elim i [
    | inl e ↦ (j, e, subst (λ t. t ≢ 0) e here)
    | inr i' ↦ let (k, e, ne) = t.shelved q i' in (k, ground (arith, buf k, e, ne), ne)
  ];
}

-- The shelved packets: each at the place of its sequence number, none of them delivered yet, and
-- the numbers between `low` and `high`.
pub record IsShelf (seq : ℕ → ℕ) (low high : ℕ) (f : Flow) : Type 0 where
  pub above : (k : ℕ) → k < 32 → f.inorder_buffer k ≢ 0 → low ≤ seq (f.inorder_buffer k)
  pub below : (k : ℕ) → k < 32 → f.inorder_buffer k ≢ 0 → seq (f.inorder_buffer k) ≤ high
  pub place : (k : ℕ) → k < 32 → f.inorder_buffer k ≢ 0 → seq (f.inorder_buffer k) % 32 ≡ k
  pub known :
      (k : ℕ) → k < 32 → f.inorder_buffer k ≢ 0 → seq (f.inorder_buffer k) ≤ f.max_ooo_sequence

-- A shelved packet at the place of `i` has the number `i`, if the numbers are less than 32 apart.
pub shelf_number :
    (seq : ℕ → ℕ) (i high : ℕ) (f : Flow)
    → IsShelf seq i high f
    → high < i + 32
    → f.inorder_buffer (i % 32) ≢ 0
    → seq (f.inorder_buffer (i % 32)) ≡ i
shelf_number seq i high f shelf near here =
    let a = shelf.above (i % 32) (omega arith) here in
    let b = shelf.below (i % 32) (omega arith) here in
    let c = shelf.place (i % 32) (omega arith) here in omega arith

-- Where the loop stops, the next packet is not on the shelf.
pub stop-IsShelf :
    (seq : ℕ → ℕ) (i high : ℕ) (f : Flow)
    → IsShelf seq i high f
    → (leb i f.max_ooo_sequence && not (f.inorder_buffer (i % 32) == 0)) ≡ false
    → IsShelf seq (suc i) high f
stop-IsShelf seq i high f shelf e = record {
  above = λ k p some_k.
      let a = shelf.above k p some_k in
      let c = shelf.place k p some_k in
      let d = shelf.known k p some_k in
      elim (dec_lt i (seq (f.inorder_buffer k))) [
        | yes q ↦ omega arith
        | no q ↦
            let here : i % 32 ≡ k = omega arith in
            let e' =
              subst (λ j. (leb i f.max_ooo_sequence && not (f.inorder_buffer j == 0)) ≡ false) here
                e in
            absurd (ground arith)
      ];
  below = shelf.below;
  place = shelf.place;
  known = shelf.known;
}

-- After a delivery.
pub next-IsShelf :
    (seq : ℕ → ℕ) (i high : ℕ) (f g : Flow)
    → IsShelf seq i high f
    → high < i + 32
    → ((k : ℕ) → g.inorder_buffer k ≡ put f.inorder_buffer (i % 32) 0 k)
    → g.max_ooo_sequence ≡ f.max_ooo_sequence
    → IsShelf seq (suc i) high g
unfolding put
next-IsShelf seq i high f g shelf near buf m = record {
  above = λ k p some_k.
      let b = buf k in
      let a = shelf.above k p in
      let c = shelf.place k p in let d = shelf.below k p in ground (arith, a, b, c, d);
  below = λ k p some_k. let b = buf k in let a = shelf.below k p in ground (arith, a, b);
  place = λ k p some_k. let b = buf k in let a = shelf.place k p in ground (arith, a, b);
  known = λ k p some_k. let b = buf k in let a = shelf.known k p in ground (arith, a, b, m);
}
