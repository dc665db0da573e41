-- ===== src/Inorder/Hold.antt =====
-- The strategy `hold_forever` of inorder_module.cpp.
use net_blocks.Base.{
  ℕ, ◌+◌, ◌^◌, ◌%◌, ◌≤◌, ◌<◌, ◌≡◌, ◌≢◌, refl, sym, ap, subst, ◌∙◌, ◌⊎◌, inl, inr, Bool, true, false,
  ◌||◌, some, List, [], ◌∷◌, ◌++◌, arith, ◌==◌, Bool-cases,
}
use native.Mathlib.Nat.{mod-eq_of_lt}
use net_blocks.Queue.{put}
use net_blocks.Queue.Refine.{contents}
use net_blocks.Framework.{HookStatus, hook_continue, hook_drop}
use net_blocks.Inorder.{
  Flow, PacketLayout, Result, ok, out_of_bounds, out_of_fuel, accept_packet, flush, hold_forever,
  shelve, ingress_flush, ingress_hold, hook_ingress,
}
use net_blocks.Inorder.Flush.{
  payload_of, HasPackets, Delivered, accept_packet_lem, Taken, Taken-from, IsShelf,
}
use net_blocks.Inorder.Release.{Delivered-cons, Delivered-none, flush_lem}

-- The state between two packets: no shelved packet is the next one, and none is 32 or more behind it.
abbrev pub IsWellFormed : (ℕ → ℕ) → (ℕ → ℕ) → Flow → Type 0
IsWellFormed seq total f =
    HasPackets seq total f × IsShelf seq (f.last_recv_sequence + 2) (f.last_recv_sequence + 32) f

-- What the hook makes of packet `p`: it delivers the packets `ps`.
pub record Held (l : PacketLayout) (seq total : ℕ → ℕ) (f g : Flow) (p : ℕ) (s : HookStatus)
    (ps : List ℕ) : Type 0 where
  pub delivered : Delivered l seq total f g ps
  pub well_formed : IsWellFormed seq total g
  pub branch :
      ((seq p ≡ f.last_recv_sequence + 1)
        × (s ≡ hook_continue)
        × (rest : List ℕ) × (ps ≡ p ∷ rest)
        × Taken f g rest)
      ⊎ ((seq p ≢ f.last_recv_sequence + 1)
          × (s ≡ hook_drop)
          × (ps ≡ [])
          × (g.inorder_buffer (seq p % 32) ≡ p)
          × ((k : ℕ) → k ≢ seq p % 32 → g.inorder_buffer k ≡ f.inorder_buffer k))

widen-IsShelf :
    (seq : ℕ → ℕ) (low high high' : ℕ) (f : Flow)
    → high ≤ high'
    → IsShelf seq low high f
    → IsShelf seq low high' f
widen-IsShelf seq low high high' f le shelf = record {
  above = shelf.above;
  below = λ k q some_k. let a = shelf.below k q some_k in omega arith;
  place = shelf.place;
  known = shelf.known;
}

shelve-IsShelf :
    (seq : ℕ → ℕ) (low high : ℕ) (f : Flow) (p : ℕ)
    → low ≤ seq p
    → seq p ≤ high
    → IsShelf seq low high f
    → IsShelf seq low high (shelve f p (seq p))
unfolding shelve put
shelve-IsShelf seq low high f p lo hi shelf = record {
  above = λ k q some_k. let a = shelf.above k q in ground (arith, a, lo);
  below = λ k q some_k. let a = shelf.below k q in ground (arith, a, hi);
  place = λ k q some_k. let a = shelf.place k q in ground (arith, a);
  known = λ k q some_k. let a = shelf.known k q in ground (arith, a);
}

moved-IsShelf :
    (seq : ℕ → ℕ) (low high : ℕ) (f g : Flow)
    → g.inorder_buffer ≡ f.inorder_buffer
    → g.max_ooo_sequence ≡ f.max_ooo_sequence
    → IsShelf seq low high f
    → IsShelf seq low high g
moved-IsShelf seq low high f g buf max shelf = record {
  above =
      λ k q some_k. let a = shelf.above k q in let b = ap (λ t. t k) buf in ground (arith, a, b);
  below =
      λ k q some_k. let a = shelf.below k q in let b = ap (λ t. t k) buf in ground (arith, a, b);
  place =
      λ k q some_k. let a = shelf.place k q in let b = ap (λ t. t k) buf in ground (arith, a, b);
  known = λ k q some_k.
      let a = shelf.known k q in let b = ap (λ t. t k) buf in ground (arith, a, b, max);
}

Held-next :
    (l : PacketLayout) (seq total : ℕ → ℕ) (f g h : Flow) (p : ℕ) (ps : List ℕ)
    → seq p ≡ f.last_recv_sequence + 1
    → contents (g.input_queue) ≡ contents (f.input_queue) ++ payload_of l total p
    → g.last_recv_sequence ≡ seq p
    → Delivered l seq total g h ps
    → Taken f h ps
    → IsShelf seq (h.last_recv_sequence + 2) (f.last_recv_sequence + 32) h
    → Held l seq total f h p hook_continue (p ∷ ps)
Held-next l seq total f g h p ps own queue now rest taken left =
    let delivered = Delivered-cons l seq total f g h p ps queue (now ∙ own) own rest in
    let end = delivered.last in
    record {
      delivered = delivered;
      well_formed = (rest.packets, widen-IsShelf seq _ _ _ h (omega (arith, end)) left);
      branch = inl (own, refl, ps, refl, taken);
    }

Held-shelved :
    (l : PacketLayout) (seq total : ℕ → ℕ) (f : Flow) (p : ℕ)
    → HasPackets seq total f
    → f.last_recv_sequence < seq p
    → seq p ≤ f.last_recv_sequence + 32
    → IsShelf seq (f.last_recv_sequence + 2) (f.last_recv_sequence + 32) f
    → seq p ≢ f.last_recv_sequence + 1
    → Held l seq total f (shelve f p (seq p)) p hook_drop []
Held-shelved l seq total f p hp lo hi shelf ne =
    let put_there =
      shelve-IsShelf seq (f.last_recv_sequence + 2) (f.last_recv_sequence + 32) f p (omega arith) hi
        shelf in
    let none_yet = Delivered-none l seq total f hp in
    unfold shelve put in
    record {
      delivered = record {
        queue = none_yet.queue;
        order = none_yet.order;
        last = none_yet.last;
        packets = record { sequence = hp.sequence; len = hp.len };
      };
      well_formed = (record { sequence = hp.sequence; len = hp.len }, put_there);
      branch = inr (ne, refl, refl, ground arith, λ k other. ground arith);
    }

ingress_shelved :
    (l : PacketLayout) (f : Flow) (p sq : ℕ)
    → (f.packet p).sequence_number ≡ sq
    → f.last_recv_sequence ≢ 0
    → (sq == (f.last_recv_sequence + 1) % 2 ^ 32) ≡ false
    → ingress_hold l f p ≡ ok (shelve f p sq, hook_drop)
unfolding ingress_hold
ingress_shelved l f p sq own started e =
    let later : (f.last_recv_sequence == 0) ≡ false = ground arith in rw (own, later, e) refl

flushed :
    (l : PacketLayout) (g h : Flow) (sq : ℕ)
    → flush 33 l g ((sq + 1) % 2 ^ 32) ≡ ok h
    → ingress_flush l sq (some g) ≡ ok (h, hook_continue)
unfolding ingress_flush
flushed l g h sq done =
    ap
      (λ x. elim x as (λ _. Result (Flow × HookStatus)) [
        | ok h ↦ ok (h, hook_continue)
        | out_of_bounds ↦ out_of_bounds
        | out_of_fuel ↦ out_of_fuel
      ])
      done

or_true : (b : Bool) → b || true ≡ true
or_true true = refl
or_true false = refl

ingress_next :
    (l : PacketLayout) (f g h : Flow) (p sq : ℕ)
    → (f.packet p).sequence_number ≡ sq
    → (sq == (f.last_recv_sequence + 1) % 2 ^ 32) ≡ true
    → accept_packet l f p sq ≡ some g
    → flush 33 l g ((sq + 1) % 2 ^ 32) ≡ ok h
    → ingress_hold l f p ≡ ok (h, hook_continue)
unfolding ingress_hold
ingress_next l f g h p sq own e accepted done =
    let ready = or_true (f.last_recv_sequence == 0) in
    rw (own, e, ready) (ap (ingress_flush l sq) accepted ∙ flushed l g h sq done)

-- `hook_ingress` with `hold_forever`, for a packet whose sequence number is one of the 32 that follow
-- the last one delivered (which is not 0, and 33 below the end of the sequence numbers), while the
-- packets on the shelf are within that window and the input queue has 34 free places. The hook
-- returns, so its loop ends. If the packet is the next one, the hook delivers it and then shelved ones,
-- in the order of their sequence numbers and without a gap, up to the first number that is not there, and
-- takes exactly these from the shelf; otherwise it shelves the packet, delivers none, and leaves all other
-- places of the shelf as they are. The shelf stays within the window.
pub hook_ingress-hold_forever :
    (l : PacketLayout) (seq total : ℕ → ℕ) (f : Flow) (p : ℕ)
    → IsWellFormed seq total f
    → f.last_recv_sequence ≢ 0
    → f.last_recv_sequence + 33 < 2 ^ 32
    → f.last_recv_sequence < seq p
    → seq p ≤ f.last_recv_sequence + 32
    → f.input_queue.current_elems + 34 ≤ 512
    → (g : Flow) × (s : HookStatus) × (ps : List ℕ) × (hook_ingress hold_forever l f p ≡ ok (g, s))
      × Held l seq total f g p s ps
unfolding hook_ingress
hook_ingress-hold_forever l seq total f p (hp, shelf) started wide lo hi room =
    let last = f.last_recv_sequence in
    elim (Bool-cases (seq p == (last + 1) % 2 ^ 32)) [
      | inl e ↦
          let own : seq p ≡ last + 1 = ground (arith, e) in
          let (g, accepted, packets, queue, count, now, buf, max) =
            accept_packet_lem l seq total f p (seq p) hp (omega arith) in
          let low : last + 2 ≡ g.last_recv_sequence + 1 = omega (arith, own, now) in
          let (h, ps, done, rest, taken, left) =
            flush_lem 33 l seq total (last + 32) g packets
              (moved-IsShelf seq (g.last_recv_sequence + 1) (last + 32) f g buf max
                (subst (λ t. IsShelf seq t (last + 32) f) low shelf))
              (omega (arith, own, now)) (omega (arith, own, now)) (omega (arith, own, now))
              (omega arith) (omega (arith, count)) in
          (
            h,
            hook_continue,
            p ∷ ps,
            ingress_next l f g h p (seq p) (hp.sequence p) e accepted
                (ap (flush 33 l g) (mod-eq_of_lt (omega arith) ∙ ap (λ t. t + 1) (sym now)) ∙ done),
            Held-next l seq total f g h p ps own queue now rest (Taken-from f g h ps buf taken)
                left,
          )
      | inr e ↦
          let ne : seq p ≢ last + 1 = λ same. absurd (ground (arith, e, same)) in
          (
            shelve f p (seq p),
            hook_drop,
            [],
            ingress_shelved l f p (seq p) (hp.sequence p) started e,
            Held-shelved l seq total f p hp lo hi shelf ne,
          )
    ]
