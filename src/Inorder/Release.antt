-- ===== src/Inorder/Release.antt =====
-- The loop that releases shelved packets, with `hold_forever` of inorder_module.cpp.
use net_blocks.Base.{
  ℕ, zero, suc, ◌+◌, ◌-◌, ◌^◌, ◌%◌, ◌≤◌, ◌<◌, ◌≡◌, refl, sym, ap, ap₂, subst, ◌∙◌, inl, inr, Bool,
  true, false, ◌&&◌, not, none, some, List, [], ◌∷◌, ◌++◌, arith, leb, length, ◌==◌, Bool-cases,
}
use mathlib.Core.List.{append-nil, append_assoc}
use native.Mathlib.Nat.{mod-eq_of_lt}
use net_blocks.Queue.{put}
use net_blocks.Queue.Refine.{contents}
use net_blocks.Inorder.{Flow, PacketLayout, Result, ok, out_of_bounds, accept_packet, flush}
use net_blocks.Inorder.Flush.{
  payload_of, payloads_of, run, HasPackets, Delivered, accept_packet_lem, Taken, Taken-none,
  Taken-cons, IsShelf, shelf_number, stop-IsShelf, next-IsShelf,
}

abbrev goes_on : Flow → ℕ → Bool
goes_on f i = leb i f.max_ooo_sequence && not (f.inorder_buffer (i % 32) == 0)

flush_stop :
    (fuel : ℕ) (l : PacketLayout) (f : Flow) (i : ℕ)
    → goes_on f i ≡ false
    → flush (suc fuel) l f i ≡ ok f
unfolding flush
flush_stop fuel l f i e = rw e refl

flush_step :
    (fuel : ℕ) (l : PacketLayout) (f g : Flow) (i : ℕ)
    → goes_on f i ≡ true
    → accept_packet l f (f.inorder_buffer (i % 32)) i ≡ some g
    → flush (suc fuel) l f i
      ≡ flush fuel l
          (record g { inorder_buffer = put g.inorder_buffer (i % 32) 0 })
          ((i + 1) % 2 ^ 32)
unfolding flush
flush_step fuel l f g i e accepted = rw e (
    ap
      (λ x. elim x as (λ _. Result Flow) [
        | none ↦ out_of_bounds
        | some g ↦
            flush fuel l (record g { inorder_buffer = put g.inorder_buffer (i % 32) 0 })
              ((i + 1) % 2 ^ 32)
      ])
      accepted)

-- One delivery, and then others.
pub Delivered-cons :
    (l : PacketLayout) (seq total : ℕ → ℕ) (f g h : Flow) (p : ℕ) (ps : List ℕ)
    → contents (g.input_queue) ≡ contents (f.input_queue) ++ payload_of l total p
    → g.last_recv_sequence ≡ f.last_recv_sequence + 1
    → seq p ≡ f.last_recv_sequence + 1
    → Delivered l seq total g h ps
    → Delivered l seq total f h (p ∷ ps)
unfolding payloads_of run
Delivered-cons l seq total f g h p ps queue last own rest = record {
  queue =
      rest.queue
      ∙ ap (λ t. t ++ payloads_of l total ps) queue
      ∙ append_assoc (contents (f.input_queue)) (payload_of l total p) (payloads_of l total ps);
  order = ap₂ ◌∷◌ own (
      rest.order
      ∙ ap (λ t. run t (length ps))
          (let e : g.last_recv_sequence + 1 ≡ suc (f.last_recv_sequence + 1) =
              omega (arith, last) in
            e));
  last =
      let e = rest.last in
      let n : length (p ∷ ps) ≡ suc (length ps) = refl in omega (arith, e, last, n);
  packets = rest.packets;
}

pub Delivered-none :
    (l : PacketLayout) (seq total : ℕ → ℕ) (f : Flow)
    → HasPackets seq total f
    → Delivered l seq total f f []
unfolding payloads_of run
Delivered-none l seq total f hp = record {
  queue = sym (append-nil (contents (f.input_queue)));
  order = refl;
  last = let n : length {A = ℕ} [] ≡ 0 = refl in omega (arith, n);
  packets = hp;
}

-- The loop ends with enough fuel, and delivers the packets that follow without a gap.
pub flush_lem :
    (fuel : ℕ) (l : PacketLayout) (seq total : ℕ → ℕ) (high : ℕ) (f : Flow)
    → HasPackets seq total f
    → IsShelf seq (f.last_recv_sequence + 1) high f
    → f.last_recv_sequence ≤ high
    → high < f.last_recv_sequence + fuel
    → high ≤ f.last_recv_sequence + 32
    → high < 2 ^ 32 - 1
    → f.input_queue.current_elems + fuel ≤ 512
    → (g : Flow) × (ps : List ℕ) × (flush fuel l f (f.last_recv_sequence + 1) ≡ ok g)
      × Delivered l seq total f g ps
      × Taken f g ps
      × IsShelf seq (g.last_recv_sequence + 2) high g
flush_lem zero l seq total high f hp shelf lo enough near wide room = absurd (omega arith)
flush_lem (suc fuel) l seq total high f hp shelf lo enough near wide room =
    let i = f.last_recv_sequence + 1 in
    let p = f.inorder_buffer (i % 32) in
    elim (Bool-cases (goes_on f i)) [
      | inl e ↦
          let own : seq p ≡ i = shelf_number seq i high f shelf (omega arith) (ground arith) in
          let top = shelf.below (i % 32) (omega arith) (ground arith) in
          let (g, accepted, packets, queue, count, last, buf, max) =
            accept_packet_lem l seq total f p i hp (omega arith) in
          let g' : Flow = record g { inorder_buffer = put g.inorder_buffer (i % 32) 0 } in
          let index : (i + 1) % 2 ^ 32 ≡ g.last_recv_sequence + 1 =
            mod-eq_of_lt (omega arith) ∙ ap (λ t. t + 1) (sym last) in
          let shelf' : IsShelf seq (suc i) high g' =
            next-IsShelf seq i high f g' shelf (omega arith) (λ k. ap (λ b. put b (i % 32) 0 k) buf)
              max in
          let (h, ps, done, rest, taken, shelf_left) =
            flush_lem fuel l seq total high g'
              record { sequence = packets.sequence; len = packets.len }
              (subst (λ t. IsShelf seq t high g') (omega (arith, last)) shelf')
              (omega (arith, last)) (omega (arith, last)) (omega (arith, last)) wide
              (omega (arith, count)) in
          (
            h,
            p ∷ ps,
            flush_step fuel l f g i e accepted ∙ ap (flush fuel l g') index ∙ done,
            Delivered-cons l seq total f g' h p ps queue last own rest,
            Taken-cons f g' h (i % 32) ps (λ k. ap (λ b. put b (i % 32) 0 k) buf) (ground arith)
                taken,
            shelf_left,
          )
      | inr e ↦ (
        f,
        [],
        flush_stop fuel l f i e,
        Delivered-none l seq total f hp,
        Taken-none f,
        subst (λ t. IsShelf seq t high f) (omega arith) (stop-IsShelf seq i high f shelf e),
      )
    ]
