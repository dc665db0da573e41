-- ===== src/Payload/Trip.antt =====
-- What a host sends with payload_module.cpp and network_module.cpp is what its peer reads.
use net_blocks.Base.{
  Option, none, ◌/◌, sym, subst, ℕ, zero, suc, ◌+◌, ◌-◌, ◌^◌, ◌%◌, ◌≤◌, ◌<◌, ◌≡◌, ◌⊎◌, inl, refl,
  ap, ◌∙◌, some, [], ◌∷◌, ◌++◌, arith, ◌==◌, if◌then◌else◌,
}
use net_blocks.Framework.{HookStatus, hook_continue}
use net_blocks.Packet.{IntegerMember, get_integer, ◌>>=◌}
use net_blocks.Packet.Aligned.{Fits, get_integer-set_integer}
use net_blocks.Packet.Local.{IsByteMember, get_integer_moved, get_integer_ext}
use net_blocks.Packet.Word.{update-IsBytes}
use net_blocks.Packet.Bytes.{Memory, update, IsBytes}
use net_blocks.Queue.{DataQueue, insert_data_queue}
use net_blocks.Inorder.{PacketLayout, deliver, payload_len}
use net_blocks.Payload.{
  Sizes, Outgoing, set_total_len, memcpy, packet_len, payload_at, payload_send, network_send,
  set_computed,
}

memcpy-outside :
    (n : ℕ) (h : Memory) (dst src a : ℕ) → (a < dst) ⊎ (dst + n ≤ a) → memcpy n h dst src a ≡ h a
unfolding memcpy update
memcpy-outside zero h dst src a out = refl
memcpy-outside (suc n) h dst src a out =
    memcpy-outside n (update h dst (h src)) (dst + 1) (src + 1) a (omega arith) ∙ ground arith

-- A copy to a place that does not overlap the source.
memcpy_lem :
    (n : ℕ) (h : Memory) (dst src j : ℕ)
    → (src + n ≤ dst) ⊎ (dst + n ≤ src)
    → j < n
    → memcpy n h dst src (dst + j) ≡ h (src + j)
unfolding memcpy update
memcpy_lem zero h dst src j apart lt = absurd (omega arith)
memcpy_lem (suc n) h dst src zero apart lt =
    memcpy-outside n (update h dst (h src)) (dst + 1) (src + 1) (dst + 0) (inl (omega arith))
    ∙ (let here : update h dst (h src) (dst + 0) ≡ h src = ground arith in here)
    ∙ ap h (omega arith)
memcpy_lem (suc n) h dst src (suc j) apart lt =
    let left : dst + suc j ≡ dst + 1 + j = omega arith in
    let right : src + 1 + j ≡ src + suc j = omega arith in
    ap (memcpy n (update h dst (h src)) (dst + 1) (src + 1)) left
    ∙ memcpy_lem n (update h dst (h src)) (dst + 1) (src + 1) j (omega arith) (omega arith)
    ∙ (let other : update h dst (h src) (src + 1 + j) ≡ h (src + 1 + j) = ground arith in other)
    ∙ ap h right

-- The layout by which the peer delivers: the payload behind the headers.
abbrev pub peer_layout : Sizes → PacketLayout
peer_layout z = record { payload = z.total_size - 1; header_len = z.total_size - 1 - z.headroom }

memcpy-IsBytes : (n : ℕ) (h : Memory) (dst src : ℕ) → IsBytes h → IsBytes (memcpy n h dst src)
unfolding memcpy
memcpy-IsBytes zero h dst src ok = ok
memcpy-IsBytes (suc n) h dst src ok =
    memcpy-IsBytes n (update h dst (h src)) (dst + 1) (src + 1)
      (update-IsBytes h dst (h src) ok (ok src))

-- The member `total_len` takes whole bytes, is sent, and lies in front of the payload.
pub record IsLenMember (z : Sizes) (m : IntegerMember) (at : ℕ) : Type 0 where
  pub bytes : IsByteMember m
  pub on_byte : at % 8 ≡ 0
  pub after_headroom : z.headroom ≤ at / 8
  pub before_payload : at / 8 + m.bit_size / 8 < z.total_size

-- The memory that `payload_module::hook_send` leaves.
abbrev pub memory_of : Option (Outgoing × HookStatus) → Memory
memory_of none = λ a. 0
memory_of (some (out, status)) = out.memory

pub payload_send-IsBytes :
    (z : Sizes) (m : IntegerMember) (at : ℕ) (s : Outgoing) (p buff len : ℕ)
    → IsLenMember z m at
    → Fits m (packet_len z len)
    → IsBytes s.memory
    → IsBytes (memory_of (payload_send z (some (m, at)) s p buff len))
unfolding payload_send set_total_len
payload_send-IsBytes z m at s p buff len place fits ok =
    let (h, stored, back, oh, frame) =
      get_integer-set_integer m at s.memory p (packet_len z len) place.bytes.formed place.on_byte ok
        fits in
    rw stored (memcpy-IsBytes len h (payload_at z p) buff oh)

-- Without IP compatibility, a payload of `len` bytes, a length of packets that fits into the member `total_len`
-- and into 31 bits, and a buffer that does not overlap the packet: the payload module reports `len`, and the network
-- module hands one packet to the transport, from behind the headroom on. If all bytes of this packet arrive at the
-- peer at `q`, the peer reads the length from them; then an empty payload is not queued, and any other one is
-- queued with its length at an address where its bytes are.
pub payload_send-deliver :
    (z : Sizes) (m : IntegerMember) (at : ℕ) (s : Outgoing) (p q buff len computed : ℕ) (g : Memory)
    (queue : DataQueue)
    → z.headroom < z.total_size
    → z.total_size + len < 2 ^ 31
    → IsLenMember z m at
    → Fits m (z.total_size - z.headroom - 1 + len)
    → IsBytes s.memory
    → IsBytes g
    → (buff + len ≤ p) ⊎ (payload_at z p + len ≤ buff)
    → ((i : ℕ)
        → z.headroom ≤ i
        → i < z.headroom + (z.total_size - z.headroom - 1 + len)
        → g (q + i) ≡ memory_of (payload_send z (some (m, at)) s p buff len) (p + i))
    → (out : Outgoing) × (payload_send z (some (m, at)) s p buff len ≡ some (out, hook_continue))
      × (out.ret_len ≡ len)
      × ((network_send z out p).0.sent
          ≡ s.sent ++ (p + z.headroom, z.total_size - z.headroom - 1 + len) ∷ [])
      × ((set_computed (some (m, at)) g q computed >>= λ n. deliver (peer_layout z) queue q n)
          ≡ (if len == 0 then some queue else insert_data_queue queue (payload_at z q) len))
      × ((j : ℕ) → j < len → g (payload_at z q + j) ≡ s.memory (buff + j))
unfolding payload_send set_total_len network_send set_computed deliver
payload_send-deliver z m at s p q buff len computed g queue room small place fits ok og apart
      arrives =
    let n = packet_len z len in
    let whole : n ≡ z.total_size - z.headroom - 1 + len = unfold packet_len in omega arith in
    let (h, stored, back, oh, frame) =
      get_integer-set_integer m at s.memory p n place.bytes.formed place.on_byte ok
        (subst (λ t. Fits m t) (sym whole) fits) in
    let copied = memcpy len h (payload_at z p) buff in
    let out : Outgoing = record s { computed_total_len = n; ret_len = len; memory = copied } in
    let done : payload_send z (some (m, at)) s p buff len ≡ some (out, hook_continue) =
      rw stored refl in
    let came : (i : ℕ)
        → z.headroom ≤ i
        → i < z.headroom + (z.total_size - z.headroom - 1 + len)
        → g (q + i) ≡ copied (p + i) =
      λ i lo hi. arrives i lo hi ∙ ap (λ o. memory_of o (p + i)) done in
    let read : get_integer m at g q ≡ some n =
      get_integer_moved m at g copied q p place.bytes place.on_byte og
        (memcpy-IsBytes len h (payload_at z p) buff oh)
        (λ i lt.
          let from : q + at / 8 + i ≡ q + (at / 8 + i) = omega arith in
          let to : p + (at / 8 + i) ≡ p + at / 8 + i = omega arith in
          ap g from
          ∙ came (at / 8 + i) (omega (arith, place.after_headroom))
              (omega (arith, place.before_payload, room))
          ∙ ap copied to)
      ∙ get_integer_ext m at copied h p place.bytes place.on_byte
          (memcpy-IsBytes len h (payload_at z p) buff oh) oh
          (λ i lt.
            memcpy-outside len h (payload_at z p) buff (p + at / 8 + i)
              (inl (omega (arith, place.before_payload))))
      ∙ back in
    let rest : payload_len (peer_layout z) n ≡ len = omega (arith, whole) in
    (
      out,
      done,
      refl,
      ap (λ k. s.sent ++ (p + z.headroom, k) ∷ []) whole,
      rw read (
          ap (λ k. if k == 0 then some queue else insert_data_queue queue (payload_at z q) k) rest),
      λ j lt.
          (let left : payload_at z q + j ≡ q + (z.total_size - 1 + j) = omega arith in
            let right : p + (z.total_size - 1 + j) ≡ payload_at z p + j = omega arith in
            ap g left
            ∙ came (z.total_size - 1 + j) (omega arith) (omega arith)
            ∙ ap copied right
            ∙ memcpy_lem len h (payload_at z p) buff j (omega arith) lt
            ∙ frame (buff + j)
                (omega (arith, apart, place.before_payload, place.bytes.whole_bytes))),
    )
