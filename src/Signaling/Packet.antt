-- ===== src/Signaling/Packet.antt =====
-- The signaling packet that `signaling_module_after::hook_establish` sends through the send hooks of the
-- modules behind `signaling_module`.
use net_blocks.Base.{
  ℕ, ◌+◌, ◌-◌, ◌<◌, ◌^◌, ◌≡◌, refl, ap, ◌∙◌, Bool, true, false, ◌||◌, some, List, [], ◌∷◌, ◌++◌,
  map, arith, length, ◌==◌, if◌then◌else◌, inl, inr, Bool-cases,
}
use net_blocks.Queue.{DataQueue}
use net_blocks.Identifier.{wildcard_host_identifier}
use net_blocks.Framework.{HookStatus, hook_continue, Module, run_up}
use net_blocks.Framework.Paths.{run_path, register_all, register_all-send_behind}
use net_blocks.Inorder.{deliver, payload_len}
use net_blocks.Payload.{Sizes, packet_len}
use net_blocks.Payload.Trip.{peer_layout}
use net_blocks.Signaling.{SignalingState, waiting_for_signal, signaled, signal_na, hook_establish}

-- What the hook does to the connection and the packet, and the buffer that the transport gives.
pub record Operations (W : Type 0) : Type 0 where
  pub request_send_buffer : W → ℕ × W
  pub set_signaling_state : ℕ → SignalingState → W → W
  pub set_total_len : ℕ → ℕ → W → W
  pub set_computed_total_len : ℕ → ℕ → W → W

module _ {W : Type 0} (k : Operations W) (z : Sizes) (ip_compat : Bool) where
  -- The members of the packet: its length is that of the headers.
  unfoldable pub fill_packet : ℕ → W → W
  fill_packet p w =
      k.set_computed_total_len p (packet_len z 0)
        (if ip_compat then w else k.set_total_len p (packet_len z 0) w)

  -- `sequence` is that of `signaling_module`.
  unfoldable pub send_signal : List (Module W) → ℕ → ℕ → W → W
  send_signal modules sequence c w =
      let (p, w') = k.request_send_buffer w in
      (run_up (λ m. m.hook_send c p (0 ∷ []) 0) modules (length modules) (sequence + 1)
        (fill_packet p (k.set_signaling_state c waiting_for_signal w'), 0)).0

  unfoldable pub hook_establish_after : List (Module W) → Bool → ℕ → ℕ → ℕ → ℕ → W → W × HookStatus
  hook_establish_after modules is_enabled sequence c h a w =
      if (h == wildcard_host_identifier) || (a == 0)
      then (k.set_signaling_state c signal_na w, hook_continue)
      else if is_enabled
      then (send_signal modules sequence c w, hook_continue)
      else (k.set_signaling_state c signaled w, hook_continue)

  -- What is to happen by the state machine: the state is set, and if a packet goes out, the send hooks
  -- of the modules `behind` run on it, with the length of the headers in the packet.
  unfoldable pub after_state : List (Module W) → ℕ → SignalingState × Bool → W → W
  after_state behind c (s, false) w = k.set_signaling_state c s w
  after_state behind c (s, true) w =
      let (p, w') = k.request_send_buffer w in
      let u = k.set_signaling_state c s w' in
      let len = z.total_size - 1 - z.headroom in
      let v = if ip_compat then u else k.set_total_len p len u in
      (run_path (map (λ m. m.hook_send c p (0 ∷ []) 0) behind)
        (k.set_computed_total_len p len v, 0)).0

  -- Once the modules are registered, the hook does what the state machine says, for every connection: it sets
  -- that state, and where a packet goes out, all send hooks of the modules registered behind the signaling
  -- module `m` run on it, in order, up to a drop. The packet is given the length of the headers alone, and a peer
  -- that finds this length queues no payload for it.
  pub hook_establish_after_lem :
      (new before : List (Module W)) (m : Module W) (behind : List (Module W)) (is_enabled : Bool)
      (c h a q : ℕ) (queue : DataQueue) (w : W)
      → register_all [] new ≡ before ++ m ∷ behind
      → z.headroom < z.total_size
      → z.total_size < 2 ^ 31
      → (hook_establish_after (register_all [] new) is_enabled m.sequence c h a w
          ≡ (after_state behind c (hook_establish is_enabled h a) w, hook_continue))
        × (deliver (peer_layout z) queue q (z.total_size - 1 - z.headroom) ≡ some queue)
  unfolding hook_establish_after after_state send_signal fill_packet hook_establish deliver
      packet_len
  hook_establish_after_lem new before m behind is_enabled c h a q queue w e room small =
      let (p, w') = k.request_send_buffer w in
      let sent =
        register_all-send_behind new before m behind c p 0 0 (0 ∷ [])
          (fill_packet p (k.set_signaling_state c waiting_for_signal w')) e in
      let u = k.set_signaling_state c waiting_for_signal w' in
      let none_left : payload_len (peer_layout z) (z.total_size - 1 - z.headroom) ≡ 0 =
        omega arith in
      let len : packet_len z 0 ≡ z.total_size - 1 - z.headroom = omega arith in
      (
        elim (Bool-cases ((h == wildcard_host_identifier) || (a == 0))) [
          | inl na ↦ rw na refl
          | inr known ↦ elim (Bool-cases is_enabled) [
            | inl on ↦
                rw (known, on)
                  (ap (λ (x : W × ℕ). (x.0, hook_continue)) (sent.1)
                    ∙ ap
                        (λ n.
                          let v = if ip_compat then u else k.set_total_len p n u in
                          (
                            (run_path (map (λ m. m.hook_send c p (0 ∷ []) 0) behind)
                                (k.set_computed_total_len p n v, 0)).0,
                            hook_continue,
                          ))
                        len)
            | inr off ↦ rw (known, off) refl
          ]
        ],
        rw none_left refl,
      )
