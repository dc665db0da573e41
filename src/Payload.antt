-- ===== src/Payload.antt =====
-- src/modules/payload_module.cpp and src/modules/network_module.cpp: the payload goes into the packet, and the
-- packet to the transport. The state is what these hooks read and write of one packet.
pub mod Trip
mod Examples
use net_blocks.Base.{
  Option, none, some, ℕ, zero, suc, ◌+◌, ◌-◌, ◌^◌, ◌%◌, Bool, List, [], ◌∷◌, ◌++◌, if◌then◌else◌,
}
use net_blocks.Framework.{HookStatus, hook_continue}
use net_blocks.Packet.{IntegerMember, get_integer, set_integer, ◌>>=◌}
use net_blocks.Packet.Bytes.{Memory, update}

-- `get_headroom()` and `net_packet.get_total_size()`, which counts the one byte of the member `payload`.
pub record Sizes : Type 0 where
  pub headroom : ℕ
  pub total_size : ℕ

-- The memory, with the packet in it, the member `computed_total_len`, which is not sent, the value behind `ret_len`, and what `send_packet` got:
-- addresses and lengths.
pub record Outgoing : Type 0 where
  pub memory : Memory
  pub computed_total_len : ℕ
  pub ret_len : ℕ
  pub sent : List (ℕ × ℕ)

unfoldable pub memcpy : ℕ → Memory → ℕ → ℕ → Memory
unfolding update
memcpy zero h dst src = h
memcpy (suc n) h dst src = memcpy n (update h dst (h src)) (dst + 1) (src + 1)

-- The length that is computed from the layout: an `int`.
unfoldable pub packet_len : Sizes → ℕ → ℕ
packet_len z len = (z.total_size - z.headroom - 1 + len) % 2 ^ 32

-- The address of the payload, the last member.
abbrev pub payload_at : Sizes → ℕ → ℕ
payload_at z p = p + (z.total_size - 1)

-- The member `total_len` and its offset in bits; it is missing with IP compatibility.
abbrev pub LenMember : Type 0
LenMember = Option (IntegerMember × ℕ)

unfoldable pub set_total_len : LenMember → ℕ → Memory → ℕ → Option Memory
set_total_len none len h p = some h
set_total_len (some (m, at)) len h p = set_integer m at h p len

-- `payload_module::hook_send`
unfoldable pub payload_send :
    Sizes → LenMember → Outgoing → ℕ → ℕ → ℕ → Option (Outgoing × HookStatus)
unfolding memcpy packet_len set_total_len
payload_send z total_len s p buff len = do
  h ← set_total_len total_len (packet_len z len) s.memory p
  some (
    record s {
      computed_total_len = packet_len z len;
      ret_len = len;
      memory = memcpy len h (payload_at z p) buff;
    },
    hook_continue,
  )

-- `network_module::hook_send`
unfoldable pub network_send : Sizes → Outgoing → ℕ → Outgoing × HookStatus
network_send z s p =
    (record s { sent = s.sent ++ (p + z.headroom, s.computed_total_len) ∷ [] }, hook_continue)

-- `hook_ingress` of both modules: the new value of `computed_total_len`, from the packet in memory.
unfoldable pub set_computed : LenMember → Memory → ℕ → ℕ → Option ℕ
set_computed none h p computed_total_len = some computed_total_len
set_computed (some (m, at)) h p computed_total_len = get_integer m at h p
