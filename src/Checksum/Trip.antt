-- ===== src/Checksum/Trip.antt =====
-- A packet that hook_send of checksum_module.cpp sends, as hook_ingress sees it at another address.
use net_blocks.Base.{
  ℕ, ◌+◌, ◌-◌, ◌/◌, ◌%◌, ◌≤◌, ◌<◌, ◌≡◌, ◌≢◌, ◌⊎◌, inl, inr, sym, ap, ◌∙◌, arith, some, ◌==◌, ◌||◌,
  if◌then◌else◌, Bool-cases,
}
use net_blocks.Framework.{HookStatus, hook_continue, hook_drop}
use net_blocks.Packet.{IntegerMember, get_integer}
use net_blocks.Packet.Local.{IsByteMember, get_integer_moved}
use net_blocks.Packet.Bytes.{Memory, write_word, IsBytes}
use net_blocks.Checksum.{
  ChecksumType, ChecksumLayout, end_offset, hook_send, hook_ingress, network_ingress,
}
use net_blocks.Checksum.Sum.{add_words-total, total_ext, add_words_one}
use net_blocks.Checksum.Bytes.{
  IsCovered, cleared, checksum_of, saved, sent, Arrives, summed_byte, sent_byte, cleared_byte,
  cleared-IsBytes, saved-arrives, saved_bytes, own_byte, hook_ingress_at, kept_byte, packet-sent,
}

module _ (l : ChecksumLayout) (ct : ChecksumType) (len : ℕ) where
  -- The sums agree where all bytes of the packet but those of the checksum arrive as they were sent l ct len.
  checksum_of-same :
      (h g : Memory) (p q : ℕ)
      → ((i : ℕ) → l.headroom ≤ i → Arrives l ct len h g p q i)
      → checksum_of l ct len g q ≡ checksum_of l ct len h p
  unfolding checksum_of
  checksum_of-same h g p q same =
      let n = (end_offset l ct len - l.headroom + 1) / 2 in
      add_words-total n (cleared l ct len g q) (q + l.headroom) 0 (omega arith)
      ∙ ap (λ t. (0 + t) % 65536)
          (total_ext n (cleared l ct len g q) (cleared l ct len h p) (q + l.headroom)
            (p + l.headroom)
            (λ i lt. summed_byte l ct len h g p q i lt (same (l.headroom + i) (omega arith))))
      ∙ sym (add_words-total n (cleared l ct len h p) (p + l.headroom) 0 (omega arith))

  -- The sums differ where one of these bytes does.
  checksum_of-changed :
      (h g : Memory) (p q j : ℕ)
      → IsBytes g
      → IsBytes h
      → j < end_offset l ct len - l.headroom
      → l.headroom + j ≢ l.offset / 8
      → l.headroom + j ≢ l.offset / 8 + 1
      → ((i : ℕ) → l.headroom ≤ i → i ≢ l.headroom + j → Arrives l ct len h g p q i)
      → g (q + (l.headroom + j)) ≢ sent l ct len h p (p + (l.headroom + j))
      → checksum_of l ct len g q ≢ checksum_of l ct len h p
  unfolding checksum_of
  checksum_of-changed h g p q j og oh lt first second same differs =
      add_words_one ((end_offset l ct len - l.headroom + 1) / 2) (cleared l ct len g q)
        (cleared l ct len h p) (q + l.headroom) (p + l.headroom) j (cleared-IsBytes l ct len g q og)
        (cleared-IsBytes l ct len h p oh) (omega arith)
        (λ i k ne.
          summed_byte l ct len h g p q i k (same (l.headroom + i) (omega arith) (omega arith)))
        (λ e. differs (
          still (
            sym (ap (cleared l ct len g q) (omega arith))
            ∙ e
            ∙ ap (cleared l ct len h p) (omega arith))))
    where
      still :
          cleared l ct len g q (q + (l.headroom + j)) ≡ cleared l ct len h p (p + (l.headroom + j))
          → g (q + (l.headroom + j)) ≡ sent l ct len h p (p + (l.headroom + j))
      still e = ground (
        arith,
        cleared_byte l ct len h p (l.headroom + j),
        cleared_byte l ct len g q (l.headroom + j),
        sent_byte l ct len h p (l.headroom + j),
      )

  -- The verdict on a packet with one changed byte.
  changed_apart :
      (h g : Memory) (p q j : ℕ)
      → IsCovered l ct len
      → IsBytes g
      → IsBytes h
      → l.headroom ≤ j
      → j < end_offset l ct len
      → ((i : ℕ)
          → l.headroom ≤ i
          → i < end_offset l ct len
          → i ≢ j
          → g (q + i) ≡ sent l ct len h p (p + i))
      → g (q + j) ≢ sent l ct len h p (p + j)
      → checksum_of l ct len g q ≢ saved l ct len g q
  changed_apart h g p q j c og oh after before same differs equal =
      elim (Bool-cases ((j == l.offset / 8) || (j == l.offset / 8 + 1))) [
        | inl own ↦
            let where_own : (j ≡ l.offset / 8) ⊎ (j ≡ l.offset / 8 + 1) = ground (arith, own) in
            let sums =
              checksum_of-same h g p q (λ i le lt first second.
                same i le lt (λ e. ground (arith, own, e, first, second))) in
            let (first, second) = saved_bytes l ct len h g p q og oh (sym equal ∙ sums) in
            differs (own_byte l ct len h g p q j first second where_own)
        | inr other ↦
            let first =
              same (l.offset / 8) c.after_headroom (omega (arith, c.before_end))
                (λ e. ground (arith, other, e)) in
            let second =
              same (l.offset / 8 + 1) (omega (arith, c.after_headroom))
                (omega (arith, c.before_end)) (λ e. ground (arith, other, e)) in
            let at : l.headroom + (j - l.headroom) ≡ j = omega arith in
            checksum_of-changed h g p q (j - l.headroom) og oh (omega arith)
              (λ e. ground (arith, other, e, at)) (λ e. ground (arith, other, e, at))
              (λ i le ne lt _ _. same i le lt (λ e. ne (e ∙ sym at)))
              (λ e.
                differs (ap (λ k. g (q + k)) (sym at) ∙ e ∙ ap (λ k. sent l ct len h p (p + k)) at))
              (equal ∙ saved-arrives l ct len h g p q first second)
      ]

verdict-eq : (a b : ℕ) → a ≡ b → (if a == b then hook_continue else hook_drop) ≡ hook_continue
verdict-eq a b e = ground (arith, e)

verdict-ne : (a b : ℕ) → a ≢ b → (if a == b then hook_continue else hook_drop) ≡ hook_drop
verdict-ne a b ne = ground (arith, ne)

ingress_unchanged :
    (l : ChecksumLayout) (ct : ChecksumType) (len : ℕ) (h g packet : Memory) (p q : ℕ)
    (status : HookStatus)
    → IsCovered l ct len
    → IsBytes g
    → hook_send l ct len h p ≡ some (packet, status)
    → ((i : ℕ) → l.headroom ≤ i → i < end_offset l ct len → g (q + i) ≡ packet (p + i))
    → (kept : Memory) × (hook_ingress l ct len g q ≡ some (kept, hook_continue))
      × ((a : ℕ) → a ≢ q + end_offset l ct len → kept a ≡ g a)
ingress_unchanged l ct len h g packet p q status c ok sends same =
    let is = packet-sent l ct len h packet p status c.on_byte sends in
    let arrives : (i : ℕ)
        → l.headroom ≤ i
        → i < end_offset l ct len
        → g (q + i) ≡ sent l ct len h p (p + i) =
      λ i le lt. same i le lt ∙ ap (λ m. m (p + i)) is in
    let equal =
      checksum_of-same l ct len h g p q (λ i le lt _ _. arrives i le lt)
      ∙ sym (
          saved-arrives l ct len h g p q
            (arrives (l.offset / 8) c.after_headroom (omega (arith, c.before_end)))
            (arrives (l.offset / 8 + 1) (omega (arith, c.after_headroom))
              (omega (arith, c.before_end)))) in
    (
      write_word 2 (cleared l ct len g q) (q + l.offset / 8) (saved l ct len g q),
      hook_ingress_at l ct len g q c.on_byte
          ∙ ap
              (λ s.
                some
                  (write_word 2 (cleared l ct len g q) (q + l.offset / 8) (saved l ct len g q), s))
              (verdict-eq _ _ equal),
      λ a ne. kept_byte l ct len g q a ok ne,
    )

ingress_changed :
    (l : ChecksumLayout) (ct : ChecksumType) (len : ℕ) (h g packet : Memory) (p q j : ℕ)
    (status : HookStatus)
    → IsCovered l ct len
    → IsBytes g
    → IsBytes h
    → hook_send l ct len h p ≡ some (packet, status)
    → l.headroom ≤ j
    → j < end_offset l ct len
    → ((i : ℕ) → l.headroom ≤ i → i < end_offset l ct len → i ≢ j → g (q + i) ≡ packet (p + i))
    → g (q + j) ≢ packet (p + j)
    → (kept : Memory) × (hook_ingress l ct len g q ≡ some (kept, hook_drop))
ingress_changed l ct len h g packet p q j status c og oh sends after before same differs =
    let is = packet-sent l ct len h packet p status c.on_byte sends in
    let apart =
      changed_apart l ct len h g p q j c og oh after before
        (λ i le lt ne. same i le lt ne ∙ ap (λ m. m (p + i)) is)
        (λ e. differs (e ∙ ap (λ m. m (p + j)) (sym is))) in
    (
      write_word 2 (cleared l ct len g q) (q + l.offset / 8) (saved l ct len g q),
      hook_ingress_at l ct len g q c.on_byte
          ∙ ap
              (λ s.
                some
                  (write_word 2 (cleared l ct len g q) (q + l.offset / 8) (saved l ct len g q), s))
              (verdict-ne _ _ apart),
    )

-- The member `total_len`, which holds `len` in what is sent: whole bytes among those that are summed.
pub record HasLen (l : ChecksumLayout) (ct : ChecksumType) (m : IntegerMember) (at len : ℕ)
    (packet : Memory) (p : ℕ) : Type 0 where
  pub bytes : IsByteMember m
  pub on_byte : at % 8 ≡ 0
  pub after_headroom : l.headroom ≤ at / 8
  pub before_end : at / 8 + m.bit_size / 8 ≤ end_offset l ct len
  pub holds : get_integer m at packet p ≡ some len

len_arrives :
    (l : ChecksumLayout) (ct : ChecksumType) (m : IntegerMember) (at len : ℕ) (g packet : Memory)
    (p q : ℕ)
    → HasLen l ct m at len packet p
    → IsBytes g
    → IsBytes packet
    → ((i : ℕ) → at / 8 ≤ i → i < at / 8 + m.bit_size / 8 → g (q + i) ≡ packet (p + i))
    → get_integer m at g q ≡ some len
len_arrives l ct m at len g packet p q has og ok same =
    get_integer_moved m at g packet q p has.bytes has.on_byte og ok (λ i lt.
      let from : q + at / 8 + i ≡ q + (at / 8 + i) = omega arith in
      let to : p + (at / 8 + i) ≡ p + at / 8 + i = omega arith in
      ap g from ∙ same (at / 8 + i) (omega arith) (omega arith) ∙ ap packet to)
    ∙ has.holds

after_network :
    (l : ChecksumLayout) (ct : ChecksumType) (m : IntegerMember) (at len : ℕ) (g kept : Memory)
    (q : ℕ) (s : HookStatus)
    → get_integer m at g q ≡ some len
    → hook_ingress l ct len g q ≡ some (kept, s)
    → network_ingress l ct m at g q ≡ some (kept, s)
unfolding network_ingress
after_network l ct m at len g kept q s read done = rw read done

-- What `hook_send` sends without IP compatibility, where the checksum and the member `total_len`, which holds the
-- length, start on a byte and lie in what is summed, and where all bytes that are summed arrive at another
-- address: the peer, which takes the length from the packet, lets the packet go on and leaves it as it arrived,
-- but for the byte behind its end.
pub hook_ingress-unchanged :
    (l : ChecksumLayout) (ct : ChecksumType) (m : IntegerMember) (at len : ℕ) (h g packet : Memory)
    (p q : ℕ) (status : HookStatus)
    → IsCovered l ct len
    → IsBytes g
    → IsBytes packet
    → hook_send l ct len h p ≡ some (packet, status)
    → HasLen l ct m at len packet p
    → ((i : ℕ) → l.headroom ≤ i → i < end_offset l ct len → g (q + i) ≡ packet (p + i))
    → (kept : Memory) × (network_ingress l ct m at g q ≡ some (kept, hook_continue))
      × ((a : ℕ) → a ≢ q + end_offset l ct len → kept a ≡ g a)
hook_ingress-unchanged l ct m at len h g packet p q status c og ok sends has same =
    let (kept, done, rest) = ingress_unchanged l ct len h g packet p q status c og sends same in
    let read =
      len_arrives l ct m at len g packet p q has og ok
        (λ i lo hi. same i (omega (arith, has.after_headroom)) (omega (arith, has.before_end))) in
    (kept, after_network l ct m at len g kept q hook_continue read done, rest)

-- In the same setting, where one byte of what is summed, be it of the checksum but not of `total_len`, arrives
-- changed and all others as they were sent, the peer drops the packet.
pub hook_ingress-changed :
    (l : ChecksumLayout) (ct : ChecksumType) (m : IntegerMember) (at len : ℕ) (h g packet : Memory)
    (p q j : ℕ) (status : HookStatus)
    → IsCovered l ct len
    → IsBytes g
    → IsBytes h
    → IsBytes packet
    → hook_send l ct len h p ≡ some (packet, status)
    → HasLen l ct m at len packet p
    → l.headroom ≤ j
    → j < end_offset l ct len
    → (j < at / 8) ⊎ (at / 8 + m.bit_size / 8 ≤ j)
    → ((i : ℕ) → l.headroom ≤ i → i < end_offset l ct len → i ≢ j → g (q + i) ≡ packet (p + i))
    → g (q + j) ≢ packet (p + j)
    → (kept : Memory) × (network_ingress l ct m at g q ≡ some (kept, hook_drop))
hook_ingress-changed l ct m at len h g packet p q j status c og oh ok sends has after before apart
      same differs =
    let (kept, done) =
      ingress_changed l ct len h g packet p q j status c og oh sends after before same differs in
    let read = len_arrives l ct m at len g packet p q has og ok (λ i lo hi.
      same i (omega (arith, has.after_headroom)) (omega (arith, has.before_end))
        (λ e. omega (arith, apart))) in
    (kept, after_network l ct m at len g kept q hook_drop read done)
