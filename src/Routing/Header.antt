-- ===== src/Routing/Header.antt =====
-- The IP header that hook_send of routing_module.cpp sets.
use net_blocks.Base.{ℕ, ◌+◌, ◌%◌, ◌<◌, ◌≡◌, ap, ◌∙◌, inl, inr, arith, true}
use net_blocks.Base.Words.{u16}
use net_blocks.Packet.Bytes.{Memory, read_word, write_word}
use net_blocks.Packet.Word.{read_word-write_word}
use net_blocks.Routing.{ByteOrder, IpLayout, do_ip_checksum, set_header, hook_send, ingress_len}
use net_blocks.Routing.Checksum.{IsByteOrder, read_word-apart, do_ip_checksum-valid}

-- The members of the header follow one another.
pub record IsContiguous (l : IpLayout) : Type 0 where
  pub total_len_at : l.total_len ≡ l.vide + 2
  pub iff_at : l.iff ≡ l.vide + 4
  pub ttl_at : l.ttl ≡ l.vide + 8
  pub protocol_at : l.protocol ≡ l.vide + 9
  pub header_checksum_at : l.header_checksum ≡ l.vide + 10

-- The word of the checksum, before the checksum is computed.
checksum_cleared :
    (o : ByteOrder) (l : IpLayout) (m : Memory) (p len : ℕ)
    → IsContiguous l
    → read_word 2 (set_header o l m p len) (p + l.vide + 10) ≡ 0
unfolding set_header
checksum_cleared o l m p len c =
    let at : p + l.vide + 10 ≡ p + l.header_checksum = omega (arith, c.header_checksum_at) in
    read_word-apart _ (p + l.total_len) _ (p + l.vide + 10) (inr (omega (arith, c.total_len_at)))
    ∙ ap (read_word 2 _) at
    ∙ read_word-write_word 2 _ (p + l.header_checksum) 0 (omega arith)

len_written :
    (o : ByteOrder) (l : IpLayout) (m : Memory) (p len v : ℕ)
    → IsByteOrder o
    → IsContiguous l
    → len + 42 < 65536
    → o.ntohs (
        read_word 2
          (write_word 2 (set_header o l m p len) (p + l.header_checksum) v)
          (p + l.total_len))
      ≡ len + 28
unfolding set_header
len_written o l m p len v ok c small =
    let fits : o.htons (len + 28) % 65536 ≡ o.htons (len + 28) =
      omega (arith, ok.htons-lt (len + 28)) in
    let same : (len + 28) % 65536 ≡ len + 28 = omega arith in
    ap o.ntohs (
      read_word-apart _ (p + l.header_checksum) v (p + l.total_len)
        (inl (omega (arith, c.total_len_at, c.header_checksum_at)))
      ∙ read_word-write_word 2 _ (p + l.total_len) (u16 (o.htons (u16 (len + 28)))) (omega arith)
      ∙ ap (λ n. u16 (o.htons n)) same
      ∙ fits)
    ∙ ok.ntohs-htons (len + 28) (omega arith)

-- With IP compatibility, a header whose members follow one another and a payload of `len` bytes, with room in 16 bits:
-- the header that `hook_send` leaves has the checksum of no error, and the peer's `hook_ingress` finds the length of the
-- payload with 28 bytes of headers and 14 of the frame.
pub hook_send-valid :
    (o : ByteOrder) (l : IpLayout) (dst my_host_id : ℕ) (m : Memory) (p len : ℕ)
    → IsByteOrder o
    → IsContiguous l
    → len + 42 < 65536
    → (do_ip_checksum o (hook_send o true l dst my_host_id m p len).0 (p + l.vide) 20 ≡ o.htons 0)
      × (ingress_len o l (hook_send o true l dst my_host_id m p len).0 p ≡ len + 42)
unfolding hook_send ingress_len
hook_send-valid o l dst my_host_id m p len ok c small =
    let ids =
      write_word 4 (write_word 4 m (p + l.dst_global_id) dst) (p + l.src_global_id) my_host_id in
    let filled = set_header o l ids p len in
    let at : p + l.header_checksum ≡ p + l.vide + 10 = omega (arith, c.header_checksum_at) in
    (
      ap
            (λ a.
              do_ip_checksum o (write_word 2 filled a (do_ip_checksum o filled (p + l.vide) 20))
                (p + l.vide) 20)
            at
          ∙ do_ip_checksum-valid o filled (p + l.vide) 10 5 ok (omega arith) (omega arith)
              (checksum_cleared o l ids p len c),
      ap (λ n. u16 (n + 14))
            (len_written o l ids p len (do_ip_checksum o filled (p + l.vide) 20) ok c small)
          ∙ omega arith,
    )
