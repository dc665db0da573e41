-- ===== src/Routing.antt =====
-- src/modules/routing_module.cpp, and `nb__do_ip_checksum` of runtime/nb_runtime.c. `ntohs` and `htons` of the
-- C library are arguments. Members that start on a byte are words in memory.
pub mod Checksum
pub mod Header
pub mod Examples
use net_blocks.Base.{ℕ, zero, suc, ◌+◌, ◌-◌, ◌/◌, ◌%◌, Bool, if◌then◌else◌}
use net_blocks.Base.Words.{u16, u32}
use net_blocks.Framework.{HookStatus, hook_continue}
use net_blocks.Packet.Bytes.{Memory, read_word, write_word}

-- The two conversions of 16-bit numbers.
pub record ByteOrder : Type 0 where
  pub ntohs : ℕ → ℕ
  pub htons : ℕ → ℕ

-- The loop over the words.
unfoldable pub sum_words : ByteOrder → ℕ → Memory → ℕ → ℕ → ℕ
sum_words o zero h packet checksum = checksum
sum_words o (suc left) h packet checksum =
    sum_words o left h (packet + 2) (u32 (checksum + o.ntohs (read_word 2 h packet)))

-- The lower and the upper 16 bits are added.
unfoldable pub fold_carry : ℕ → ℕ
fold_carry checksum = checksum % 65536 + checksum / 65536 % 65536

-- `nb__do_ip_checksum`. `lower ^ 0xffffu` takes a number of 16 bits from 65535.
unfoldable pub do_ip_checksum : ByteOrder → Memory → ℕ → ℕ → ℕ
unfolding fold_carry
do_ip_checksum o h p len =
    o.htons (65535 - fold_carry (fold_carry (sum_words o (len / 2) h p 0)) % 65536)

-- The addresses of the members, in bytes from the packet's address.
pub record IpLayout : Type 0 where
  pub vide : ℕ
  pub total_len : ℕ
  pub iff : ℕ
  pub ttl : ℕ
  pub protocol : ℕ
  pub header_checksum : ℕ
  pub dst_global_id : ℕ
  pub src_global_id : ℕ

-- `hook_establish` keeps `sa` as the global id of the destination.
unfoldable pub hook_establish : ℕ → ℕ → ℕ → ℕ × HookStatus
hook_establish h a sa = (sa, hook_continue)

-- The members of the IP header but for its checksum, as `hook_send` sets them.
unfoldable pub set_header : ByteOrder → IpLayout → Memory → ℕ → ℕ → Memory
set_header o l m p len =
    let m₁ = write_word 2 m (p + l.vide) 0x0045 in
    let m₂ = write_word 4 m₁ (p + l.iff) 0x0040724a in
    let m₃ = write_word 1 m₂ (p + l.ttl) 0x40 in
    let m₄ = write_word 1 m₃ (p + l.protocol) 0x11 in
    let m₅ = write_word 2 m₄ (p + l.header_checksum) 0 in
    write_word 2 m₅ (p + l.total_len) (u16 (o.htons (u16 (len + 28))))

-- `hook_send` of a connection to `dst`, where the host is `my_host_id`.
unfoldable pub hook_send :
    ByteOrder → Bool → IpLayout → ℕ → ℕ → Memory → ℕ → ℕ → Memory × HookStatus
hook_send o ip_compat l dst my_host_id m p len =
    let ids =
      write_word 4 (write_word 4 m (p + l.dst_global_id) dst) (p + l.src_global_id) my_host_id in
    let filled = set_header o l ids p len in
    if ip_compat
    then (
      write_word 2 filled (p + l.header_checksum) (do_ip_checksum o filled (p + l.vide) 20),
      hook_continue,
    )
    else (ids, hook_continue)

-- `hook_ingress`: what it sets `computed_total_len` to.
unfoldable pub ingress_len : ByteOrder → IpLayout → Memory → ℕ → ℕ
ingress_len o l m p = u16 (o.ntohs (read_word 2 m (p + l.total_len)) + 14)
