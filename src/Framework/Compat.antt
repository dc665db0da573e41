-- ===== src/Framework/Compat.antt =====
-- The compatibility tests of include/core/framework.h.
use net_blocks.Base.{ℕ, ◌≤◌, ◌≡◌, ◌↔◌, true, arith}
use net_blocks.Framework.{
  CompatLevel, no_compat, eth_compat, ip_compat, udp_compat, tcp_compat, is_eth_compat,
  is_ip_compat, is_udp_compat,
}

-- The place of a level in the enumeration.
unfoldable pub rank : CompatLevel → ℕ
rank no_compat = 0
rank eth_compat = 1
rank ip_compat = 2
rank udp_compat = 3
rank tcp_compat = 4

-- The Ethernet and IP tests hold exactly from their level on; the UDP test holds exactly at its
-- own level, so TCP does not imply it.
pub compat_levels :
    (c : CompatLevel)
    → ((is_eth_compat c ≡ true) ↔ (1 ≤ rank c))
      × ((is_ip_compat c ≡ true) ↔ (2 ≤ rank c))
      × ((is_udp_compat c ≡ true) ↔ (rank c ≡ 3))
unfolding rank is_eth_compat is_ip_compat is_udp_compat
compat_levels no_compat = ground arith
compat_levels _ = ground arith
