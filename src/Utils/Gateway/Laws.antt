-- ===== src/Utils/Gateway/Laws.antt =====
-- Which blocks ComputeIPV4GatewayNetmask takes, and the gateway that it computes.
use amazon_ecs_cni_plugins.Base.{ℕ, ◌+◌, ◌%◌, ◌≤◌, ◌<◌, ◌≡◌, ◌↔◌, ap, arith, Text, Result, ok}
use amazon_ecs_cni_plugins.Net.{Ip, IpNet, v4, to4}
use amazon_ecs_cni_plugins.Net.Format.{show_ip, byte_text}
use amazon_ecs_cni_plugins.Utils.Gateway.{
  add_one_to_last_byte, checked_block, parse_or_wrap, compute_ipv4_gateway_netmask,
}

add_one-v4 : (n : ℕ) → n % 256 < 255 → add_one_to_last_byte (v4 n) ≡ v4 (n + 1)
unfolding add_one_to_last_byte
add_one-v4 n h = ap v4 (omega arith)

-- For a text that parses as an IPv4 address with its network, where the address does not end in
-- 255, ComputeIPV4GatewayNetmask returns the address that follows the address of the text, also
-- where that address has host bits, and the length of the prefix exactly if that length is from 16
-- to 28.
pub compute_ipv4_gateway_netmask_iff :
    (parse_cidr : Text → Result (Ip × IpNet)) (cidr : Text) (ip : Ip) (net : IpNet) (n : ℕ)
    → parse_cidr cidr ≡ ok (ip, net)
    → to4 ip ≡ v4 n
    → n % 256 < 255
    → (compute_ipv4_gateway_netmask parse_cidr cidr
        ≡ ok (show_ip (v4 (n + 1)), byte_text net.mask.ones))
      ↔ ((16 ≤ net.mask.ones) × (net.mask.ones ≤ 28))
unfolding compute_ipv4_gateway_netmask parse_or_wrap checked_block
compute_ipv4_gateway_netmask_iff parse_cidr cidr ip net n q e h =
    (λ r. (ground arith, ground arith), λ (lo, hi). ground (arith, add_one-v4 n h))
