-- ===== src/Utils/Gateway.antt =====
-- pkg/utils/gateway.go. net.ParseCIDR of a text is a parameter.
pub mod Laws
use amazon_ecs_cni_plugins.Base.{ℕ, ◌+◌, ◌-◌, ◌%◌, ltb, if◌then◌else◌, Text, String}
use amazon_ecs_cni_plugins.Base.{Error, message, wrap, Result, ok, err, ◌>>=◌}
use amazon_ecs_cni_plugins.Net.{Ip, IpNet, v4, is_nil, to4}
use amazon_ecs_cni_plugins.Net.Format.{show_ip, byte_text}

-- minIPV4CIDRBlockSize and maxIPV4CIDRBlockSize
abbrev pub min_block : ℕ
min_block = 28

abbrev pub max_block : ℕ
max_block = 16

-- `ip4[3] = ip4[3] + 1`: the last byte alone, and it wraps.
unfoldable pub add_one_to_last_byte : Ip → Ip
add_one_to_last_byte ip = v4 (ip.value - ip.value % 256 + (ip.value % 256 + 1) % 256)

-- The address and the size of an accepted block.
unfoldable pub checked_block : Error → Error → Error → Ip × IpNet → Result (Ip × ℕ)
checked_block no_ipv4 too_long too_short (ip, net) =
    if is_nil (to4 ip)
    then err no_ipv4
    else if ltb min_block net.mask.ones
    then err too_long
    else if ltb net.mask.ones max_block
    then err too_short
    else ok (to4 ip, net.mask.ones)

module _ (parse_cidr : Text → Result (Ip × IpNet)) where
  parse_or_wrap : Text → String → Result (Ip × IpNet)
  parse_or_wrap cidr note = elim (parse_cidr cidr) [ ok p ↦ ok p | err e ↦ err (wrap e note) ]

  -- ComputeIPV4GatewayNetmask
  unfoldable pub compute_ipv4_gateway_netmask : Text → Result (Text × Text)
  unfolding parse_or_wrap
  compute_ipv4_gateway_netmask cidr = do
    p ← parse_or_wrap cidr "compute ipv4 gateway netmask: unable to parse cidr: '%s'"
    (ip4, ones) ←
        checked_block (message "unable to parse ipv4 gateway from cidr block '%s'")
          (message "compute ipv4 gateway netmask: invalid ipv4 cidr block, %d > 28")
          (message "compute ipv4 gateway netmask: invalid ipv4 cidr block, %d <= 16") p
    ok (show_ip (add_one_to_last_byte ip4), byte_text ones)

  -- ParseIPV4GatewayNetmask
  unfoldable pub parse_ipv4_gateway_netmask : Text → Result (Text × Text)
  unfolding parse_or_wrap
  parse_ipv4_gateway_netmask cidr = do
    p ←
        parse_or_wrap cidr
          "parse ipv4 gateway netmask: unable to parse ipv4 subnet gateway from config: '%s'"
    (ip4, ones) ←
        checked_block
          (message "parse ipv4 gateway netmask: unable to parse ipv4 gateway from config: '%s'")
          (message "parse ipv4 gateway netmask: invalid ipv4 cidr block, %d > 28")
          (message "parse ipv4 gateway netmask: invalid ipv4 cidr block, %d <= 16") p
    ok (show_ip ip4, byte_text ones)
