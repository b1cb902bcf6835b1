-- ===== src/Tests/Config.antt =====
-- Configurations that LoadIPAMConfig lets through: fd00::/126, and 10.0.0.6/29 without a gateway.
use amazon_ecs_cni_plugins.Base.{
  ℕ, ◌+◌, ◌%◌, ◌*◌, ◌^◌, ◌<◌, ◌≡◌, ◌∙◌, ◌↔◌, ap, refl, arith, true, [], codes, ok,
}
use amazon_ecs_cni_plugins.Net.{Ip, IpNet, v4, v6, nil, to4, to16, contains, mask_ip, equal}
use amazon_ecs_cni_plugins.Net.Ipv4.{to4-v4}
use amazon_ecs_cni_plugins.IpStore.Next.Cycle.{IsIpv4Subnet, size4}
use amazon_ecs_cni_plugins.Ipam.Config.{
  IpamConfig, has_ipv4, has_ipv6, check_ipv4_address, check_ipv6_address, ipv4_gateway_of,
  ipv6_gateway_of, validate_ipv4, validate_ipv6, validate, verify_ip_subnet,
  is_ipv6_network_address, get_default_ipv4_gw,
}
use amazon_ecs_cni_plugins.Ipam.Config.Usable.{IsUsable}
use amazon_ecs_cni_plugins.Ipam.Config.UsableV6.{IsUsableV6}
use amazon_ecs_cni_plugins.Ipam.Config.Validated.{validate-default_gateway_iff}
use amazon_ecs_cni_plugins.Ipam.Config.ValidatedV6.{validate-IsUsableV6}
use amazon_ecs_cni_plugins.Tests.Fixtures.{unnamed, small6, small6-IsIpv6Subnet}

-- fd00::2 with the gateway fd00::1
abbrev named_v6 : IpamConfig
named_v6 = record {
  type = codes "ecs-ipam";
  ipv4_subnet = unnamed;
  ipv4_address = unnamed;
  ipv4_gateway = nil;
  ipv4_routes = [];
  ipv6_subnet = small6;
  ipv6_address = record { ip = v6 (0xfd00 * 2 ^ 112 + 2); mask = small6.mask };
  ipv6_gateway = v6 (0xfd00 * 2 ^ 112 + 1);
  ipv6_routes = [];
  id = [];
}

named_v6-v6 : has_ipv6 named_v6 ≡ true
unfolding has_ipv6
named_v6-v6 = refl

named_v6-validate : validate (λ ip. ip) named_v6 ≡ ok named_v6
unfolding validate validate_ipv6 has_ipv4 has_ipv6 check_ipv6_address ipv6_gateway_of
    verify_ip_subnet is_ipv6_network_address contains to4 to16 mask_ip equal
named_v6-validate = refl

validate-IsUsableV6_example :
    IsUsableV6 small6 small6-IsIpv6Subnet (0xfd00 * 2 ^ 112 + 2)
    × IsUsableV6 small6 small6-IsIpv6Subnet (0xfd00 * 2 ^ 112 + 1)
    × (named_v6.ipv6_gateway ≡ named_v6.ipv6_gateway)
validate-IsUsableV6_example =
    validate-IsUsableV6 (λ ip. ip) named_v6 named_v6 (0xfd00 * 2 ^ 112 + 2) (0xfd00 * 2 ^ 112 + 1)
      small6-IsIpv6Subnet named_v6-v6 refl (omega arith) refl (omega arith) named_v6-validate

-- The address that follows an IPv4 address.
abbrev following : Ip → Ip
following ip = v4 ((to4 ip).value + 1)

following-documented :
    (ip : Ip) (n : ℕ) → to4 ip ≡ v4 n → n + 1 < 2 ^ 32 → to4 (following ip) ≡ v4 (n + 1)
following-documented ip n e l = to4-v4 _ ∙ ap (λ (a : Ip). v4 (a.value + 1)) e

abbrev eight : IpNet
eight = record { ip = v4 0x0a000006; mask = record { ones = 29; bits = 32 } }

eight-IsIpv4Subnet : IsIpv4Subnet eight 0x0a000006
unfolding to4
eight-IsIpv4Subnet = record {
  address = refl;
  bits = refl;
  few_ones = omega arith;
  range = omega arith;
  first_byte = omega arith;
}

abbrev without_gateway : IpamConfig
without_gateway = record named_v6 {
  ipv4_subnet = eight;
  ipv6_subnet = unnamed;
  ipv6_address = unnamed;
  ipv6_gateway = nil;
}

without_gateway-v4 : has_ipv4 without_gateway ≡ true
unfolding has_ipv4
without_gateway-v4 = refl

without_gateway-validate :
    validate following without_gateway
    ≡ ok (record without_gateway { ipv4_gateway = v4 0x0a000007 })
unfolding validate validate_ipv4 has_ipv4 has_ipv6 check_ipv4_address ipv4_gateway_of
    get_default_ipv4_gw to4
without_gateway-validate = refl

validate-default_gateway_iff_example :
    (to4 (v4 0x0a000007) ≡ v4 (0x0a000006 + 1))
    × (IsUsable eight 0x0a000006 eight-IsIpv4Subnet (0x0a000006 + 1)
        ↔ (0x0a000006 % size4 eight + 2 < size4 eight))
validate-default_gateway_iff_example =
    validate-default_gateway_iff following without_gateway
      (record without_gateway { ipv4_gateway = v4 0x0a000007 }) 0x0a000006 eight-IsIpv4Subnet
      following-documented without_gateway-v4 refl (omega arith) without_gateway-validate
