-- ===== src/Tests/Ipam.antt =====
-- The theorems on the configuration of the IPAM plugin at 10.0.0.0/30.
use amazon_ecs_cni_plugins.Base.{codes, text_eq, true, false, []}
use amazon_ecs_cni_plugins.Net.{nil}
use amazon_ecs_cni_plugins.Net.Format.{show_ip, parse_ip}
use amazon_ecs_cni_plugins.IpStore.Db.{lookup}
use amazon_ecs_cni_plugins.IpStore.Db.Memory.{memory}
use amazon_ecs_cni_plugins.IpStore.Manager.{release, exists}
use amazon_ecs_cni_plugins.Ipam.Config.{IpamConfig}
use amazon_ecs_cni_plugins.Ipam.Commands.{
  has_address, update_or_warn, release_addresses, record_released, del,
}
use amazon_ecs_cni_plugins.Net.{contains, mask_ip, equal}
use amazon_ecs_cni_plugins.IpStore.Next.{broadcast_of}
use amazon_ecs_cni_plugins.Ipam.Config.{
  has_ipv4, has_ipv6, validate, validate_ipv4, verify_ip_subnet, is_network_or_broadcast,
}
use amazon_ecs_cni_plugins.Ipam.Config.Validated.{validate-IsUsable}
use amazon_ecs_cni_plugins.Tests.Fixtures.{to4-at, unnamed, manager, half}
use amazon_ecs_cni_plugins.Base.{◌≡◌, refl, ok}
use amazon_ecs_cni_plugins.Net.{v4, to4}
use amazon_ecs_cni_plugins.Ipam.Config.{check_ipv4_address, ipv4_gateway_of}
use amazon_ecs_cni_plugins.Ipam.Config.Usable.{IsUsable}
use amazon_ecs_cni_plugins.Tests.Fixtures.{small, small-IsIpv4Subnet}

-- A configuration that names 10.0.0.1.
abbrev pub named_one : IpamConfig
named_one = record {
  type = codes "ecs-ipam";
  ipv4_subnet = small;
  ipv4_address = record { ip = v4 0x0a000001; mask = small.mask };
  ipv4_gateway = v4 0x0a000002;
  ipv4_routes = [];
  ipv6_subnet = unnamed;
  ipv6_address = unnamed;
  ipv6_gateway = nil;
  ipv6_routes = [];
  id = [];
}

has_one : has_address named_one.ipv4_address ≡ true
unfolding has_address show_ip parse_ip text_eq
has_one = refl

has_no_ipv6 : has_address named_one.ipv6_address ≡ false
unfolding has_address
has_no_ipv6 = refl

one-text : text_eq (show_ip (v4 0x0a000001)) [] ≡ false
unfolding show_ip text_eq
one-text = refl

deleted : (del memory named_one (manager (v4 0x0a000001) half)).0 ≡ ok tt
unfolding del release_addresses record_released update_or_warn has_address show_ip parse_ip release
    exists lookup text_eq
deleted = refl

named_one-v4 : has_ipv4 named_one ≡ true
unfolding has_ipv4
named_one-v4 = refl

named_one-validate : validate (λ ip. ip) named_one ≡ ok named_one
unfolding validate validate_ipv4 has_ipv4 has_ipv6 check_ipv4_address ipv4_gateway_of
    verify_ip_subnet is_network_or_broadcast contains to4 mask_ip equal broadcast_of
named_one-validate = refl

validate-IsUsable_example :
    IsUsable small 0x0a000000 small-IsIpv4Subnet 0x0a000001
    × IsUsable small 0x0a000000 small-IsIpv4Subnet 0x0a000002
    × (named_one.ipv4_gateway ≡ named_one.ipv4_gateway)
validate-IsUsable_example =
    validate-IsUsable (λ ip. ip) named_one named_one 0x0a000000 0x0a000001 0x0a000002
      small-IsIpv4Subnet named_one-v4 (to4-at 0x0a000001) (to4-at 0x0a000002) named_one-validate
