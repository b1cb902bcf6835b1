-- ===== src/Tests/Eni.antt =====
-- The theorems on the metadata service and on package utils.
use amazon_ecs_cni_plugins.Tests.Fixtures.{small}
use amazon_ecs_cni_plugins.Base.{true, onto}
use amazon_ecs_cni_plugins.Host.{Link, link_by_name}
use amazon_ecs_cni_plugins.Eni.Namespace.{
  SetupContext, run_setup, add_addresses, add_gateways, block_endpoints, add_route_unless,
}
use amazon_ecs_cni_plugins.Eni.Namespace.Order.{setup_calls, run_setup-trace}
use amazon_ecs_cni_plugins.Base.{◌≤◌, ◌≡◌, ◌↔◌, refl, arith, codes, [], ◌∷◌, ok}
use amazon_ecs_cni_plugins.Net.{v4, cidr_mask}
use amazon_ecs_cni_plugins.Net.Format.{show_ip, byte_text}
use amazon_ecs_cni_plugins.Utils.Gateway.{compute_ipv4_gateway_netmask}
use amazon_ecs_cni_plugins.Utils.Gateway.Laws.{compute_ipv4_gateway_netmask_iff}
use amazon_ecs_cni_plugins.Tests.Fixtures.{host, to4-at}

compute_ipv4_gateway_netmask_iff_example :
    (compute_ipv4_gateway_netmask
        (λ t. ok (v4 0x0a000000, record { ip = v4 0x0a000000; mask = cidr_mask 24 32 }))
        (codes "10.0.0.0/24")
      ≡ ok (show_ip (v4 0x0a000001), byte_text 24))
    ↔ ((16 ≤ 24) × (24 ≤ 28))
compute_ipv4_gateway_netmask_iff_example =
    compute_ipv4_gateway_netmask_iff
      (λ t. ok (v4 0x0a000000, record { ip = v4 0x0a000000; mask = cidr_mask 24 32 }))
      (codes "10.0.0.0/24") (v4 0x0a000000) (record { ip = v4 0x0a000000; mask = cidr_mask 24 32 })
      0x0a000000 refl (to4-at 0x0a000000) (omega arith)

abbrev context : SetupContext
context = record {
  if_name = codes "eth0";
  device_name = codes "eth1";
  mac_address = codes "0a:00:00:00:00:01";
  ip_addrs = small ∷ [];
  gateway_addrs = v4 0x0a000001 ∷ [];
  block_imds = true;
  mtu = 9001;
}

set_up : (run_setup host context []).0 ≡ ok tt
unfolding run_setup add_addresses add_gateways block_endpoints add_route_unless
set_up = refl

run_setup-trace_example :
    (link : Link) × (host.link_of [] (codes "eth1") ≡ ok link)
    × ((run_setup host context []).1
        ≡ onto (link_by_name (codes "eth1") ∷ setup_calls host context link) [])
run_setup-trace_example = run_setup-trace host context [] set_up
