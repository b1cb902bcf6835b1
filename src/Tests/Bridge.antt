-- ===== src/Tests/Bridge.antt =====
-- The theorems on the bridge plugin at a host that answers every call.
use amazon_ecs_cni_plugins.Host.{
  exec_del, enter_ns, del_link_by_name_addr, family_v4, addr_add, addr_list,
}
use amazon_ecs_cni_plugins.Bridge.Addresses.{bridge_network, family_of, configure_bridge}
use amazon_ecs_cni_plugins.Bridge.Addresses.Described.{Configured, configure_bridge_iff}
use amazon_ecs_cni_plugins.Base.{
  ◌≡◌, ◌↔◌, refl, codes, text_eq, false, not, none, [], ◌∷◌, map, onto, keep, panic, ok, err,
}
use amazon_ecs_cni_plugins.Net.{is_nil, to4}
use amazon_ecs_cni_plugins.Cni.{CmdArgs}
use amazon_ecs_cni_plugins.Host.{Link, History, route_del}
use amazon_ecs_cni_plugins.Bridge.Types.{NetConf, IpamConfig}
use amazon_ecs_cni_plugins.Base.{some}
use amazon_ecs_cni_plugins.Bridge.Commands.{del}
use amazon_ecs_cni_plugins.Bridge.Commands.Laws.{IsDeletion, del-no_ipam, del-with_ipam_iff}
use amazon_ecs_cni_plugins.Bridge.Veth.{
  MaskSizes, deletes, delete_routes, gateway_route, run, add_gateway_routes, add_route,
  set_hardware_address, add_subnet_routes, first_v4, is_default_route, connected_size,
}
use amazon_ecs_cni_plugins.Bridge.Veth.Cleanup.{delete_routes-trace, deletes-gateway_route}
use amazon_ecs_cni_plugins.Bridge.Veth.Order.{Listed, run_calls, run-trace}
use amazon_ecs_cni_plugins.Tests.Fixtures.{eth0, default_route, config, answer, host}

abbrev no_subnets : MaskSizes
no_subnets = record { ipv4 = 0; ipv6 = 0 }

cleaned : (delete_routes host no_subnets (default_route ∷ []) []).0 ≡ ok tt
unfolding delete_routes deletes is_default_route
cleaned = refl

delete_routes-trace_example :
    (delete_routes host no_subnets (default_route ∷ []) []).1
    ≡ onto (map route_del (keep (deletes no_subnets) (default_route ∷ []))) []
delete_routes-trace_example = delete_routes-trace host no_subnets (default_route ∷ []) [] cleaned

config-families : is_nil (to4 config.gateway) ≡ not (not (is_nil (to4 config.address.ip)))
unfolding to4
config-families = refl

deletes-gateway_route_example : deletes no_subnets (gateway_route eth0 config) ≡ false
deletes-gateway_route_example = deletes-gateway_route eth0 config no_subnets config-families

ran : (run host (codes "eth0") answer no_subnets []).0 ≡ ok tt
unfolding run add_gateway_routes set_hardware_address delete_routes add_subnet_routes add_route
    first_v4 to4 deletes is_default_route connected_size
ran = refl

run-trace_example :
    (link : Link) × (found : Listed host link) × (ok eth0 ≡ ok link)
    × ((run host (codes "eth0") answer no_subnets []).1
        ≡ onto (run_calls (codes "eth0") answer no_subnets link found.0) [])
run-trace_example = run-trace host (codes "eth0") answer no_subnets [] ran

abbrev no_ipam : NetConf
no_ipam = record { bridge_name = codes "ecs-bridge"; mtu = 0; ipam = none; block_imds = false }

abbrev args : CmdArgs
args = record {
  container_id = codes "c";
  netns = codes "/proc/1/ns/net";
  if_name = codes "eth0";
  stdin_data = [];
}

del-no_ipam_example : del host (λ t. ok no_ipam) args [] ≡ (err panic, [])
unfolding text_eq
del-no_ipam_example = del-no_ipam host (λ t. ok no_ipam) args no_ipam refl refl refl

-- The calls of a ConfigureBridge for one address, which the bridge does not have.
abbrev configured : History
configured =
    addr_add eth0 (bridge_network config) ∷ addr_list eth0 (family_of config.address.ip) ∷ []

configure_bridge_iff_example :
    (configure_bridge host eth0 (config ∷ []) [] ≡ (ok tt, configured))
    ↔ Configured host eth0 (config ∷ []) [] configured
configure_bridge_iff_example = configure_bridge_iff host eth0 (config ∷ []) [] configured

abbrev ecs_ipam : IpamConfig
ecs_ipam = record {
  type = codes "ecs-ipam";
  connected_subnet_mask_size_ipv4 = 0;
  connected_subnet_mask_size_ipv6 = 0;
}

abbrev with_ipam : NetConf
with_ipam = record no_ipam { ipam = some ecs_ipam }

-- The calls of a DEL whose first deletion succeeds.
abbrev deleted : History
deleted =
    del_link_by_name_addr args.if_name family_v4
    ∷ enter_ns args.netns
    ∷ exec_del (codes "ecs-ipam") args.stdin_data
    ∷ []

del-with_ipam_iff_example :
    (del host (λ t. ok with_ipam) args [] ≡ (ok tt, deleted))
    ↔ IsDeletion host args.netns args.if_name
        (exec_del (codes "ecs-ipam") args.stdin_data ∷ [])
        deleted
unfolding text_eq
del-with_ipam_iff_example =
    del-with_ipam_iff host (λ t. ok with_ipam) args with_ipam ecs_ipam [] deleted refl refl refl
