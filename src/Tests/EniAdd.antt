-- ===== src/Tests/EniAdd.antt =====
-- ADD of the ENI plugin at a host that answers every call.
use amazon_ecs_cni_plugins.Base.{◌≡◌, refl, codes, true, false, [], ◌∷◌, ok}
use amazon_ecs_cni_plugins.Net.{v4}
use amazon_ecs_cni_plugins.Cni.{CmdArgs, CniResult}
use amazon_ecs_cni_plugins.Eni.Types.{NetConf, Parsers}
use amazon_ecs_cni_plugins.Eni.Commands.{config_of, configs_of, add_with}
use amazon_ecs_cni_plugins.Eni.Commands.Outcome.{IsAnswer, add_with-IsAnswer}
use amazon_ecs_cni_plugins.Tests.Fixtures.{small, eth0, host}
use amazon_ecs_cni_plugins.Base.{text_eq}
use amazon_ecs_cni_plugins.Eni.Metadata.{
  find_link, get_interface_device_name, get_link_by_hardware_address,
}
use amazon_ecs_cni_plugins.Eni.Namespace.{
  add_addresses, add_gateways, add_route_unless, block_endpoints, configure_device,
  new_setup_context, parse_addresses, parse_gateways, run_setup, setup_container_namespace,
}
use amazon_ecs_cni_plugins.Host.{with_net_ns_path}
use amazon_ecs_cni_plugins.Net.Format.{parse_ip}

abbrev parsers : Parsers
parsers = record {
  parse_cidr = λ t. ok (v4 0x0a000002, small);
  parse_mac = λ t. ok eth0.hardware_addr;
}

abbrev net_conf : NetConf
net_conf = record {
  cni_version = codes "0.3.0";
  eni_id = codes "eni-1";
  mac_address = codes "0A:00:00:00:00:01";
  ip_addresses = codes "10.0.0.2/30" ∷ [];
  gateway_ip_addresses = codes "10.0.0.1" ∷ [];
  block_imds = true;
  stay_down = false;
  mtu = 9001;
}

abbrev args : CmdArgs
args = record {
  container_id = codes "c";
  netns = codes "ns";
  if_name = codes "eth1";
  stdin_data = [];
}

abbrev added : CniResult
added = record {
  interfaces = record { name = codes "eth0"; mac = codes "0A:00:00:00:00:01" } ∷ [];
  ips = config_of (v4 0x0a000002, small) ∷ [];
  routes = [];
}

add_succeeds : (add_with host parsers args net_conf []).0 ≡ ok added
unfolding add_with config_of configs_of text_eq find_link get_interface_device_name
    get_link_by_hardware_address add_addresses add_gateways add_route_unless block_endpoints
    configure_device new_setup_context parse_addresses parse_gateways run_setup
    setup_container_namespace with_net_ns_path parse_ip
add_succeeds = refl

add_with-IsAnswer_example : IsAnswer host parsers net_conf added
add_with-IsAnswer_example = add_with-IsAnswer host parsers args net_conf [] added add_succeeds
