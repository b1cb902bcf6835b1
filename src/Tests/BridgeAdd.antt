-- ===== src/Tests/BridgeAdd.antt =====
-- ADD of the bridge plugin at a host that answers every call.
use amazon_ecs_cni_plugins.Base.{◌≡◌, refl, codes, true, some, [], ok, err, message}
use amazon_ecs_cni_plugins.Cni.{CmdArgs, Interface, CniResult}
use amazon_ecs_cni_plugins.Bridge.Types.{NetConf}
use amazon_ecs_cni_plugins.Bridge.Commands.{
  complete_result, add_with, log_info, detail_log_msg, ipam_of, interfaces_of,
}
use amazon_ecs_cni_plugins.Bridge.Commands.Complete.{IsComplete, add_with-IsComplete}
use amazon_ecs_cni_plugins.Tests.Fixtures.{eth0, answer, host}
use amazon_ecs_cni_plugins.Base.{has_prefix, is_infix, text_eq}
use amazon_ecs_cni_plugins.Bridge.Addresses.{
  assign_address, bridge_mask, bridge_network, configure_address, configure_bridge, family_of,
  list_addresses, scan_addresses, settle,
}
use amazon_ecs_cni_plugins.Bridge.Engine.{
  attach_host_veth_interface_to_bridge, block_endpoints, block_instance_metadata, bring_up,
  check_ip_configs, check_ipam_result, create_bridge, create_bridge_link, create_if_missing,
  create_veth_pair, ensure_bridge, generate_mac_address, local_unicast, lookup_bridge, mac_of,
  run_ipam_plugin_add,
}
use amazon_ecs_cni_plugins.Bridge.Veth.{
  add_gateway_routes, add_route, add_subnet_routes, configure_container_veth_interface,
  connected_size, delete_routes, deletes, first_v4, first_v6, gateway_route,
  is_connected_subnet_to_delete, is_default_route, run, set_hardware_address, subnet_route,
}
use amazon_ecs_cni_plugins.Bridge.Commands.IpamCalls.{add_with-ipam_calls}
use amazon_ecs_cni_plugins.Host.IpamCalls.{IsHeard}
use amazon_ecs_cni_plugins.Host.{exec_add, says_file_exists, with_net_ns_path}
use amazon_ecs_cni_plugins.Net.{is_link_local_unicast, mask_ip, to4}
use amazon_ecs_cni_plugins.Net.Format.{
  byte_text, hex_digit, hextet_text, show_ip, show_net, show_v4, show_v6,
}

abbrev net_conf : NetConf
net_conf = record {
  bridge_name = codes "br";
  mtu = 1500;
  ipam = some (record {
    type = codes "ecs-ipam";
    connected_subnet_mask_size_ipv4 = 0;
    connected_subnet_mask_size_ipv6 = 0;
  });
  block_imds = true;
}

abbrev args : CmdArgs
args = record {
  container_id = codes "c";
  netns = codes "ns";
  if_name = codes "eth0";
  stdin_data = [];
}

-- Both ends of the veth pair are the link that the host knows.
abbrev end : Interface
end = record { name = codes "eth0"; mac = codes "0a:00:00:00:00:01" }

abbrev added : CniResult
added = complete_result answer eth0 end end

add_succeeds : (add_with host (λ text. err (message "")) args net_conf []).0 ≡ ok added
unfolding add_with complete_result log_info detail_log_msg ipam_of interfaces_of has_prefix is_infix
    text_eq assign_address bridge_mask bridge_network configure_address configure_bridge family_of
    list_addresses scan_addresses settle attach_host_veth_interface_to_bridge block_endpoints
    block_instance_metadata bring_up check_ip_configs check_ipam_result create_bridge
    create_bridge_link create_if_missing create_veth_pair ensure_bridge generate_mac_address
    local_unicast lookup_bridge mac_of run_ipam_plugin_add add_gateway_routes add_route
    add_subnet_routes configure_container_veth_interface connected_size delete_routes deletes
    first_v4 first_v6 gateway_route is_connected_subnet_to_delete is_default_route run
    set_hardware_address subnet_route says_file_exists with_net_ns_path is_link_local_unicast
    mask_ip to4 byte_text hex_digit hextet_text show_ip show_net show_v4 show_v6
add_succeeds = refl

add_with-IsComplete_example : IsComplete host args net_conf added
add_with-IsComplete_example =
    add_with-IsComplete host (λ text. err (message "")) args net_conf [] added add_succeeds

add_with-ipam_calls_example :
    IsHeard
      (exec_add (codes "ecs-ipam") [])
      []
      (add_with host (λ text. err (message "")) args net_conf [])
add_with-ipam_calls_example =
    add_with-ipam_calls host (λ text. err (message "")) args net_conf
      (record {
        type = codes "ecs-ipam";
        connected_subnet_mask_size_ipv4 = 0;
        connected_subnet_mask_size_ipv6 = 0;
      })
      [] refl
