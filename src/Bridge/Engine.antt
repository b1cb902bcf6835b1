-- ===== src/Bridge/Engine.antt =====
-- plugins/ecs-bridge/engine/engine.go, createveth.go, deletelink.go and interfaceip.go: the links of
-- the bridge plugin, its runs of the IPAM plugin and the block of the metadata endpoints.
pub mod Laws
pub mod Ends
use Prim.Native.Nat.{bit_and, bit_or}
use amazon_ecs_cni_plugins.Base.{
  ℕ, ◌==◌, ltb, if◌then◌else◌, Text, text_eq, codes, Bool, true, false, not, ◌||◌,
}
use amazon_ecs_cni_plugins.Base.{Option, none, some, List, [], ◌∷◌, length}
use amazon_ecs_cni_plugins.Base.{Error, message, wrap, panic, Result, ok, err}
use amazon_ecs_cni_plugins.Base.Exec.{pure, raise, lift, ◌>>=◌, ◌>>◌, ◌note◌}
use amazon_ecs_cni_plugins.Net.{IpNet, v4, v6, nil, is_nil, is_nil_mask, cidr_mask}
use amazon_ecs_cni_plugins.Net.Format.{show_ip}
use amazon_ecs_cni_plugins.Cni.{Interface, IpConfig, CniResult}
use amazon_ecs_cni_plugins.Host.{
  Host, Link, Route, History, Call, Action, ask, call, with_net_ns_path, link_by_name, link_add,
  link_set_up, link_set_hardware_addr, link_set_master, rand_read, setup_veth, exec_add, exec_del,
  del_link_by_name_addr, addr_list, route_add, family_v4, family_v6, universe_scope, blackhole,
  is_link_not_found, is_err_link_not_found, says_file_exists, is_exist, tolerate,
}

-- The first byte of a MAC address: locally administered, and no multicast.
unfoldable pub local_unicast : ℕ → ℕ
local_unicast b = bit_and (bit_or b 0x02) 0xfe

unfoldable pub mac_of : List ℕ → List ℕ
unfolding local_unicast
mac_of [] = []
mac_of (b ∷ bs) = local_unicast b ∷ bs

-- The fields that RunIPAMPluginAdd wants of each address.
unfoldable pub check_ip_configs : List IpConfig → Result (Unit {0})
check_ip_configs [] = ok tt
check_ip_configs (c ∷ cs) =
    if is_nil_mask c.address.mask
    then err (message "bridge IPAM ADD: IP address mask not set for IP[%d]")
    else if is_nil c.gateway
    then err (message "bridge IPAM ADD: Gateway not set for IP[%d]")
    else check_ip_configs cs

-- InstanceMetadataEndpoints, parsed: 169.254.169.254/32 and fd00:ec2::254/128.
abbrev pub instance_metadata_endpoints : List IpNet
instance_metadata_endpoints =
    record { ip = v4 0xa9fea9fe; mask = cidr_mask 32 32 }
    ∷ record { ip = v6 0xfd000ec2000000000000000000000254; mask = cidr_mask 128 128 }
    ∷ []

abbrev pub blackhole_route : IpNet → Route
blackhole_route endpoint = record {
  link_index = 0;
  dst = some endpoint;
  src = nil;
  gw = nil;
  scope = universe_scope;
  type = blackhole;
}

module _ (host : Host) where
  lookup_result : Result Link → Result (Option Link)
  lookup_result (ok link) =
      if link.is_bridge
      then ok (some link)
      else err (message "bridge create: interface named %s already exists, but is not a bridge")
  lookup_result (err e) =
      if is_link_not_found e
      then ok none
      else err (wrap e "bridge create: error lookup the bridge interface %s")

  unfoldable pub lookup_bridge : Text → Action (Option Link)
  unfolding lookup_result
  lookup_bridge name = ask (link_by_name name) (λ h. lookup_result (host.link_of h name))

  unfoldable pub generate_mac_address : Action (List ℕ)
  generate_mac_address = do buf ← ask rand_read host.random; pure (mac_of buf)

  unfoldable pub create_bridge_link : Text → ℕ → Action (Unit {0})
  create_bridge_link name mtu = do
    call host (link_add name mtu) note "bridge create: unable to add bridge interface %s"
    mac ← generate_mac_address note "bridge create: unable to generate mac addr %s"
    call host (link_set_hardware_addr name mac)
        note "bridge create: unable to set bridge MAC address %s up"

  -- LinkSetUp on the bridge of the second lookup, which dereferences nil if there is none.
  unfoldable pub bring_up : Option Link → Action Link
  bring_up none = raise panic
  bring_up (some bridge) = do
    call host (link_set_up bridge) note "bridge create: unable to bring up the bridge interface %s"
    pure bridge

  -- An error of createBridge that says that the bridge exists is dropped.
  unfoldable pub create_if_missing : Text → ℕ → Action (Unit {0})
  create_if_missing name mtu h =
      let (r, h') = create_bridge_link name mtu h in (tolerate says_file_exists r, h')

  unfoldable pub ensure_bridge : Text → ℕ → Option Link → Action (Option Link)
  ensure_bridge name mtu (some bridge) = pure (some bridge)
  ensure_bridge name mtu none = do create_if_missing name mtu; lookup_bridge name

  unfoldable pub create_bridge : Text → ℕ → Action Link
  create_bridge name mtu = do
    found ← lookup_bridge name
    bridge ← ensure_bridge name mtu found
    bring_up bridge

  -- CreateVethPair with the closure of createveth.go: the container's interface, and the name of
  -- the host's end.
  unfoldable pub create_veth_pair : Text → ℕ → Text → Action (Interface × Text)
  create_veth_pair netns mtu if_name = with_net_ns_path host netns (do
    (host_veth, container_veth) ←
        ask (setup_veth if_name mtu) (λ h. host.ends h if_name mtu)
        note "bridge create veth pair: unable to setup veth pair for interface: %s"
    pure
        (record { name = container_veth.name; mac = container_veth.hardware_addr }, host_veth.name))

  unfoldable pub attach_host_veth_interface_to_bridge : Text → Link → Action Interface
  attach_host_veth_interface_to_bridge host_veth_name bridge = do
    link ←
        ask (link_by_name host_veth_name) (λ h. host.link_of h host_veth_name)
        note "bridge create veth pair: unable to look up host veth interface %s"
    call host (link_set_master link bridge)
        note "bridge create veth pair: unable to attach the veth interface %s to bridge"
    pure (record { name = host_veth_name; mac = link.hardware_addr })

  unfoldable pub check_ipam_result : CniResult → Result CniResult
  check_ipam_result result =
      if ltb (length result.ips) 1 || ltb 2 (length result.ips)
      then err (message "bridge IPAM ADD: expected 1 or 2 IP configs, got %d")
      else elim (check_ip_configs result.ips) [ ok _ ↦ ok result | err e ↦ err e ]

  -- RunIPAMPluginAdd; the conversion of the result belongs to the call.
  unfoldable pub run_ipam_plugin_add : Text → Text → Action CniResult
  run_ipam_plugin_add plugin net_conf = do
    result ←
        ask (exec_add plugin net_conf) (λ h. host.added h plugin net_conf)
        note "bridge ipam ADD: failed to execute plugin: %s"
    lift (check_ipam_result result)

  unfoldable pub run_ipam_plugin_del : Text → Text → Action (Unit {0})
  run_ipam_plugin_del plugin net_conf =
      call host (exec_del plugin net_conf) note "bridge ipam DEL: failed to execute the plugin: %s"

  -- GetInterfaceIPV4Address with the closure of interfaceip.go.
  unfoldable pub first_address : List IpNet → Result Text
  first_address [] =
      err (message "bridge getipv4 address: no ipv4 addresses returned for interface: %s")
  first_address (a ∷ as') = ok (show_ip a.ip)

  unfoldable pub get_interface_ipv4_address : Text → Text → Action Text
  get_interface_ipv4_address netns if_name = with_net_ns_path host netns (do
    link ←
        ask (link_by_name if_name) (λ h. host.link_of h if_name)
        note "bridge getipv4 address: unable to get link for interface: %s"
    addrs ←
        ask (addr_list link family_v4) (λ h. host.addresses h link family_v4)
        note "bridge getipv4 address: unable to list ipv4 addresses for interface: %s"
    lift (first_address addrs))

  -- The closure of deletelink.go: by IPv4 address, then by IPv6 address.
  unfoldable pub delete_link_v6 : Text → Action (Unit {0})
  delete_link_v6 if_name h =
      let (r, h') = call host (del_link_by_name_addr if_name family_v6) h in
      elim r [
        | ok _ ↦ (ok tt, h')
        | err e ↦
            if is_err_link_not_found e
            then (ok tt, h')
            else (err (wrap e "bridge delete veth: unable to delete link for interface: %s"), h')
      ]

  unfoldable pub delete_link : Text → Action (Unit {0})
  delete_link if_name h =
      let (r, h') = call host (del_link_by_name_addr if_name family_v4) h in
      elim r [
        | ok _ ↦ (ok tt, h')
        | err e ↦ if is_err_link_not_found e then (ok tt, h') else delete_link_v6 if_name h'
      ]

  unfoldable pub delete_veth : Text → Text → Action (Unit {0})
  delete_veth netns if_name = with_net_ns_path host netns (delete_link if_name)

  -- The loop of blockIMDSContext.run.
  unfoldable pub block_endpoints : List IpNet → Action (Unit {0})
  block_endpoints [] h = (ok tt, h)
  block_endpoints (endpoint ∷ endpoints) h =
      let (r, h') = call host (route_add (blackhole_route endpoint)) h in
      elim (tolerate is_exist r) [
        | ok _ ↦ block_endpoints endpoints h'
        | err e ↦
            (err (wrap e "blockIMDS engine: unable to add route to block instance metadata"), h')
      ]

  unfoldable pub block_instance_metadata : Text → Action (Unit {0})
  block_instance_metadata netns =
      with_net_ns_path host netns (block_endpoints instance_metadata_endpoints)
