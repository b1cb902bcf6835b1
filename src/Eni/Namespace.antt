-- ===== src/Eni/Namespace.antt =====
-- SetupContainerNamespace and TeardownContainerNamespace of plugins/eni/engine/engine.go, with the
-- closures of nsclosure.go.
pub mod Order
use amazon_ecs_cni_plugins.Base.{ℕ, ◌==◌, if◌then◌else◌, Text, Bool}
use amazon_ecs_cni_plugins.Base.{none, List, [], ◌∷◌}
use amazon_ecs_cni_plugins.Base.{Error, message, Result, ok, err}
use amazon_ecs_cni_plugins.Base.Exec.{pure, lift, ◌>>=◌, ◌>>◌, ◌note◌}
use amazon_ecs_cni_plugins.Net.{Ip, IpNet, nil, is_nil}
use amazon_ecs_cni_plugins.Net.Format.{parse_ip}
use amazon_ecs_cni_plugins.Cni.{CmdArgs}
use amazon_ecs_cni_plugins.Host.{
  Host, Link, Route, Action, ask, call, with_net_ns_path, link_by_name, link_set_ns_fd, parse_addr,
  addr_add, link_set_name, link_set_up, link_set_mtu, route_add, get_ns, universe_scope, unicast,
  is_exist, is_errno,
}
use amazon_ecs_cni_plugins.Bridge.Engine.{instance_metadata_endpoints, blackhole_route}
use amazon_ecs_cni_plugins.Eni.Types.{Parsers}

-- setupNamespaceClosureContext
pub record SetupContext : Type 0 where
  pub if_name : Text
  pub device_name : Text
  pub mac_address : Text
  pub ip_addrs : List IpNet
  pub gateway_addrs : List Ip
  pub block_imds : Bool
  pub mtu : ℕ

abbrev pub gateway_route : Link → Ip → Route
gateway_route link gw = record {
  link_index = link.index;
  dst = none;
  src = nil;
  gw = gw;
  scope = universe_scope;
  type = unicast;
}

unfoldable pub parse_gateways : List Text → Result (List Ip)
parse_gateways [] = ok []
parse_gateways (a ∷ addresses) =
    if is_nil (parse_ip a)
    then err (message "setupNamespaceClosure engine: unable to parse gateway ip address '%s'")
    else elim (parse_gateways addresses) [ ok ips ↦ ok (parse_ip a ∷ ips) | err e ↦ err e ]

module _ (host : Host) where
  unfoldable pub parse_addresses : List Text → Action (List IpNet)
  parse_addresses [] = pure []
  parse_addresses (a ∷ addresses) = do
    addr ←
        ask (parse_addr a) (λ h. host.address_of h a)
        note "setupNamespaceClosure engine: unable to parse ip address '%s' for the interface"
    addrs ← parse_addresses addresses
    pure (addr ∷ addrs)

  -- newSetupNamespaceClosureContext
  unfoldable pub new_setup_context :
      Text → Text → Text → List Text → List Text → Bool → ℕ → Action SetupContext
  new_setup_context if_name device_name mac ip_addresses gateway_addresses block_imds mtu = do
    ip_addrs ← parse_addresses ip_addresses
    gateway_addrs ← lift (parse_gateways gateway_addresses)
    pure (record {
      if_name = if_name;
      device_name = device_name;
      mac_address = mac;
      ip_addrs = ip_addrs;
      gateway_addrs = gateway_addrs;
      block_imds = block_imds;
      mtu = mtu;
    })

  unfoldable pub add_addresses : Link → List IpNet → Action (Unit {0})
  add_addresses link [] = pure tt
  add_addresses link (a ∷ addrs) = do
    call host (addr_add link a)
        note "setupNamespaceClosure engine: unable to add ip address to the interface"
    add_addresses link addrs

  -- RouteAdd, where an error that passes the test does not count.
  unfoldable pub add_route_unless : (Error → Bool) → Route → Action (Unit {0})
  add_route_unless test r h =
      let (answer, h') = call host (route_add r) h in
      elim answer [ ok _ ↦ (ok tt, h') | err e ↦ if test e then (ok tt, h') else (err e, h') ]

  unfoldable pub block_endpoints : List IpNet → Action (Unit {0})
  block_endpoints [] = pure tt
  block_endpoints (endpoint ∷ endpoints) = do
    add_route_unless is_exist (blackhole_route endpoint)
        note "setupNamespaceClosure engine: unable to add route to block instance metadata"
    block_endpoints endpoints

  unfoldable pub add_gateways : Link → List Ip → Action (Unit {0})
  add_gateways link [] = pure tt
  add_gateways link (gw ∷ gws) = do
    add_route_unless (is_errno 17) (gateway_route link gw)
        note "setupNamespaceClosure engine: unable to add the route for the gateway"
    add_gateways link gws

  -- setupNamespaceClosureContext.run
  unfoldable pub run_setup : SetupContext → Action (Unit {0})
  run_setup c = do
    link ←
        ask (link_by_name c.device_name) (λ h. host.link_of h c.device_name)
        note "setupNamespaceClosure engine: unable to get link for device '%s'"
    call host (link_set_name link c.if_name)
        note "setupNamespaceClosure engine: unable to change interface name"
    add_addresses link c.ip_addrs
    call host (link_set_up link) note "setupNamespaceClosure engine: unable to bring up the device"
    if c.mtu == 0
        then pure tt
        else call host (link_set_mtu link c.mtu)
          note "setupNamespaceClosure engine: unable to set mtu of interface"
    if c.block_imds then block_endpoints instance_metadata_endpoints else pure tt
    add_gateways link c.gateway_addrs

  unfoldable pub configure_device :
      CmdArgs → Text → Text → List Text → List Text → Bool → ℕ → Action (Unit {0})
  configure_device args device mac ip_addresses gateway_addresses block_imds mtu = do
    context ←
        new_setup_context args.if_name device mac ip_addresses gateway_addresses block_imds mtu
        note "setupContainerNamespace engine: unable to create closure to execute in container namespace"
    with_net_ns_path host args.netns (run_setup context)
        note "setupContainerNamespace engine: unable to setup device '%s' in namespace '%s'"

  unfoldable pub setup_container_namespace :
      CmdArgs → Text → Text → List Text → List Text → Bool → Bool → ℕ → Action (Unit {0})
  setup_container_namespace args device mac ip_addresses gateways block_imds stay_down mtu = do
    link ←
        ask (link_by_name device) (λ h. host.link_of h device)
        note "setupContainerNamespace engine: unable to get link for device '%s'"
    call host (get_ns args.netns)
        note "setupContainerNamespace engine: unable to get network namespace for '%s'"
    call host (link_set_ns_fd link args.netns)
        note "setupContainerNamespace engine: unable to move device '%s' to container namespace '%s'"
    if stay_down
        then pure tt
        else configure_device args device mac ip_addresses gateways block_imds mtu

  -- TeardownContainerNamespace; its closure does nothing.
  unfoldable pub teardown_container_namespace : Parsers → Text → Text → Action (Unit {0})
  teardown_container_namespace parsers netns mac = do
    hardware_addr ←
        lift (parsers.parse_mac mac)
        note "newTeardownNamespaceClosure engine: malformatted mac address specified"
        note "teardownContainerNamespace engine: unable to create closure to execute in container namespace"
    with_net_ns_path host netns (pure tt)
        note "teardownContainerNamespace engine: unable to teardown container namespace"
