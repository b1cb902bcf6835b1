-- ===== src/Bridge/Veth.antt =====
-- plugins/ecs-bridge/engine/configureveth.go: the container's end of the veth pair.
pub mod Cleanup
pub mod Order
pub mod Quiet
use amazon_ecs_cni_plugins.Base.{
  ℕ, ◌==◌, if◌then◌else◌, Text, text_eq, codes, Bool, true, false, not, ◌&&◌, ◌||◌,
}
use amazon_ecs_cni_plugins.Base.{Option, none, some, List, [], ◌∷◌}
use amazon_ecs_cni_plugins.Base.{Error, wrap, Result, ok, err}
use amazon_ecs_cni_plugins.Base.Exec.{pure, ◌>>=◌, ◌>>◌, ◌note◌}
use amazon_ecs_cni_plugins.Net.{Ip, IpNet, nil, is_nil, to4, mask_ip, cidr_mask}
use amazon_ecs_cni_plugins.Net.Format.{show_net}
use amazon_ecs_cni_plugins.Cni.{IpConfig, CniResult}
use amazon_ecs_cni_plugins.Host.{
  Host, Link, Route, Action, ask, call, with_net_ns_path, link_by_name, route_add, route_del,
  route_list, configure_iface, set_hw_addr_by_ip, family_all, link_scope, unicast, is_exist,
}

abbrev pub is_v4_config : IpConfig → Bool
is_v4_config c = not (is_nil (to4 c.address.ip))

-- A route to a network on the link.
abbrev pub link_route : Link → IpNet → Route
link_route link network = record {
  link_index = link.index;
  dst = some network;
  src = nil;
  gw = nil;
  scope = link_scope;
  type = unicast;
}

unfoldable pub gateway_route : Link → IpConfig → Route
gateway_route link c =
    let bits = if is_v4_config c then 32 else 128 in
    link_route link (record { ip = c.gateway; mask = cidr_mask bits bits })

-- The first IPv4 and the first IPv6 address, in the loop's order.
unfoldable pub first_v4 : List IpConfig → Ip
first_v4 [] = nil
first_v4 (c ∷ cs) =
    if is_v4_config c && not (is_nil c.address.ip) then c.address.ip else first_v4 cs

unfoldable pub first_v6 : List IpConfig → Ip
first_v6 [] = nil
first_v6 (c ∷ cs) =
    if not (is_v4_config c) && not (is_nil c.address.ip) then c.address.ip else first_v6 cs

unfoldable pub is_default_route : Option IpNet → Bool
is_default_route none = true
is_default_route (some dst) =
    text_eq (show_net dst) (codes "0.0.0.0/0") || text_eq (show_net dst) (codes "::/0")

-- `sizes` are the two sizes of connected subnets that the caller gave.
pub record MaskSizes : Type 0 where
  pub ipv4 : ℕ
  pub ipv6 : ℕ

unfoldable pub is_connected_subnet_to_delete : MaskSizes → Option IpNet → Bool
is_connected_subnet_to_delete sizes none = false
is_connected_subnet_to_delete sizes (some dst) =
    if is_default_route (some dst)
    then false
    else if not (is_nil (to4 dst.ip)) && (sizes.ipv4 == 0) && not (dst.mask.ones == 32)
    then true
    else is_nil (to4 dst.ip) && (sizes.ipv6 == 0) && not (dst.mask.ones == 128)

-- Does the clean-up delete the route?
unfoldable pub deletes : MaskSizes → Route → Bool
deletes sizes r =
    is_nil r.gw && (is_default_route r.dst || is_connected_subnet_to_delete sizes r.dst)

unfoldable pub connected_size : MaskSizes → IpConfig → ℕ
connected_size sizes c = if is_v4_config c then sizes.ipv4 else sizes.ipv6

unfoldable pub subnet_route : MaskSizes → Link → IpConfig → Route
subnet_route sizes link c =
    let mask = cidr_mask (connected_size sizes c) (if is_v4_config c then 32 else 128) in
    link_route link (record { ip = mask_ip c.address.ip mask; mask = mask })

module _ (host : Host) where
  -- RouteAdd, where an error that says that the route exists does not count.
  unfoldable pub add_route : Route → Action (Unit {0})
  add_route r h =
      let (answer, h') = call host (route_add r) h in
      elim answer [ ok _ ↦ (ok tt, h') | err e ↦ if is_exist e then (ok tt, h') else (err e, h') ]

  unfoldable pub add_gateway_routes : Link → List IpConfig → Action (Unit {0})
  add_gateway_routes link [] = pure tt
  add_gateway_routes link (c ∷ cs) = do
    add_route (gateway_route link c) note "bridge configure veth: unable to add gateway route: %v"
    add_gateway_routes link cs

  unfoldable pub set_hardware_address : Text → List IpConfig → Action (Unit {0})
  set_hardware_address if_name ips =
      if not (is_nil (first_v4 ips)) || not (is_nil (first_v6 ips))
      then ◌note◌ (call host (set_hw_addr_by_ip if_name (first_v4 ips) (first_v6 ips)))
          "bridge configure veth: unable to set hardware address for interface: %s"
      else pure tt

  unfoldable pub delete_routes : MaskSizes → List Route → Action (Unit {0})
  delete_routes sizes [] = pure tt
  delete_routes sizes (r ∷ rs) =
      if deletes sizes r
      then (do
        call host (route_del r) note "bridge configure veth: unable to delete route: %v"
        delete_routes sizes rs)
      else delete_routes sizes rs

  unfoldable pub add_subnet_routes : MaskSizes → Link → List IpConfig → Action (Unit {0})
  add_subnet_routes sizes link [] = pure tt
  add_subnet_routes sizes link (c ∷ cs) =
      if connected_size sizes c == 0 then add_subnet_routes sizes link cs else (do
        add_route (subnet_route sizes link c)
            note "bridge configure veth: unable to add connected subnet route: %v"
        add_subnet_routes sizes link cs)

  -- The closure run of configureVethContext.
  unfoldable pub run : Text → CniResult → MaskSizes → Action (Unit {0})
  run if_name result sizes = do
    link ←
        ask (link_by_name if_name) (λ h. host.link_of h if_name)
        note "bridge configure veth: unable to get link for interface: %s"
    add_gateway_routes link result.ips
    call host (configure_iface if_name result)
        note "bridge configure veth: unable to configure interface: %s"
    set_hardware_address if_name result.ips
    routes ←
        ask (route_list link family_all) (λ h. host.routes h link family_all)
        note "bridge configure veth: unable to fetch routes for interface: %s"
    delete_routes sizes routes
    add_subnet_routes sizes link result.ips

  -- ConfigureContainerVethInterface
  unfoldable pub configure_container_veth_interface :
      Text → CniResult → Text → MaskSizes → Action (Unit {0})
  configure_container_veth_interface netns result if_name sizes =
      with_net_ns_path host netns (run if_name result sizes)
