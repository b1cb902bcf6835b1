-- ===== src/Bridge/Veth/Quiet.antt =====
-- The configuration of the container's veth, as to the calls of IPAM plugins.
use amazon_ecs_cni_plugins.Base.{refl, arith, ◌==◌, List, [], ◌∷◌, Text, ok}
use amazon_ecs_cni_plugins.Cni.{IpConfig, CniResult}
use amazon_ecs_cni_plugins.Host.{
  Host, Link, Route, call, route_del, link_by_name, route_list, configure_iface, family_all,
}
use amazon_ecs_cni_plugins.Host.IpamCalls.{
  Quiet, Quiet-ask, Quiet-lift, Quiet-then, Quiet-note, Quiet-if, Quiet-with_net_ns_path,
}
use amazon_ecs_cni_plugins.Bridge.Veth.{
  MaskSizes, deletes, subnet_route, connected_size, add_route, add_gateway_routes,
  set_hardware_address, delete_routes, add_subnet_routes, run, configure_container_veth_interface,
}

module _ (host : Host) where
  add_route-Quiet : (r : Route) → Quiet (add_route host r)
  unfolding add_route
  add_route-Quiet r = record { unheard = λ h. ground arith }

  add_gateway_routes-Quiet :
      (link : Link) (cs : List IpConfig) → Quiet (add_gateway_routes host link cs)
  unfolding add_gateway_routes
  add_gateway_routes-Quiet link [] = Quiet-lift (ok tt)
  add_gateway_routes-Quiet link (c ∷ cs) =
      Quiet-then _ (λ _. add_gateway_routes host link cs)
        (Quiet-note "bridge configure veth: unable to add gateway route: %v" _ (add_route-Quiet _))
        (λ _. add_gateway_routes-Quiet link cs)

  set_hardware_address-Quiet :
      (if_name : Text) (cs : List IpConfig) → Quiet (set_hardware_address host if_name cs)
  unfolding set_hardware_address
  set_hardware_address-Quiet if_name cs = record { unheard = λ h. ground arith }

  delete_routes-Quiet : (sizes : MaskSizes) (rs : List Route) → Quiet (delete_routes host sizes rs)
  unfolding delete_routes
  delete_routes-Quiet sizes [] = Quiet-lift (ok tt)
  delete_routes-Quiet sizes (r ∷ rs) =
      let rest = delete_routes-Quiet sizes rs in
      Quiet-if (deletes sizes r) _ (delete_routes host sizes rs)
        (Quiet-then _ (λ _. delete_routes host sizes rs)
          (Quiet-note "bridge configure veth: unable to delete route: %v" (call host (route_del r))
            (Quiet-ask (route_del r) (λ h. host.done h (route_del r)) refl))
          (λ _. rest))
        rest

  add_subnet_routes-Quiet :
      (sizes : MaskSizes) (link : Link) (cs : List IpConfig)
      → Quiet (add_subnet_routes host sizes link cs)
  unfolding add_subnet_routes
  add_subnet_routes-Quiet sizes link [] = Quiet-lift (ok tt)
  add_subnet_routes-Quiet sizes link (c ∷ cs) =
      let rest = add_subnet_routes-Quiet sizes link cs in
      Quiet-if (connected_size sizes c == 0) (add_subnet_routes host sizes link cs) _ rest (
        Quiet-then _ (λ _. add_subnet_routes host sizes link cs)
          (Quiet-note "bridge configure veth: unable to add connected subnet route: %v" _
            (add_route-Quiet (subnet_route sizes link c)))
          (λ _. rest))

  run-Quiet :
      (if_name : Text) (result : CniResult) (sizes : MaskSizes)
      → Quiet (run host if_name result sizes)
  unfolding run
  run-Quiet if_name result sizes =
      Quiet-then _ _
        (Quiet-note "bridge configure veth: unable to get link for interface: %s" _
          (Quiet-ask (link_by_name if_name) (λ h. host.link_of h if_name) refl))
        λ link. Quiet-then _ _ (add_gateway_routes-Quiet link result.ips) λ _.
          Quiet-then _ _
            (Quiet-note "bridge configure veth: unable to configure interface: %s" _ (
              Quiet-ask (configure_iface if_name result)
                (λ h. host.done h (configure_iface if_name result)) refl))
            λ _. Quiet-then _ _ (set_hardware_address-Quiet if_name result.ips) λ _.
              Quiet-then _ _
                (Quiet-note "bridge configure veth: unable to fetch routes for interface: %s" _ (
                  Quiet-ask (route_list link family_all) (λ h. host.routes h link family_all) refl))
                λ routes.
                  Quiet-then _ _ (delete_routes-Quiet sizes routes)
                    λ _. add_subnet_routes-Quiet sizes link result.ips

  pub configure_container_veth_interface-Quiet :
      (netns : Text) (result : CniResult) (if_name : Text) (sizes : MaskSizes)
      → Quiet (configure_container_veth_interface host netns result if_name sizes)
  unfolding configure_container_veth_interface
  configure_container_veth_interface-Quiet netns result if_name sizes =
      Quiet-with_net_ns_path host netns (run host if_name result sizes)
        (run-Quiet if_name result sizes)
