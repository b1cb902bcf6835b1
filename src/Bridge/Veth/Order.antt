-- ===== src/Bridge/Veth/Order.antt =====
-- The calls of a run of configureVethContext that succeeds, in their order.
use amazon_ecs_cni_plugins.Base.{
  ◌≡◌, refl, ◌∙◌, ap, subst, arith, if◌then◌else◌, ◌==◌, Text, Bool, not, ◌||◌,
}
use amazon_ecs_cni_plugins.Base.{List, [], ◌∷◌, ◌++◌, map, keep, onto, ok}
use amazon_ecs_cni_plugins.Host.Trace.{
  LeavesSome, LeavesSome-then, Leaves-then, Leaves-note, Leaves-call,
}
use amazon_ecs_cni_plugins.Base.Exec.{◌>>=◌, ◌>>◌, ◌note◌, continue-ok, annotate, annotate-ok}
use amazon_ecs_cni_plugins.Net.{is_nil}
use amazon_ecs_cni_plugins.Cni.{IpConfig, CniResult}
use amazon_ecs_cni_plugins.Host.{
  Host, Link, Route, History, Call, Action, ask, call, link_by_name, route_add, route_del,
  route_list, configure_iface, set_hw_addr_by_ip, family_all,
}
use amazon_ecs_cni_plugins.Bridge.Veth.{
  MaskSizes, deletes, delete_routes, gateway_route, subnet_route, connected_size, first_v4,
  first_v6, add_route, add_gateway_routes, add_subnet_routes, set_hardware_address, run,
}
use amazon_ecs_cni_plugins.Bridge.Veth.Cleanup.{delete_routes-trace}

-- The calls of a successful run, by the link and the routes that the host answers.
abbrev pub hardware_calls : Text → List IpConfig → List Call
hardware_calls if_name ips =
    if not (is_nil (first_v4 ips)) || not (is_nil (first_v6 ips))
    then set_hw_addr_by_ip if_name (first_v4 ips) (first_v6 ips) ∷ []
    else []

abbrev pub has_subnet : MaskSizes → IpConfig → Bool
has_subnet sizes c = not (connected_size sizes c == 0)

abbrev pub run_calls : Text → CniResult → MaskSizes → Link → List Route → List Call
run_calls if_name result sizes link routes =
    link_by_name if_name
    ∷ (map (λ c. route_add (gateway_route link c)) result.ips
        ++ (configure_iface if_name result
            ∷ (hardware_calls if_name result.ips
                ++ (route_list link family_all
                    ∷ (map route_del (keep (deletes sizes) routes)
                        ++ map (λ c. route_add (subnet_route sizes link c))
                            (keep (has_subnet sizes) result.ips))))))

module _ (host : Host) where
  add_gateway_routes-trace :
      (link : Link) (ips : List IpConfig) (h : History)
      → (add_gateway_routes host link ips h).0 ≡ ok tt
      → (add_gateway_routes host link ips h).1
        ≡ onto (map (λ c. route_add (gateway_route link c)) ips) h
  unfolding add_gateway_routes add_route
  add_gateway_routes-trace link [] h e = refl
  add_gateway_routes-trace link (c ∷ cs) h e =
      ground (arith, add_gateway_routes-trace link cs (route_add (gateway_route link c) ∷ h))

  add_subnet_routes-trace :
      (sizes : MaskSizes) (link : Link) (ips : List IpConfig) (h : History)
      → (add_subnet_routes host sizes link ips h).0 ≡ ok tt
      → (add_subnet_routes host sizes link ips h).1
        ≡ onto (map (λ c. route_add (subnet_route sizes link c)) (keep (has_subnet sizes) ips)) h
  unfolding add_subnet_routes add_route
  add_subnet_routes-trace sizes link [] h e = refl
  add_subnet_routes-trace sizes link (c ∷ cs) h e = ground (
    arith,
    add_subnet_routes-trace sizes link cs h,
    add_subnet_routes-trace sizes link cs (route_add (subnet_route sizes link c) ∷ h),
  )

  set_hardware_address-trace :
      (if_name : Text) (ips : List IpConfig) (h : History)
      → (set_hardware_address host if_name ips h).0 ≡ ok tt
      → (set_hardware_address host if_name ips h).1 ≡ onto (hardware_calls if_name ips) h
  unfolding set_hardware_address
  set_hardware_address-trace if_name ips h e = ground arith

  -- The routes that the host lists for the link at some history.
  abbrev pub Listed : Link → Type 0
  Listed link =
      (routes : List Route) × (at : History) × (host.routes at link family_all ≡ ok routes)

  -- The rest of a run, for its link.
  abbrev clean : Text → CniResult → MaskSizes → Link → Action (Unit {0})
  clean if_name result sizes link = do
    routes ←
        ask (route_list link family_all) (λ h. host.routes h link family_all)
        note "bridge configure veth: unable to fetch routes for interface: %s"
    delete_routes host sizes routes
    add_subnet_routes host sizes link result.ips

  abbrev clean_calls : CniResult → MaskSizes → Link → List Route → List Call
  clean_calls result sizes link routes =
      route_list link family_all
      ∷ (map route_del (keep (deletes sizes) routes)
          ++ map (λ c. route_add (subnet_route sizes link c)) (keep (has_subnet sizes) result.ips))

  clean-trace :
      (if_name : Text) (result : CniResult) (sizes : MaskSizes) (link : Link)
      → LeavesSome
          (clean if_name result sizes link)
          (λ (found : Listed link). clean_calls result sizes link found.0)
  clean-trace if_name result sizes link h e =
      let (routes, found, same) =
        continue-ok
          (annotate "bridge configure veth: unable to fetch routes for interface: %s"
            (host.routes h link family_all, route_list link family_all ∷ h))
          (λ routes.
            delete_routes host sizes routes >> add_subnet_routes host sizes link result.ips)
          tt e in
      let (found', same') =
        annotate-ok "bridge configure veth: unable to fetch routes for interface: %s"
          (host.routes h link family_all, route_list link family_all ∷ h) routes found in
      let at_list =
        same
        ∙ ap
            (λ r.
              (delete_routes host sizes routes >> add_subnet_routes host sizes link result.ips) r.1)
            same' in
      (
        (routes, h, found'),
        ap (λ r. r.1) at_list
            ∙ Leaves-then (delete_routes host sizes routes)
                (add_subnet_routes host sizes link result.ips)
                (map route_del (keep (deletes sizes) routes))
                (map (λ c. route_add (subnet_route sizes link c))
                  (keep (has_subnet sizes) result.ips))
                (delete_routes-trace host sizes routes)
                (add_subnet_routes-trace sizes link result.ips) (route_list link family_all ∷ h)
                (subst (λ r. r.0 ≡ ok tt) at_list e),
      )

  abbrev set_and_clean : Text → CniResult → MaskSizes → Link → Action (Unit {0})
  set_and_clean if_name result sizes link = do
    set_hardware_address host if_name result.ips
    clean if_name result sizes link

  abbrev configure_rest : Text → CniResult → MaskSizes → Link → Action (Unit {0})
  configure_rest if_name result sizes link = do
    call host (configure_iface if_name result)
        note "bridge configure veth: unable to configure interface: %s"
    set_and_clean if_name result sizes link

  configure_rest-trace :
      (if_name : Text) (result : CniResult) (sizes : MaskSizes) (link : Link)
      → LeavesSome (configure_rest if_name result sizes link) (λ (found : Listed link).
        configure_iface if_name result
        ∷ (hardware_calls if_name result.ips ++ clean_calls result sizes link found.0))
  configure_rest-trace if_name result sizes link =
      LeavesSome-then
        (call host (configure_iface if_name result)
          note "bridge configure veth: unable to configure interface: %s")
        (set_and_clean if_name result sizes link) (configure_iface if_name result ∷ [])
        (λ (found : Listed link).
          hardware_calls if_name result.ips ++ clean_calls result sizes link found.0)
        (Leaves-note "bridge configure veth: unable to configure interface: %s"
          (call host (configure_iface if_name result)) (configure_iface if_name result ∷ [])
          (Leaves-call host (configure_iface if_name result)))
        (LeavesSome-then (set_hardware_address host if_name result.ips)
          (clean if_name result sizes link) (hardware_calls if_name result.ips)
          (λ (found : Listed link). clean_calls result sizes link found.0)
          (set_hardware_address-trace if_name result.ips) (clean-trace if_name result sizes link))

  abbrev configure : Text → CniResult → MaskSizes → Link → Action (Unit {0})
  configure if_name result sizes link = do
    add_gateway_routes host link result.ips
    configure_rest if_name result sizes link

  configure-trace :
      (if_name : Text) (result : CniResult) (sizes : MaskSizes) (link : Link)
      → LeavesSome (configure if_name result sizes link) (λ (found : Listed link).
        map (λ c. route_add (gateway_route link c)) result.ips
        ++ (configure_iface if_name result
            ∷ (hardware_calls if_name result.ips ++ clean_calls result sizes link found.0)))
  configure-trace if_name result sizes link =
      LeavesSome-then (add_gateway_routes host link result.ips)
        (configure_rest if_name result sizes link)
        (map (λ c. route_add (gateway_route link c)) result.ips)
        (λ (found : Listed link).
          configure_iface if_name result
          ∷ (hardware_calls if_name result.ips ++ clean_calls result sizes link found.0))
        (add_gateway_routes-trace link result.ips) (configure_rest-trace if_name result sizes link)

  pub run-trace :
      (if_name : Text) (result : CniResult) (sizes : MaskSizes) (h : History)
      → (run host if_name result sizes h).0 ≡ ok tt
      → (link : Link) × (found : Listed link) × (host.link_of h if_name ≡ ok link)
        × ((run host if_name result sizes h).1
            ≡ onto (run_calls if_name result sizes link found.0) h)
  unfolding run
  run-trace if_name result sizes h e =
      let (link, found, same) =
        continue-ok
          (annotate "bridge configure veth: unable to get link for interface: %s"
            (host.link_of h if_name, link_by_name if_name ∷ h))
          (configure if_name result sizes) tt e in
      let (found', same') =
        annotate-ok "bridge configure veth: unable to get link for interface: %s"
          (host.link_of h if_name, link_by_name if_name ∷ h) link found in
      let at_link = same ∙ ap (λ r. (configure if_name result sizes link) r.1) same' in
      let (listed, trace) =
        configure-trace if_name result sizes link (link_by_name if_name ∷ h)
          (subst (λ r. r.0 ≡ ok tt) at_link e) in
      (link, listed, found', ap (λ r. r.1) at_link ∙ trace)
