-- ===== src/Eni/Namespace/Order.antt =====
-- The calls of a successful set-up of the container's interface, in their order.
use amazon_ecs_cni_plugins.Base.{
  ◌==◌, ◌≡◌, ◌∙◌, refl, ap, subst, arith, Bool, true, false, if◌then◌else◌, none, some, List, [],
  ◌∷◌, ◌++◌, map, onto, ok,
}
use amazon_ecs_cni_plugins.Base.Exec.{pure, ◌>>◌, ◌note◌, annotate, annotate-ok, continue-ok}
use amazon_ecs_cni_plugins.Net.{Ip, IpNet, v4, v6, nil}
use amazon_ecs_cni_plugins.Host.{
  Host, Link, Route, History, Call, Action, universe_scope, unicast, blackhole, call, link_by_name,
  link_set_name, link_set_up, link_set_mtu, addr_add, route_add,
}
use amazon_ecs_cni_plugins.Host.Trace.{Leaves, Leaves-call, Leaves-pure, Leaves-note, Leaves-then}
use amazon_ecs_cni_plugins.Eni.Namespace.{
  SetupContext, add_addresses, add_route_unless, block_endpoints, add_gateways, run_setup,
}

-- The metadata endpoints: 169.254.169.254/32 and fd00:ec2::254/128.
abbrev pub metadata_endpoints : List IpNet
metadata_endpoints =
    record { ip = v4 0xa9fea9fe; mask = record { ones = 32; bits = 32 } }
    ∷ record {
      ip = v6 0xfd000ec2000000000000000000000254;
      mask = record { ones = 128; bits = 128 };
    }
    ∷ []

-- A route that drops what is sent to a network.
abbrev pub dropped : IpNet → Route
dropped network = record {
  link_index = 0;
  dst = some network;
  src = nil;
  gw = nil;
  scope = universe_scope;
  type = blackhole;
}

-- The default route over a link by a gateway.
abbrev pub default_via : Link → Ip → Route
default_via link gw = record {
  link_index = link.index;
  dst = none;
  src = nil;
  gw = gw;
  scope = universe_scope;
  type = unicast;
}

module _ (host : Host) where
  add_addresses-Leaves :
      (link : Link) (addrs : List IpNet)
      → Leaves (add_addresses host link addrs) (map (addr_add link) addrs)
  unfolding add_addresses
  add_addresses-Leaves link [] h e = refl
  add_addresses-Leaves link (a ∷ addrs) h e =
      ground (arith, add_addresses-Leaves link addrs (addr_add link a ∷ h))

  block_endpoints-Leaves :
      (endpoints : List IpNet)
      → Leaves (block_endpoints host endpoints) (map (λ e. route_add (dropped e)) endpoints)
  unfolding block_endpoints add_route_unless
  block_endpoints-Leaves [] h e = refl
  block_endpoints-Leaves (n ∷ ns) h e =
      ground (arith, block_endpoints-Leaves ns (route_add (dropped n) ∷ h))

  add_gateways-Leaves :
      (link : Link) (gws : List Ip)
      → Leaves (add_gateways host link gws) (map (λ gw. route_add (default_via link gw)) gws)
  unfolding add_gateways add_route_unless
  add_gateways-Leaves link [] h e = refl
  add_gateways-Leaves link (gw ∷ gws) h e =
      ground (arith, add_gateways-Leaves link gws (route_add (default_via link gw) ∷ h))

  -- A step that is made only if a test holds.
  Leaves-if :
      (b : Bool) (m k : Action (Unit {0})) (cs ds : List Call)
      → Leaves m cs
      → Leaves k ds
      → Leaves (if b then m else k) (if b then cs else ds)
  Leaves-if true m k cs ds l r = l
  Leaves-if false m k cs ds l r = r

  abbrev pub setup_calls : SetupContext → Link → List Call
  setup_calls c link =
      link_set_name link c.if_name
      ∷ (map (addr_add link) c.ip_addrs
          ++ (link_set_up link
              ∷ ((if c.mtu == 0 then [] else link_set_mtu link c.mtu ∷ [])
                  ++ ((if c.block_imds
                        then map (λ e. route_add (dropped e)) metadata_endpoints
                        else [])
                      ++ map (λ gw. route_add (default_via link gw)) c.gateway_addrs))))

  abbrev raise_link : SetupContext → Link → Action (Unit {0})
  raise_link c link =
      if c.mtu == 0
      then pure tt
      else call host (link_set_mtu link c.mtu)
        note "setupNamespaceClosure engine: unable to set mtu of interface"

  raise_link-Leaves :
      (c : SetupContext) (link : Link)
      → Leaves (raise_link c link) (if c.mtu == 0 then [] else link_set_mtu link c.mtu ∷ [])
  raise_link-Leaves c link =
      Leaves-if (c.mtu == 0) (pure tt)
        (call host (link_set_mtu link c.mtu)
          note "setupNamespaceClosure engine: unable to set mtu of interface")
        [] (link_set_mtu link c.mtu ∷ []) Leaves-pure
        (Leaves-note "setupNamespaceClosure engine: unable to set mtu of interface"
          (call host (link_set_mtu link c.mtu)) (link_set_mtu link c.mtu ∷ [])
          (Leaves-call host (link_set_mtu link c.mtu)))

  abbrev block : SetupContext → Action (Unit {0})
  block c = if c.block_imds then block_endpoints host metadata_endpoints else pure tt

  abbrev add_routes : SetupContext → Link → Action (Unit {0})
  add_routes c link = do block c; add_gateways host link c.gateway_addrs

  add_routes-Leaves :
      (c : SetupContext) (link : Link)
      → Leaves (add_routes c link) (
          (if c.block_imds then map (λ e. route_add (dropped e)) metadata_endpoints else [])
          ++ map (λ gw. route_add (default_via link gw)) c.gateway_addrs)
  add_routes-Leaves c link =
      Leaves-then (block c) (add_gateways host link c.gateway_addrs)
        (if c.block_imds then map (λ e. route_add (dropped e)) metadata_endpoints else [])
        (map (λ gw. route_add (default_via link gw)) c.gateway_addrs)
        (Leaves-if c.block_imds (block_endpoints host metadata_endpoints) (pure tt)
          (map (λ e. route_add (dropped e)) metadata_endpoints) []
          (block_endpoints-Leaves metadata_endpoints) Leaves-pure)
        (add_gateways-Leaves link c.gateway_addrs)

  abbrev bring_up : SetupContext → Link → Action (Unit {0})
  bring_up c link = do
    call host (link_set_up link) note "setupNamespaceClosure engine: unable to bring up the device"
    raise_link c link
    add_routes c link

  abbrev bring_up_calls : SetupContext → Link → List Call
  bring_up_calls c link =
      link_set_up link
      ∷ ((if c.mtu == 0 then [] else link_set_mtu link c.mtu ∷ [])
          ++ ((if c.block_imds then map (λ e. route_add (dropped e)) metadata_endpoints else [])
              ++ map (λ gw. route_add (default_via link gw)) c.gateway_addrs))

  bring_up-Leaves :
      (c : SetupContext) (link : Link) → Leaves (bring_up c link) (bring_up_calls c link)
  bring_up-Leaves c link =
      Leaves-then
        (call host (link_set_up link)
          note "setupNamespaceClosure engine: unable to bring up the device")
        (raise_link c link >> add_routes c link) (link_set_up link ∷ [])
        ((if c.mtu == 0 then [] else link_set_mtu link c.mtu ∷ [])
          ++ ((if c.block_imds then map (λ e. route_add (dropped e)) metadata_endpoints else [])
              ++ map (λ gw. route_add (default_via link gw)) c.gateway_addrs))
        (Leaves-note "setupNamespaceClosure engine: unable to bring up the device"
          (call host (link_set_up link)) (link_set_up link ∷ [])
          (Leaves-call host (link_set_up link)))
        (Leaves-then (raise_link c link) (add_routes c link)
          (if c.mtu == 0 then [] else link_set_mtu link c.mtu ∷ [])
          ((if c.block_imds then map (λ e. route_add (dropped e)) metadata_endpoints else [])
            ++ map (λ gw. route_add (default_via link gw)) c.gateway_addrs)
          (raise_link-Leaves c link) (add_routes-Leaves c link))

  abbrev configure : SetupContext → Link → Action (Unit {0})
  configure c link = do
    call host (link_set_name link c.if_name)
        note "setupNamespaceClosure engine: unable to change interface name"
    add_addresses host link c.ip_addrs
    bring_up c link

  configure-Leaves :
      (c : SetupContext) (link : Link) → Leaves (configure c link) (setup_calls c link)
  configure-Leaves c link =
      Leaves-then
        (call host (link_set_name link c.if_name)
          note "setupNamespaceClosure engine: unable to change interface name")
        (add_addresses host link c.ip_addrs >> bring_up c link) (link_set_name link c.if_name ∷ [])
        (map (addr_add link) c.ip_addrs ++ bring_up_calls c link)
        (Leaves-note "setupNamespaceClosure engine: unable to change interface name"
          (call host (link_set_name link c.if_name)) (link_set_name link c.if_name ∷ [])
          (Leaves-call host (link_set_name link c.if_name)))
        (Leaves-then (add_addresses host link c.ip_addrs) (bring_up c link)
          (map (addr_add link) c.ip_addrs) (bring_up_calls c link)
          (add_addresses-Leaves link c.ip_addrs) (bring_up-Leaves c link))

  -- A successful set-up of the container's interface has found its link and has made exactly these
  -- calls, in this order: the look-up of the link, its renaming, one AddrAdd for each address,
  -- bringing it up, the setting of the MTU if it is not zero, if the metadata is to be blocked one
  -- RouteAdd of a blackhole route for 169.254.169.254/32 and one for fd00:ec2::254/128, and for
  -- each gateway one RouteAdd of the default route over the link by that gateway.
  pub run_setup-trace :
      (c : SetupContext) (h : History)
      → (run_setup host c h).0 ≡ ok tt
      → (link : Link) × (host.link_of h c.device_name ≡ ok link)
        × ((run_setup host c h).1 ≡ onto (link_by_name c.device_name ∷ setup_calls c link) h)
  unfolding run_setup
  run_setup-trace c h e =
      let (link, found, same) =
        continue-ok
          (annotate "setupNamespaceClosure engine: unable to get link for device '%s'"
            (host.link_of h c.device_name, link_by_name c.device_name ∷ h))
          (configure c) tt e in
      let (found', same') =
        annotate-ok "setupNamespaceClosure engine: unable to get link for device '%s'"
          (host.link_of h c.device_name, link_by_name c.device_name ∷ h) link found in
      let at_link = same ∙ ap (λ r. (configure c link) r.1) same' in
      (
        link,
        found',
        ap (λ r. r.1) at_link
            ∙ configure-Leaves c link (link_by_name c.device_name ∷ h)
                (subst (λ r. r.0 ≡ ok tt) at_link e),
      )
