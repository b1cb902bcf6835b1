-- ===== src/Bridge/Commands/Complete.antt =====
-- The result of ADD of the bridge plugin.
use amazon_ecs_cni_plugins.Base.{
  String, ℕ, ◌≤◌, ◌≡◌, ◌∙◌, ap, subst, sym, refl, inl, inr, Option-cases, Text, codes, true, some,
  [], ◌∷◌, length, map, All, Result, ok, err,
}
use amazon_ecs_cni_plugins.Base.Exec.{pure, lift, ◌>>◌}
use amazon_ecs_cni_plugins.Cni.{CmdArgs, Interface, IpConfig, CniResult}
use amazon_ecs_cni_plugins.Host.{Host, Link, Action, History, ask, exec_add}
use amazon_ecs_cni_plugins.Host.Ensures.{
  Ensures, Ensures-then, Ensures-any, Ensures-note, Ensures-ask, Ensures-lift,
}
use amazon_ecs_cni_plugins.Bridge.Types.{IpamConfig, NetConf}
use amazon_ecs_cni_plugins.Bridge.Engine.{
  create_bridge, create_veth_pair, attach_host_veth_interface_to_bridge, run_ipam_plugin_add,
  check_ipam_result,
}
use amazon_ecs_cni_plugins.Bridge.Engine.Ends.{
  ArePaired, AreEnds, create_veth_pair-AreEnds, IsAttached, attach-IsAttached,
}
use amazon_ecs_cni_plugins.Bridge.Engine.Laws.{
  HasMaskAndGateway, check_ipam_result_iff, create_bridge-ok,
}
use amazon_ecs_cni_plugins.Bridge.Addresses.{configure_bridge}
use amazon_ecs_cni_plugins.Bridge.Veth.{configure_container_veth_interface}
use amazon_ecs_cni_plugins.Bridge.Commands.{
  log_info, ipam_of, interfaces_of, complete_result, add_with,
}

-- An address on interface 2 of the result, the container's end.
abbrev pub on_interface_two : IpConfig → IpConfig
on_interface_two c = record {
  version = c.version;
  interface = 2;
  address = c.address;
  gateway = c.gateway;
}

module _ (host : Host) where
  -- A bridge that the host has found by its name.
  abbrev pub IsBridgeNamed : Text → Link → Type 0
  IsBridgeNamed name l = (l.is_bridge ≡ true) × ((h : History) × (host.link_of h name ≡ ok l))

  -- The answer of the IPAM plugin, if RunIPAMPluginAdd lets it through.
  abbrev pub IsAllocated : Text → Text → CniResult → Type 0
  IsAllocated plugin net_conf r =
      ((h : History) × (host.added h plugin net_conf ≡ ok r))
      × ((1 ≤ length r.ips) × (length r.ips ≤ 2) × All HasMaskAndGateway r.ips)

  -- The result names a bridge with the configured name, the host's end and the container's end of
  -- a veth pair, the host's end with the hardware address of the link that has its name, and has
  -- the addresses of the IPAM plugin's answer on the container's end.
  pub record IsComplete (args : CmdArgs) (conf : NetConf) (r : CniResult) : Type 0 where
    pub bridge : Link
    pub host_end : Link
    pub container_end : Link
    pub attached : Link
    pub ipam : IpamConfig
    pub answer : CniResult
    pub on_bridge : IsBridgeNamed conf.bridge_name bridge
    pub paired : ArePaired host args.if_name conf.mtu host_end container_end
    pub looked_up : (h : History) × (host.link_of h host_end.name ≡ ok attached)
    pub configured : conf.ipam ≡ some ipam
    pub allocated : IsAllocated ipam.type args.stdin_data answer
    pub interfaces :
        r.interfaces
        ≡ record { name = bridge.name; mac = bridge.hardware_addr }
          ∷ record { name = host_end.name; mac = attached.hardware_addr }
          ∷ record { name = container_end.name; mac = container_end.hardware_addr }
          ∷ []
    pub addresses : r.ips ≡ map on_interface_two answer.ips

  run_ipam_plugin_add-IsAllocated :
      (plugin net_conf : Text)
      → Ensures (IsAllocated plugin net_conf) (run_ipam_plugin_add host plugin net_conf)
  unfolding run_ipam_plugin_add
  run_ipam_plugin_add-IsAllocated plugin net_conf =
      Ensures-then (λ r. (h : History) × (host.added h plugin net_conf ≡ ok r))
        (IsAllocated plugin net_conf) _ (λ r. lift (check_ipam_result host r))
        (Ensures-note (λ r. (h : History) × (host.added h plugin net_conf ≡ ok r))
          "bridge ipam ADD: failed to execute plugin: %s"
          (ask (exec_add plugin net_conf) (λ h. host.added h plugin net_conf))
          (Ensures-ask (exec_add plugin net_conf) (λ h. host.added h plugin net_conf)))
        λ r answered. record {
          ensured = λ h s e.
              let (same, lo, hi, all) = (check_ipam_result_iff host r s).0 e in
              subst (IsAllocated plugin net_conf) same (answered, (lo, hi, all));
        }

  create_bridge-IsBridgeNamed :
      (name : Text) (mtu : ℕ) → Ensures (IsBridgeNamed name) (create_bridge host name mtu)
  create_bridge-IsBridgeNamed name mtu = record {
    ensured = λ h l e. (create_bridge-ok host name mtu h l e).0;
  }

  ipam_of-some :
      (conf : NetConf) (ipam : IpamConfig) → ipam_of conf ≡ ok ipam → conf.ipam ≡ some ipam
  unfolding ipam_of
  ipam_of-some conf ipam e = elim (Option-cases conf.ipam) [
    | inl q ↦ let bad : err _ ≡ ok ipam = rw (q, ipam_of) at e in cc
    | inr (i, q) ↦ let same : ok i ≡ ok ipam = rw (q, ipam_of) at e in cc
  ]

  completed :
      (args : CmdArgs) (conf : NetConf) (bridge host_end container_end attached : Link)
      (ipam : IpamConfig) (answer : CniResult) (host_veth container_veth : Interface) (name : Text)
      → IsBridgeNamed conf.bridge_name bridge
      → ArePaired host args.if_name conf.mtu host_end container_end
      → container_veth ≡ record { name = container_end.name; mac = container_end.hardware_addr }
      → name ≡ host_end.name
      → (h : History) × (host.link_of h name ≡ ok attached)
      → host_veth ≡ record { name = name; mac = attached.hardware_addr }
      → conf.ipam ≡ some ipam
      → IsAllocated ipam.type args.stdin_data answer
      → IsComplete args conf (complete_result answer bridge host_veth container_veth)
  unfolding complete_result interfaces_of
  completed args conf bridge host_end container_end attached ipam answer host_veth container_veth
        name on_bridge paired container_named named (h, looked_up) host_named configured allocated =
      record {
        bridge = bridge;
        host_end = host_end;
        container_end = container_end;
        attached = attached;
        ipam = ipam;
        answer = answer;
        on_bridge = on_bridge;
        paired = paired;
        looked_up = (h, ap (host.link_of h) (sym named) ∙ looked_up);
        configured = configured;
        allocated = allocated;
        interfaces = rw (container_named, host_named, named) refl;
        addresses = refl;
      }

  add_with-Ensures :
      (unmarshal : Text → Result NetConf) (args : CmdArgs) (conf : NetConf)
      → Ensures (IsComplete args conf) (add_with host unmarshal args conf)
  unfolding add_with
  add_with-Ensures unmarshal args conf = logged "Creating the bridge" [] _ (
      Ensures-then (IsBridgeNamed conf.bridge_name) (IsComplete args conf)
        (create_bridge host conf.bridge_name conf.mtu) _
        (create_bridge-IsBridgeNamed conf.bridge_name conf.mtu)
        λ bridge on_bridge. logged "Creating veth pair for namespace" [] _ (
          Ensures-then (AreEnds host args.if_name conf.mtu) (IsComplete args conf)
            (create_veth_pair host args.netns conf.mtu args.if_name) _
            (create_veth_pair-AreEnds host args.netns conf.mtu args.if_name)
            λ (container_veth, name) (host_end, container_end, paired, container_named, named).
              logged "Attaching veth pair to bridge" name _ (
                Ensures-then (IsAttached host name) (IsComplete args conf)
                  (attach_host_veth_interface_to_bridge host name bridge) _
                  (attach-IsAttached host name bridge)
                  λ host_veth (attached, looked_up, host_named).
                    logged "Running IPAM plugin ADD" name _ (
                      Ensures-then (λ i. ipam_of conf ≡ ok i) (IsComplete args conf)
                        (lift (ipam_of conf)) _ (Ensures-lift (ipam_of conf))
                        λ ipam given.
                          Ensures-then (IsAllocated ipam.type args.stdin_data)
                            (IsComplete args conf)
                            (run_ipam_plugin_add host ipam.type args.stdin_data) _
                            (run_ipam_plugin_add-IsAllocated ipam.type args.stdin_data)
                            λ answer allocated.
                              let result = complete_result answer bridge host_veth container_veth in
                              logged "Configuring bridge" name _ (
                                Ensures-any (IsComplete args conf)
                                  (configure_bridge host bridge result.ips) _
                                  λ _. logged "Configuring container's interface" name _ (
                                    Ensures-any (IsComplete args conf)
                                      (configure_container_veth_interface host args.netns result
                                        args.if_name
                                        (record {
                                          ipv4 = ipam.connected_subnet_mask_size_ipv4;
                                          ipv6 = ipam.connected_subnet_mask_size_ipv6;
                                        }))
                                      _
                                      λ _.
                                        Ensures-any (IsComplete args conf) _ (λ _. pure result)
                                          λ _. record {
                                            ensured = λ h r e.
                                                subst (IsComplete args conf) (same_result e) (
                                                  completed args conf bridge host_end container_end
                                                    attached ipam answer host_veth container_veth
                                                    name on_bridge paired container_named named
                                                    looked_up host_named
                                                    (ipam_of-some conf ipam given) allocated);
                                          }))))))
    where
      logged :
          (text : String) (name : Text) (rest : Action CniResult)
          → Ensures (IsComplete args conf) rest
          → Ensures (IsComplete args conf) (log_info (codes text) args conf name >> rest)
      logged text name rest e =
          Ensures-any (IsComplete args conf) (log_info (codes text) args conf name) (λ _. rest)
            λ _. e

      same_result : {r s : CniResult} → ok r ≡ ok s → r ≡ s
      same_result e = cc

  -- If ADD of the bridge plugin comes to a result, the result's interfaces are, in this order, a
  -- bridge that the host has found under the configured name, the host's end of a veth pair that
  -- the host has made for the container's interface, with the hardware address of the link that
  -- the host has found under its name, and the container's end of that pair with its hardware
  -- address, and the result's addresses are those that the configured IPAM plugin has answered,
  -- one or two, each with a mask and a gateway, and each put on interface 2, the container's end.
  pub add_with-IsComplete :
      (unmarshal : Text → Result NetConf) (args : CmdArgs) (conf : NetConf) (h : History)
      (r : CniResult)
      → (add_with host unmarshal args conf h).0 ≡ ok r
      → IsComplete args conf r
  add_with-IsComplete unmarshal args conf h r e =
      (add_with-Ensures unmarshal args conf).ensured h r e
