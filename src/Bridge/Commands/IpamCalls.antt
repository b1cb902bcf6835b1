-- ===== src/Bridge/Commands/IpamCalls.antt =====
-- What ADD of the bridge plugin calls of the IPAM plugin.
use amazon_ecs_cni_plugins.Base.{
  ℕ, ◌≡◌, refl, arith, if◌then◌else◌, some, List, [], ◌∷◌, String, Text, codes, Result, ok,
}
use amazon_ecs_cni_plugins.Base.Exec.{pure, ◌>>◌}
use amazon_ecs_cni_plugins.Net.{IpNet}
use amazon_ecs_cni_plugins.Cni.{CmdArgs, IpConfig, CniResult}
use amazon_ecs_cni_plugins.Host.{Host, Link, Call, History, Action, exec_add, route_add}
use amazon_ecs_cni_plugins.Host.IpamCalls.{
  IsHeard, Loud, Loud-then, Heard, Heard-then, Heard-Loud, Heard-lift, Quiet, Quiet-lift,
  Quiet-then, Quiet-if, Quiet-with_net_ns_path,
}
use amazon_ecs_cni_plugins.Bridge.Types.{IpamConfig, NetConf}
use amazon_ecs_cni_plugins.Bridge.Engine.{
  lookup_bridge, create_bridge_link, create_if_missing, ensure_bridge, bring_up, create_bridge,
  create_veth_pair, attach_host_veth_interface_to_bridge, block_endpoints,
  instance_metadata_endpoints, block_instance_metadata, generate_mac_address, blackhole_route,
  run_ipam_plugin_add,
}
use amazon_ecs_cni_plugins.Bridge.Addresses.{
  configure_address, settle, configure_bridge, list_addresses, assign_address,
}
use amazon_ecs_cni_plugins.Bridge.Veth.{configure_container_veth_interface}
use amazon_ecs_cni_plugins.Bridge.Veth.Quiet.{configure_container_veth_interface-Quiet}
use amazon_ecs_cni_plugins.Bridge.Commands.{log_info, ipam_of, complete_result, add_with}

module _ (host : Host) where
  log_info-Quiet :
      (msg : Text) (args : CmdArgs) (conf : NetConf) (name : Text)
      → Quiet (log_info msg args conf name)
  unfolding log_info
  log_info-Quiet msg args conf name = record { unheard = λ h. ground arith }

  create_bridge-Quiet : (name : Text) (mtu : ℕ) → Quiet (create_bridge host name mtu)
  unfolding create_bridge lookup_bridge ensure_bridge create_if_missing create_bridge_link
      generate_mac_address bring_up
  create_bridge-Quiet name mtu = record { unheard = λ h. ground arith }

  create_veth_pair-Quiet :
      (netns : Text) (mtu : ℕ) (if_name : Text) → Quiet (create_veth_pair host netns mtu if_name)
  unfolding create_veth_pair
  create_veth_pair-Quiet netns mtu if_name =
      Quiet-with_net_ns_path host netns _ (record { unheard = λ h. ground arith })

  attach-Quiet :
      (name : Text) (bridge : Link) → Quiet (attach_host_veth_interface_to_bridge host name bridge)
  unfolding attach_host_veth_interface_to_bridge
  attach-Quiet name bridge = record { unheard = λ h. ground arith }

  configure_bridge-Quiet :
      (bridge : Link) (cs : List IpConfig) → Quiet (configure_bridge host bridge cs)
  unfolding configure_bridge configure_address list_addresses settle assign_address
  configure_bridge-Quiet bridge [] = Quiet-lift (ok tt)
  configure_bridge-Quiet bridge (c ∷ cs) =
      Quiet-then (configure_address host bridge c) (λ _. configure_bridge host bridge cs)
        (record { unheard = λ h. ground arith }) (λ _. configure_bridge-Quiet bridge cs)

  block_endpoints-Quiet : (endpoints : List IpNet) → Quiet (block_endpoints host endpoints)
  unfolding block_endpoints
  block_endpoints-Quiet [] = Quiet-lift (ok tt)
  block_endpoints-Quiet (endpoint ∷ rest) = record {
    unheard = λ h.
        ground
          (arith, (block_endpoints-Quiet rest).unheard (route_add (blackhole_route endpoint) ∷ h));
  }

  block_instance_metadata-Quiet : (netns : Text) → Quiet (block_instance_metadata host netns)
  unfolding block_instance_metadata
  block_instance_metadata-Quiet netns =
      Quiet-with_net_ns_path host netns (block_endpoints host instance_metadata_endpoints)
        (block_endpoints-Quiet instance_metadata_endpoints)

  run_ipam_plugin_add-Loud :
      (plugin conf : Text) → Loud (exec_add plugin conf) (run_ipam_plugin_add host plugin conf)
  unfolding run_ipam_plugin_add
  run_ipam_plugin_add-Loud plugin conf = record { loud = λ h. ground arith }

  module _ (unmarshal : Text → Result NetConf) (args : CmdArgs) (conf : NetConf) (ipam : IpamConfig)
      (q : conf.ipam ≡ some ipam) where
    abbrev allocation : Call
    allocation = exec_add ipam.type args.stdin_data

    logged :
        {A : Type 0} (text : String) (name : Text) (rest : Action A)
        → Heard allocation rest
        → Heard allocation (log_info (codes text) args conf name >> rest)
    logged text name rest r =
        Heard-then allocation (log_info (codes text) args conf name) (λ _. rest)
          (log_info-Quiet (codes text) args conf name) (λ _. r)

    noted :
        {A : Type 0} (text : String) (name : Text) (rest : Action A)
        → Quiet rest
        → Quiet (log_info (codes text) args conf name >> rest)
    noted text name rest r =
        Quiet-then (log_info (codes text) args conf name) (λ _. rest)
          (log_info-Quiet (codes text) args conf name) (λ _. r)

    ipam_of-some : ipam_of conf ≡ ok ipam
    unfolding ipam_of
    ipam_of-some = rw q refl

    -- What follows the run of the IPAM plugin.
    rest-Quiet :
        (bridge : Link) (result : CniResult) (name : Text)
        → Quiet (do
          log_info (codes "Configuring bridge") args conf name
          configure_bridge host bridge result.ips
          log_info (codes "Configuring container's interface") args conf name
          configure_container_veth_interface host args.netns result args.if_name (record {
            ipv4 = ipam.connected_subnet_mask_size_ipv4;
            ipv6 = ipam.connected_subnet_mask_size_ipv6;
          })
          if conf.block_imds
              then (do
                log_info (codes "Blocking IMDS access") args conf name
                block_instance_metadata host args.netns)
              else pure tt
          pure result)
    rest-Quiet bridge result name = noted "Configuring bridge" name _ (
        Quiet-then _ _ (configure_bridge-Quiet bridge result.ips) λ _.
          noted "Configuring container's interface" name _ (
            Quiet-then _ _
              (configure_container_veth_interface-Quiet host args.netns result args.if_name _)
              λ _.
                Quiet-then _ _
                  (Quiet-if conf.block_imds _ (pure tt)
                    (noted "Blocking IMDS access" name _ (block_instance_metadata-Quiet args.netns))
                    (Quiet-lift (ok tt)))
                  λ _. Quiet-lift (ok result)))

    add_with-Heard : Heard allocation (add_with host unmarshal args conf)
    unfolding add_with
    add_with-Heard = logged "Creating the bridge" [] _ (
        Heard-then allocation _ _ (create_bridge-Quiet conf.bridge_name conf.mtu) λ bridge.
          logged "Creating veth pair for namespace" [] _ (
            Heard-then allocation _ _ (create_veth_pair-Quiet args.netns conf.mtu args.if_name)
              λ (container_veth, name). logged "Attaching veth pair to bridge" name _ (
                Heard-then allocation _ _ (attach-Quiet name bridge) λ host_veth.
                  logged "Running IPAM plugin ADD" name _ (
                    Heard-lift allocation (ipam_of conf) ipam _ ipam_of-some (
                      Heard-Loud allocation _ (
                        Loud-then allocation _ _
                          (run_ipam_plugin_add-Loud ipam.type args.stdin_data)
                          λ ipam_result.
                            rest-Quiet bridge
                              (complete_result ipam_result bridge host_veth container_veth)
                              name))))))

  -- If the configuration has "ipam", ADD of the bridge plugin, up to the printing of its result,
  -- either has called ADD of the IPAM plugin that the configuration names once, with the data of
  -- its standard input, and no other IPAM plugin and no DEL, or it ends with an error and has
  -- called neither ADD nor DEL of an IPAM plugin.
  pub add_with-ipam_calls :
      (unmarshal : Text → Result NetConf) (args : CmdArgs) (conf : NetConf) (ipam : IpamConfig)
      (h : History)
      → conf.ipam ≡ some ipam
      → IsHeard (exec_add ipam.type args.stdin_data) h (add_with host unmarshal args conf h)
  add_with-ipam_calls unmarshal args conf ipam h q =
      (add_with-Heard unmarshal args conf ipam q).heard h
