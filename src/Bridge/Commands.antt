-- ===== src/Bridge/Commands.antt =====
-- plugins/ecs-bridge/commands/commands.go: ADD and DEL of the bridge plugin. Printing of the
-- result and decoding of the configuration are parameters; of the log only the message is built.
pub mod Laws
pub mod Complete
pub mod IpamCalls
use amazon_ecs_cni_plugins.Base.{
  ℕ, zero, suc, ◌==◌, if◌then◌else◌, Text, text_eq, codes, Bool, true, false, ◌||◌,
}
use amazon_ecs_cni_plugins.Base.{Option, none, some, List, [], ◌∷◌, ◌++◌, map}
use amazon_ecs_cni_plugins.Base.{Error, panic, Result, ok, err}
use amazon_ecs_cni_plugins.Base.Exec.{pure, lift, ◌>>=◌, ◌>>◌}
use amazon_ecs_cni_plugins.Cni.{CmdArgs, Interface, IpConfig, CniResult}
use amazon_ecs_cni_plugins.Host.{Host, Link, Action}
use amazon_ecs_cni_plugins.Bridge.Types.{IpamConfig, NetConf, new_conf}
use amazon_ecs_cni_plugins.Bridge.Engine.{
  create_bridge, create_veth_pair, attach_host_veth_interface_to_bridge, run_ipam_plugin_add,
  run_ipam_plugin_del, delete_veth, block_instance_metadata,
}
use amazon_ecs_cni_plugins.Bridge.Addresses.{configure_bridge}
use amazon_ecs_cni_plugins.Bridge.Veth.{MaskSizes, configure_container_veth_interface}

abbrev named : Text → Text → Text
named label value = if text_eq value [] then [] else label ++ value

-- detailLogMsg: it dereferences conf.IPAM, which is nil where the configuration has no "ipam".
unfoldable pub detail_log_msg : Text → CmdArgs → Option NetConf → Text → Result Text
detail_log_msg msg args conf host_veth_name =
    let head =
      codes "msg=\""
      ++ msg
      ++ codes "\" netns="
      ++ args.netns
      ++ codes " ifname="
      ++ args.if_name
      ++ codes " containerID="
      ++ args.container_id in
    let tail = named (codes " hostVethName=") host_veth_name in
    elim conf [
      | none ↦ ok (head ++ tail)
      | some c ↦ elim c.ipam [
        | none ↦ err panic
        | some ipam ↦ ok (
            head
            ++ named (codes " bridgeName=") c.bridge_name
            ++ named (codes " ipamType=") ipam.type
            ++ tail)
      ]
    ]

-- The configuration's "ipam", where it is dereferenced.
unfoldable pub ipam_of : NetConf → Result IpamConfig
ipam_of conf = elim conf.ipam [ none ↦ err panic | some ipam ↦ ok ipam ]

unfoldable pub log_info : Text → CmdArgs → NetConf → Text → Action (Unit {0})
log_info msg args conf host_veth_name h =
    elim (detail_log_msg msg args (some conf) host_veth_name) [
      | ok _ ↦ (ok tt, h)
      | err e ↦ (err e, h)
    ]

-- The interfaces of the result: the bridge, the host's end, the container's end.
unfoldable pub interfaces_of : Link → Interface → Interface → List Interface
interfaces_of bridge host_veth container_veth =
    record { name = bridge.name; mac = bridge.hardware_addr } ∷ host_veth ∷ container_veth ∷ []

abbrev pub on_container_veth : IpConfig → IpConfig
on_container_veth c = record c { interface = 2 }

unfoldable pub complete_result : CniResult → Link → Interface → Interface → CniResult
unfolding interfaces_of
complete_result result bridge host_veth container_veth = record result {
  interfaces = interfaces_of bridge host_veth container_veth;
  ips = map on_container_veth result.ips;
}

module _ (host : Host) (unmarshal : Text → Result NetConf) where
  -- `add` up to the printing of its result, with a configuration.
  unfoldable pub add_with : CmdArgs → NetConf → Action CniResult
  add_with args conf = do
    log_info (codes "Creating the bridge") args conf []
    bridge ← create_bridge host conf.bridge_name conf.mtu
    log_info (codes "Creating veth pair for namespace") args conf []
    (container_veth, host_veth_name) ← create_veth_pair host args.netns conf.mtu args.if_name
    log_info (codes "Attaching veth pair to bridge") args conf host_veth_name
    host_veth ← attach_host_veth_interface_to_bridge host host_veth_name bridge
    log_info (codes "Running IPAM plugin ADD") args conf host_veth_name
    ipam ← lift (ipam_of conf)
    ipam_result ← run_ipam_plugin_add host ipam.type args.stdin_data
    let result = complete_result ipam_result bridge host_veth container_veth
    log_info (codes "Configuring bridge") args conf host_veth_name
    configure_bridge host bridge result.ips
    log_info (codes "Configuring container's interface") args conf host_veth_name
    configure_container_veth_interface host args.netns result args.if_name (record {
      ipv4 = ipam.connected_subnet_mask_size_ipv4;
      ipv6 = ipam.connected_subnet_mask_size_ipv6;
    })
    if conf.block_imds
        then (do
          log_info (codes "Blocking IMDS access") args conf host_veth_name
          block_instance_metadata host args.netns)
        else pure tt
    pure result

  unfoldable pub add : (CniResult → Result (Unit {0})) → CmdArgs → Action (Unit {0})
  add print args = do
    conf ← lift (new_conf unmarshal args)
    result ← add_with args conf
    lift (print result)

  -- The run of the IPAM plugin, whose error is only logged.
  unfoldable pub del_ipam : CmdArgs → NetConf → Action (Unit {0})
  del_ipam args conf h = elim conf.ipam [
    | none ↦ log_info (codes "IPAM configuration not found, skip DEL for IPAM") args conf [] h
    | some ipam ↦ (ok tt, (run_ipam_plugin_del host ipam.type args.stdin_data h).1)
  ]

  unfoldable pub del : CmdArgs → Action (Unit {0})
  del args = do
    conf ← lift (new_conf unmarshal args)
    log_info (codes "Deleting veth interface") args conf []
    del_ipam args conf
    log_info (codes "Deleting container interface") args conf []
    delete_veth host args.netns args.if_name
