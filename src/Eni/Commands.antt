-- ===== src/Eni/Commands.antt =====
-- plugins/eni/commands/commands.go: ADD and DEL of the ENI plugin. Printing of the result and
-- decoding of the configuration are parameters.
pub mod Outcome
use amazon_ecs_cni_plugins.Base.{if◌then◌else◌, Text, codes, List, [], ◌∷◌}
use amazon_ecs_cni_plugins.Base.{Result, ok, err}
use amazon_ecs_cni_plugins.Base.Exec.{pure, lift, ◌>>=◌, ◌>>◌}
use amazon_ecs_cni_plugins.Net.{Ip, IpNet, nil, is_nil, to4}
use amazon_ecs_cni_plugins.Cni.{CmdArgs, IpConfig, CniResult}
use amazon_ecs_cni_plugins.Host.{Host, Action}
use amazon_ecs_cni_plugins.Eni.Types.{NetConf, Parsers, new_conf}
use amazon_ecs_cni_plugins.Eni.Metadata.{get_interface_device_name}
use amazon_ecs_cni_plugins.Eni.Namespace.{setup_container_namespace}

-- The address of a CIDR text with the mask of its network, and its version.
unfoldable pub config_of : Ip × IpNet → IpConfig
config_of (ip, net) = record {
  version = if is_nil (to4 ip) then codes "6" else codes "4";
  interface = 0;
  address = record { ip = ip; mask = net.mask };
  gateway = nil;
}

unfoldable pub configs_of : Parsers → List Text → Result (List IpConfig)
configs_of parsers [] = ok []
configs_of parsers (a ∷ addresses) = elim (parsers.parse_cidr a) [
  | err e ↦ err e
  | ok p ↦ elim (configs_of parsers addresses) [ err e ↦ err e | ok cs ↦ ok (config_of p ∷ cs) ]
]

module _ (host : Host) (parsers : Parsers) where
  -- `add` up to the printing of its result, with a configuration.
  unfoldable pub add_with : CmdArgs → NetConf → Action CniResult
  add_with args conf = do
    device ← get_interface_device_name host parsers conf.mac_address
    ips ← lift (configs_of parsers conf.ip_addresses)
    setup_container_namespace host args device conf.mac_address conf.ip_addresses
        conf.gateway_ip_addresses conf.block_imds conf.stay_down conf.mtu
    pure (record {
      interfaces = record { name = device; mac = conf.mac_address } ∷ [];
      ips = ips;
      routes = [];
    })

  unfoldable pub add :
      (Text → Result NetConf) → (CniResult → Text → Result (Unit {0})) → CmdArgs → Action (Unit {0})
  add unmarshal print_result args = do
    conf ← lift (new_conf parsers unmarshal args)
    result ← add_with args conf
    lift (print_result result conf.cni_version)

  -- `del` does nothing.
  unfoldable pub del : CmdArgs → Action (Unit {0})
  del args = pure tt
