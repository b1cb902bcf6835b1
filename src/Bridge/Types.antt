-- ===== src/Bridge/Types.antt =====
-- plugins/ecs-bridge/types/types.go. Decoding of JSON is a parameter.
use amazon_ecs_cni_plugins.Base.{ℕ, ◌==◌, if◌then◌else◌, Text, text_eq, Bool, Option, []}
use amazon_ecs_cni_plugins.Base.{message, wrap, Result, ok, err}
use amazon_ecs_cni_plugins.Cni.{CmdArgs}

abbrev pub default_mtu : ℕ
default_mtu = 1500

pub record IpamConfig : Type 0 where
  pub type : Text
  pub connected_subnet_mask_size_ipv4 : ℕ
  pub connected_subnet_mask_size_ipv6 : ℕ

pub record NetConf : Type 0 where
  pub bridge_name : Text
  pub mtu : ℕ
  pub ipam : Option IpamConfig
  pub block_imds : Bool

-- NewConf
unfoldable pub new_conf : (Text → Result NetConf) → CmdArgs → Result NetConf
new_conf unmarshal args = elim (unmarshal args.stdin_data) [
  | err e ↦ err (wrap e "bridge parsing config: failed to parse config")
  | ok conf ↦
      if text_eq conf.bridge_name []
      then err (message "bridge parsing config: missing required parameter in config named: '%s'")
      else ok (record conf { mtu = if conf.mtu == 0 then default_mtu else conf.mtu })
]
