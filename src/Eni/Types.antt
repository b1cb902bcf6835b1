-- ===== src/Eni/Types.antt =====
-- plugins/eni/types/types.go. Decoding of JSON, and net.ParseMAC and net.ParseCIDR as tests of a
-- text, are parameters.
use amazon_ecs_cni_plugins.Base.{ℕ, if◌then◌else◌, Text, text_eq, Bool, List, [], ◌∷◌}
use amazon_ecs_cni_plugins.Base.{message, wrap, Result, ok, err, ◌>>◌}
use amazon_ecs_cni_plugins.Net.{Ip, IpNet}
use amazon_ecs_cni_plugins.Cni.{CmdArgs}

pub record NetConf : Type 0 where
  pub cni_version : Text
  pub eni_id : Text
  pub mac_address : Text
  pub ip_addresses : List Text
  pub gateway_ip_addresses : List Text
  pub block_imds : Bool
  pub stay_down : Bool
  pub mtu : ℕ

-- net.ParseCIDR, with the address and the network; net.ParseMAC, with the printed address.
pub record Parsers : Type 0 where
  pub parse_cidr : Text → Result (Ip × IpNet)
  pub parse_mac : Text → Result Text

module _ (parsers : Parsers) where
  unfoldable pub is_valid_ip_address : Text → Result (Unit {0})
  is_valid_ip_address address = elim (parsers.parse_cidr address) [
    | ok _ ↦ ok tt
    | err e ↦ err (message "newconf types: malformed IP address specified: %s")
  ]

  unfoldable pub all_valid : List Text → Result (Unit {0})
  all_valid [] = ok tt
  all_valid (a ∷ addresses) = do is_valid_ip_address a; all_valid addresses

  unfoldable pub check_mac : Text → Result (Unit {0})
  check_mac mac = elim (parsers.parse_mac mac) [
    | ok _ ↦ ok tt
    | err e ↦ err (wrap e "newconf types: malformatted mac address specified")
  ]

  -- NewConf behind the decoding.
  unfoldable pub validate : NetConf → Result NetConf
  validate conf =
      if text_eq conf.eni_id []
      then err (message "newconf types: missing required parameter in config: 'eni'")
      else if text_eq conf.mac_address []
      then err (message "newconf types: missing required parameter in config: 'mac'")
      else elim conf.ip_addresses [
        | [] ↦ err (message "newconf types: missing required parameter in config: 'ip-addresses'")
        | _ ↦ do check_mac conf.mac_address; all_valid conf.ip_addresses; ok conf
      ]

  unfoldable pub new_conf : (Text → Result NetConf) → CmdArgs → Result NetConf
  new_conf unmarshal args = elim (unmarshal args.stdin_data) [
    | err e ↦ err (wrap e "newconf types: failed to parse config")
    | ok conf ↦ validate conf
  ]
