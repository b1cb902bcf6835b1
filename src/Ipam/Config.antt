-- ===== src/Ipam/Config.antt =====
-- plugins/ipam/config/config.go. Decoding of JSON (encoding/json with the decoders of the CNI
-- library), ip.NextIP of the CNI library, the environment and time.ParseDuration are parameters.
pub mod Usable
pub mod UsableV6
pub mod Validated
pub mod ValidatedV6
use amazon_ecs_cni_plugins.Base.{is_blank}
use amazon_ecs_cni_plugins.Base.{
  ℕ, ◌==◌, leb, ltb, if◌then◌else◌, Text, codes, Bool, true, false, not, ◌&&◌, ◌||◌,
}
use amazon_ecs_cni_plugins.Base.{Option, none, some, List, [], ◌∷◌, length}
use amazon_ecs_cni_plugins.Base.{message, wrap, Result, ok, err, ◌>>=◌, ◌>>◌}
use amazon_ecs_cni_plugins.Net.{Ip, IpNet, is_nil, is_nil_mask, to4, to16, equal, mask_ip, contains}
use amazon_ecs_cni_plugins.IpStore.Next.{max_mask, max_mask_ipv6, broadcast_of}
use amazon_ecs_cni_plugins.Cni.{Route}

pub record IpamConfig : Type 0 where
  pub type : Text
  pub ipv4_subnet : IpNet
  pub ipv4_address : IpNet
  pub ipv4_gateway : Ip
  pub ipv4_routes : List Route
  pub ipv6_subnet : IpNet
  pub ipv6_address : IpNet
  pub ipv6_gateway : Ip
  pub ipv6_routes : List Route
  pub id : Text

pub record Conf : Type 0 where
  pub name : Text
  pub cni_version : Text
  pub ipam : Option IpamConfig

-- HasIPv4 and HasIPv6
unfoldable pub has_ipv4 : IpamConfig → Bool
has_ipv4 c = not (is_nil c.ipv4_subnet.ip) && not (is_nil_mask c.ipv4_subnet.mask)

unfoldable pub has_ipv6 : IpamConfig → Bool
has_ipv6 c = not (is_nil c.ipv6_subnet.ip) && not (is_nil_mask c.ipv6_subnet.mask)

unfoldable pub verify_ip_subnet : Ip → IpNet → Result (Unit {0})
verify_ip_subnet ip subnet =
    if not (contains subnet ip)
    then err (message "verifyIPSubnet config: ip %v is not within the subnet %v")
    else ok tt

unfoldable pub is_network_or_broadcast : IpNet → Ip → Result Bool
is_network_or_broadcast subnet ip = do
  let network = mask_ip subnet.ip subnet.mask
  broadcast ← broadcast_of network subnet.mask
  ok (equal ip network || equal ip broadcast)

unfoldable pub is_ipv6_network_address : IpNet → Ip → Bool
is_ipv6_network_address subnet ip = equal ip (mask_ip subnet.ip subnet.mask)

unfoldable pub is_ipv4 : Ip → Bool
is_ipv4 ip = if is_nil ip then false else not (is_nil (to4 ip))

unfoldable pub is_ipv6 : Ip → Bool
is_ipv6 ip = if is_nil ip then false else is_nil (to4 ip) && not (is_nil (to16 ip))

module _ (cni_next_ip : Ip → Ip) where
  unfoldable pub get_default_ipv4_gw : IpNet → Ip
  get_default_ipv4_gw subnet = cni_next_ip subnet.ip

  unfoldable pub get_default_ipv6_gw : IpNet → Ip
  get_default_ipv6_gw subnet = cni_next_ip subnet.ip

  -- The check of an IPv4 address that the configuration names.
  unfoldable pub check_ipv4_address : IpNet → Ip → Result (Unit {0})
  check_ipv4_address subnet ip = if is_nil ip then ok tt else do
    verify_ip_subnet ip subnet
    reserved ← is_network_or_broadcast subnet ip
    if reserved then err (message "ip specified is reserved by default: %v") else ok tt

  unfoldable pub ipv4_gateway_of : IpNet → Ip → Result Ip
  ipv4_gateway_of subnet gw = if is_nil gw then ok (get_default_ipv4_gw subnet) else do
    reserved ← is_network_or_broadcast subnet gw
    if reserved
        then err (message "gateway specified is reserved by default: %v")
        else do verify_ip_subnet gw subnet; ok gw

  -- The block `if hasIPv4` of LoadIPAMConfig.
  unfoldable pub validate_ipv4 : IpamConfig → Result IpamConfig
  validate_ipv4 c =
      if ltb max_mask c.ipv4_subnet.mask.ones
      then err (message "loadIPAMConfig config: no available ip in the subnet")
      else do
        check_ipv4_address c.ipv4_subnet c.ipv4_address.ip
        gw ← ipv4_gateway_of c.ipv4_subnet c.ipv4_gateway
        ok (record c { ipv4_gateway = gw })

  unfoldable pub check_ipv6_address : IpNet → Ip → Result (Unit {0})
  check_ipv6_address subnet ip =
      if is_nil ip
      then ok tt
      else if not (is_nil (to4 ip)) || is_nil (to16 ip)
      then err (message "loadIPAMConfig config: invalid ipv6 address: %v")
      else do
        verify_ip_subnet ip subnet
        if is_ipv6_network_address subnet ip
            then err (message "loadIPAMConfig config: ip specified is the network address: %v")
            else ok tt

  unfoldable pub ipv6_gateway_of : IpNet → Ip → Result Ip
  ipv6_gateway_of subnet gw =
      if is_nil gw
      then ok (get_default_ipv6_gw subnet)
      else if not (is_nil (to4 gw)) || is_nil (to16 gw)
      then err (message "loadIPAMConfig config: invalid ipv6 gateway: %v")
      else do
        verify_ip_subnet gw subnet
        if is_ipv6_network_address subnet gw
            then err (message "loadIPAMConfig config: gateway specified is the network address: %v")
            else ok gw

  -- The block `if hasIPv6` of LoadIPAMConfig.
  unfoldable pub validate_ipv6 : IpamConfig → Result IpamConfig
  validate_ipv6 c =
      if not (c.ipv6_subnet.mask.bits == 128)
      then err (message "loadIPAMConfig config: invalid ipv6 subnet: %v")
      else if ltb max_mask_ipv6 c.ipv6_subnet.mask.ones
      then err (message "loadIPAMConfig config: no available ip in the subnet")
      else do
        check_ipv6_address c.ipv6_subnet c.ipv6_address.ip
        gw ← ipv6_gateway_of c.ipv6_subnet c.ipv6_gateway
        ok (record c { ipv6_gateway = gw })

  -- LoadIPAMConfig behind the decoding.
  unfoldable pub validate : IpamConfig → Result IpamConfig
  validate c =
      if not (has_ipv4 c) && not (has_ipv6 c)
      then err (message "loadIPAMConfig config: at least one subnet (ipv4 or ipv6) is required")
      else do
        d ← if has_ipv4 c then validate_ipv4 c else ok c
        if has_ipv6 d then validate_ipv6 d else ok d

  unfoldable pub load_ipam_config : (Text → Result Conf) → Text → Result (IpamConfig × Text)
  load_ipam_config unmarshal bytes = elim (unmarshal bytes) [
    | err e ↦ err (wrap e "loadIPAMConfig config: failed to load netconf, %s")
    | ok conf ↦ elim conf.ipam [
      | none ↦ err (message "loadIPAMConfig config: 'IPAM' field missing in configuration: ")
      | some c ↦ do d ← validate c; ok (d, conf.cni_version)
    ]
  ]

-- ipstore.Config
pub record DbConfig : Type 0 where
  pub db : Text
  pub persist_connection : Bool
  pub bucket : Text
  pub connection_timeout : ℕ

abbrev pub default_db_path : Text
default_db_path = codes "/data/eni-ipam.db"

-- In nanoseconds.
abbrev pub default_connection_timeout : ℕ
default_connection_timeout = 5_000_000_000

module _ (getenv : Text → Text) (parse_duration : Text → Result ℕ) where
  unfoldable pub load_db_config : Result DbConfig
  load_db_config = do
    let db = getenv (codes "IPAM_DB_PATH")
    let text = getenv (codes "IPAM_DB_CONNECTION_TIMEOUT")
    timeout ← if is_blank text then ok default_connection_timeout else elim (parse_duration text) [
      | ok duration ↦ ok duration
      | err e ↦ err (message "loadDBConfig config: parsing timeout string failed: %v")
    ]
    ok (record {
      db = if is_blank db then default_db_path else db;
      persist_connection = true;
      bucket = codes "IPAM";
      connection_timeout = timeout;
    })
