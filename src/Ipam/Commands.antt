-- ===== src/Ipam/Commands.antt =====
-- plugins/ipam/commands/commands.go: ADD and DEL of the IPAM plugin, over an open IP manager.
-- types.PrintResult of the CNI library is a parameter.
pub mod Release
pub mod Refinement
pub mod RefinementDel
pub mod Remember
pub mod Assigned
pub mod Searched
use amazon_ecs_cni_plugins.Base.{
  ℕ, if◌then◌else◌, Text, text_eq, codes, Bool, true, false, not, ◌&&◌, ◌||◌,
}
use amazon_ecs_cni_plugins.Base.{Option, none, some, [], ◌∷◌, ◌++◌}
use amazon_ecs_cni_plugins.Base.{message, wrap, Result, ok, err}
use amazon_ecs_cni_plugins.Base.Exec.{Exec, ◌>>=◌, ◌>>◌, pure, lift, ◌note◌}
use amazon_ecs_cni_plugins.Net.{Ip, IpNet, is_nil, to4, mask_ip}
use amazon_ecs_cni_plugins.Net.Format.{show_ip, parse_ip}
use amazon_ecs_cni_plugins.IpStore.Db.{Store}
use amazon_ecs_cni_plugins.IpStore.Manager.{
  IpManager, exists, get, update, assign, release, set_last_known_ip, set_last_known_ipv6,
  ip_prefix_v6, last_known_ipv6_key, masked16,
}
use amazon_ecs_cni_plugins.IpStore.Allocate.{get_available_ip, get_available_ipv6, release_by_id}
use amazon_ecs_cni_plugins.Cni.{IpConfig, CniResult}
use amazon_ecs_cni_plugins.Ipam.Config.{IpamConfig, has_ipv4, has_ipv6}

-- LastKnownIPKey, GatewayValue and GatewayV6Value
abbrev pub last_known_ip_key : Text
last_known_ip_key = codes "lastKnownIP"

abbrev pub gateway_value : Text
gateway_value = codes "GateWay"

abbrev pub gateway_v6_value : Text
gateway_v6_value = codes "GateWayV6"

-- One family's part of the result.
abbrev ip_config : Text → IpNet → Ip → IpConfig
ip_config version address gateway = record {
  version = version;
  interface = 0;
  address = address;
  gateway = gateway;
}

abbrev empty_result : CniResult
empty_result = record { interfaces = []; ips = []; routes = [] }

unfoldable pub add_v4_result : IpamConfig → Option IpNet → CniResult → Result CniResult
add_v4_result conf none result = ok result
add_v4_result conf (some ipv4) result =
    if is_nil (to4 ipv4.ip)
    then err (message "constructResults commands: invalid ipv4 address")
    else ok (record result {
      ips = result.ips ++ (ip_config (codes "4") ipv4 conf.ipv4_gateway ∷ []);
      routes = result.routes ++ conf.ipv4_routes;
    })

unfoldable pub add_v6_result : IpamConfig → Option IpNet → CniResult → Result CniResult
add_v6_result conf none result = ok result
add_v6_result conf (some ipv6) result =
    if not (is_nil (to4 ipv6.ip))
    then err (message "constructResults commands: invalid ipv6 address")
    else ok (record result {
      ips = result.ips ++ (ip_config (codes "6") ipv6 conf.ipv6_gateway ∷ []);
      routes = result.routes ++ conf.ipv6_routes;
    })

unfoldable pub non_empty : CniResult → Result CniResult
non_empty result = elim result.ips [
  | [] ↦ err (message "constructResults commands: no IP addresses configured")
  | _ ↦ ok result
]

abbrev then_result : Result CniResult → (CniResult → Result CniResult) → Result CniResult
then_result (ok r) f = f r
then_result (err e) f = err e

unfoldable pub construct_results : IpamConfig → Option IpNet → Option IpNet → Result CniResult
construct_results conf ipv4 ipv6 =
    then_result (add_v4_result conf ipv4 empty_result)
      λ r. then_result (add_v6_result conf ipv6 r) non_empty

-- Does the configuration name an address, and does it survive printing and parsing?
unfoldable pub has_address : IpNet → Bool
has_address address = not (is_nil address.ip) && not (is_nil (parse_ip (show_ip address.ip)))

unfoldable pub validate_del_configuration : IpamConfig → Result (Unit {0})
validate_del_configuration conf =
    if text_eq conf.id []
      && not (has_address conf.ipv4_address)
      && not (has_address conf.ipv6_address)
    then err
        (message "del commands: ip address (ipv4 or ipv6) and id can not all be empty for deletion")
    else ok tt

module _ (S : Store) where
  -- An Update whose error is only logged.
  unfoldable pub update_or_warn : Text → Text → IpManager S → IpManager S
  update_or_warn key value m = (update S key value m).1

  unfoldable pub verify_gateway : Ip → Exec (IpManager S) (Unit {0})
  verify_gateway gw m = elim (get S (show_ip gw) m) [
    | err e ↦ (err (wrap e "verifyGateway commands: failed to get the value of gateway"), m)
    | ok value ↦
        if text_eq value []
        then ◌note◌ (assign S (show_ip gw) gateway_value)
            "verifyGateway commands: failed to update gateway into the db" m
        else if text_eq value gateway_value
        then (ok tt, m)
        else (err (message "verifyGateway commands: ip of gateway has already been used"), m)
  ]

  unfoldable pub verify_gateway_v6 : Ip → Exec (IpManager S) (Unit {0})
  verify_gateway_v6 gw m = elim (get S (ip_prefix_v6 ++ show_ip gw) m) [
    | err e ↦ (err (wrap e "verifyGatewayV6 commands: failed to get the value of IPv6 gateway"), m)
    | ok value ↦
        if text_eq value []
        then ◌note◌ (assign S (ip_prefix_v6 ++ show_ip gw) gateway_v6_value)
            "verifyGatewayV6 commands: failed to update IPv6 gateway into the db" m
        else if text_eq value gateway_v6_value
        then (ok tt, m)
        else (err (message "verifyGatewayV6 commands: ip of IPv6 gateway has already been used"), m)
  ]

  -- Where the search of getIPV4AddressFromDB starts.
  unfoldable pub start_ipv4 : IpamConfig → IpManager S → Result Ip
  start_ipv4 conf m = elim (exists S last_known_ip_key m) [
    | err e ↦ err (wrap e "getIPV4AddressFromDB commands: failed to read the db")
    | ok false ↦ ok (mask_ip conf.ipv4_subnet.ip conf.ipv4_subnet.mask)
    | ok true ↦ elim (get S last_known_ip_key m) [
      | err e ↦
          err (wrap e "getIPV4AddressFromDB commands: failed to get lask known ip from the db")
      | ok text ↦ ok (parse_ip text)
    ]
  ]

  unfoldable pub start_ipv6 : IpamConfig → IpManager S → Result Ip
  start_ipv6 conf m = elim (exists S last_known_ipv6_key m) [
    | err e ↦ err (wrap e "getIPV6AddressFromDB commands: failed to read the db")
    | ok false ↦ ok (masked16 conf.ipv6_subnet)
    | ok true ↦ elim (get S last_known_ipv6_key m) [
      | err e ↦
          err (wrap e "getIPV6AddressFromDB commands: failed to get last known IPv6 ip from the db")
      | ok text ↦ ok (parse_ip text)
    ]
  ]

  -- The fuel is that of the search for a free address.
  module _ (fuel : ℕ) where
    unfoldable pub get_ipv4_address_from_db : IpamConfig → Exec (IpManager S) Text
    get_ipv4_address_from_db conf m = elim (start_ipv4 conf m) [
      | err e ↦ (err e, m)
      | ok start ↦
          ◌note◌ (get_available_ip S fuel conf.id)
            "getIPV4AddressFromDB commands: failed to get available ip from the db"
            (set_last_known_ip S start m)
    ]

    unfoldable pub get_ipv4_address : IpamConfig → Exec (IpManager S) IpNet
    get_ipv4_address conf =
        if not (is_nil conf.ipv4_address.ip)
        then (do
          assign S (show_ip conf.ipv4_address.ip) conf.id
              note "getIPV4Address commands: failed to mark this ip %v as used"
          pure conf.ipv4_address)
        else (do
          next_ip ← get_ipv4_address_from_db conf
          pure (record { ip = parse_ip next_ip; mask = conf.ipv4_subnet.mask }))

    unfoldable pub get_ipv6_address_from_db : IpamConfig → Exec (IpManager S) Text
    get_ipv6_address_from_db conf m = elim (start_ipv6 conf m) [
      | err e ↦ (err e, m)
      | ok start ↦
          ◌note◌ (get_available_ipv6 S fuel conf.id)
            "getIPV6AddressFromDB commands: failed to get available IPv6 ip from the db"
            (set_last_known_ipv6 S start m)
    ]

    unfoldable pub get_ipv6_address : IpamConfig → Exec (IpManager S) IpNet
    get_ipv6_address conf =
        if not (is_nil conf.ipv6_address.ip)
        then (do
          assign S (ip_prefix_v6 ++ show_ip conf.ipv6_address.ip) (conf.id ++ codes "-v6")
              note "getIPV6Address commands: failed to mark this ip %v as used"
          pure conf.ipv6_address)
        else (do
          next_ip ← get_ipv6_address_from_db conf
          pure (record { ip = parse_ip next_ip; mask = conf.ipv6_subnet.mask }))

    -- The block of `add` for each family.
    unfoldable pub add_ipv4 : IpamConfig → Exec (IpManager S) (Option IpNet)
    add_ipv4 conf = if not (has_ipv4 conf) then pure none else do
      verify_gateway conf.ipv4_gateway
      ipv4 ← get_ipv4_address conf
      λ m. (ok (some ipv4), update_or_warn last_known_ip_key (show_ip ipv4.ip) m)

    unfoldable pub add_ipv6 : IpamConfig → Exec (IpManager S) (Option IpNet)
    add_ipv6 conf = if not (has_ipv6 conf) then pure none else do
      verify_gateway_v6 conf.ipv6_gateway
      ipv6 ← get_ipv6_address conf
      λ m. (ok (some ipv6), update_or_warn last_known_ipv6_key (show_ip ipv6.ip) m)

    -- `add` up to the printing of its result.
    unfoldable pub add_result : IpamConfig → Exec (IpManager S) CniResult
    add_result conf = do
      ipv4 ← add_ipv4 conf
      ipv6 ← add_ipv6 conf
      lift (construct_results conf ipv4 ipv6)

    unfoldable pub add :
        (CniResult → Text → Result (Unit {0})) → IpamConfig → Text → Exec (IpManager S) (Unit {0})
    add print_result conf cni_version = do
      result ← add_result conf
      lift (print_result result cni_version)

  -- The addresses that `del` releases, and what it returns of them.
  unfoldable pub release_addresses : IpamConfig → Exec (IpManager S) (Text × Text)
  release_addresses conf =
      let v4_text = show_ip conf.ipv4_address.ip in
      let v6_text = show_ip conf.ipv6_address.ip in
      do
        v4 ← if has_address conf.ipv4_address then (do release S v4_text; pure v4_text) else pure []
        v6 ←
            if has_address conf.ipv6_address
            then (do release S (ip_prefix_v6 ++ v6_text); pure v6_text)
            else pure []
        pure (v4, v6)

  unfoldable pub record_released : Text → Text → IpManager S → IpManager S
  record_released key text m = if text_eq text [] then m else update_or_warn key text m

  unfoldable pub del : IpamConfig → Exec (IpManager S) (Unit {0})
  del conf = do
    (v4, v6) ←
        if has_address conf.ipv4_address || has_address conf.ipv6_address
        then release_addresses conf
        else release_by_id S conf.id
    λ m. (ok tt, record_released last_known_ipv6_key v6 (record_released last_known_ip_key v4 m))
