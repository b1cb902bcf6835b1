-- ===== src/Eni/Metadata.antt =====
-- plugins/eni/engine/engine.go: what the engine asks of the instance metadata and of the kernel,
-- with its retries.
pub mod Retries
use amazon_ecs_cni_plugins.Base.{
  ℕ, zero, suc, ◌-◌, if◌then◌else◌, Text, text_eq, codes, Bool, true, false, not, ◌&&◌,
}
use amazon_ecs_cni_plugins.Base.{Option, none, some, List, [], ◌∷◌, ◌++◌}
use amazon_ecs_cni_plugins.Base.{Error, message, wrap, Result, ok, err}
use amazon_ecs_cni_plugins.Base.Exec.{pure, raise, lift, ◌>>=◌, ◌>>◌, ◌note◌}
use amazon_ecs_cni_plugins.Net.{Ip, IpNet, is_nil}
use amazon_ecs_cni_plugins.Net.Format.{show_ip, split_on, byte_text}
use amazon_ecs_cni_plugins.Host.{
  Host, Link, Route, Action, ask, get_metadata, link_by_name, link_list, route_list, family_v6,
}
use amazon_ecs_cni_plugins.Utils.Gateway.{compute_ipv4_gateway_netmask}
use amazon_ecs_cni_plugins.Eni.Types.{Parsers}

abbrev pub interfaces_path : Text
interfaces_path = codes "network/interfaces/macs/"

abbrev pub interface_id_suffix : Text
interface_id_suffix = codes "interface-id"

abbrev pub ipv4_cidr_suffix : Text
ipv4_cidr_suffix = codes "/subnet-ipv4-cidr-block"

abbrev pub ipv4_addresses_suffix : Text
ipv4_addresses_suffix = codes "/local-ipv4s"

abbrev pub ipv6_addresses_suffix : Text
ipv6_addresses_suffix = codes "/ipv6s"

abbrev pub ipv6_cidr_suffix : Text
ipv6_cidr_suffix = codes "/subnet-ipv6-cidr-blocks"

-- maxTicksForRetrievingIPV6Gateway and instanceMetadataMaxRetryCount
abbrev pub max_ticks : ℕ
max_ticks = 10

abbrev pub max_retry_count : ℕ
max_retry_count = 20

-- The first field of a text split at a byte.
unfoldable pub first_field : ℕ → Text → Text
first_field sep s = elim (split_on sep s) [ [] ↦ [] | w ∷ ws ↦ w ]

-- Is the address one of the lines?
unfoldable pub has_line : Text → List Text → Bool
has_line address [] = false
has_line address (l ∷ ls) = if text_eq l address then true else has_line address ls

-- A default route with a gateway: no destination, no source.
unfoldable pub is_gateway_route : Route → Bool
is_gateway_route r = elim r.dst [ some _ ↦ false | none ↦ is_nil r.src && not (is_nil r.gw) ]

unfoldable pub find_gateway : List Route → Option Text
find_gateway [] = none
find_gateway (r ∷ rs) = if is_gateway_route r then some (show_ip r.gw) else find_gateway rs

-- The device of a hardware address, getLinkByHardwareAddress of nsclosure.go.
unfoldable pub find_link : Text → List Link → Result Link
find_link hardware_addr [] = err (message "engine: device with mac address not found")
find_link hardware_addr (l ∷ ls) =
    if text_eq l.hardware_addr hardware_addr then ok l else find_link hardware_addr ls

module _ (host : Host) where
  unfoldable pub metadata : Text → Action Text
  metadata path = ask (get_metadata path) (λ h. host.metadata h path)

  unfoldable pub get_all_mac_addresses : Action (List Text)
  get_all_mac_addresses = do
    macs ←
        metadata interfaces_path
        note "getAllMACAddresses engine: unable to get all mac addresses on the instance from instance metadata"
    pure (split_on 10 macs)

  -- A MAC address whose interface id cannot be read is passed over.
  unfoldable pub get_mac_address_of_eni : List Text → Text → Action Text
  get_mac_address_of_eni [] eni_id h =
      (err (message "getMACAddressOfENI engine: mac address of ENI not found"), h)
  get_mac_address_of_eni (mac ∷ macs) eni_id h =
      let (r, h') = metadata (interfaces_path ++ mac ++ interface_id_suffix) h in
      let rest = get_mac_address_of_eni macs eni_id h' in
      elim r [
        | err e ↦ rest
        | ok interface_id ↦
            if text_eq interface_id eni_id then (ok (first_field b'/' mac), h') else rest
      ]

  unfoldable pub get_link_by_hardware_address : Text → Action Link
  get_link_by_hardware_address hardware_addr = do
    links ← ask link_list host.links
    lift (find_link hardware_addr links)

  -- The routes of the device, once.
  unfoldable pub gateway_from_routes_once : Link → Action (Option Text)
  gateway_from_routes_once link = do
    routes ←
        ask (route_list link family_v6) (λ h. host.routes h link family_v6)
        note "getIPV6Gateway engine: unable to get ipv6 routes for device '%s'"
    pure (find_gateway routes)

  -- getIPV6GatewayIPFromRoutes, with the ticks that are left.
  unfoldable pub gateway_from_routes : ℕ → Link → Action Text
  gateway_from_routes zero link h =
      (err (message "getIPV6Gateway engine: unable to get gateway from route table for '%s'"), h)
  gateway_from_routes (suc ticks) link h =
      let (r, h') = gateway_from_routes_once link h in
      elim r [
        | err e ↦ (err e, h')
        | ok (some gateway) ↦ (ok gateway, h')
        | ok none ↦ gateway_from_routes ticks link h'
      ]

  unfoldable pub get_ipv6_gateway : Text → Action Text
  get_ipv6_gateway device_name = do
    link ←
        ask (link_by_name device_name) (λ h. host.link_of h device_name)
        note "getIPV6Gateway engine: unable to get link for device '%s'"
    gateway_from_routes max_ticks link

  -- The loop of doesMACAddressMapToIPAddress: the last answer, after the attempts that are left
  -- behind this one.
  unfoldable pub query_with_retries : ℕ → Text → Action Text
  query_with_retries zero path h = metadata path h
  query_with_retries (suc left) path h =
      let (r, h') = metadata path h in
      elim r [ ok response ↦ (ok response, h') | err e ↦ query_with_retries left path h' ]

  unfoldable pub does_mac_address_map_to_ip_address : Text → Text → Text → Action Bool
  does_mac_address_map_to_ip_address mac address suffix = do
    response ←
        query_with_retries (max_retry_count - 1) (interfaces_path ++ mac ++ suffix)
        note "querying metadata path: '%s'"
    pure (has_line address (split_on 10 response))

  unfoldable pub does_mac_address_map_to_ipv4_address : Text → Text → Action Bool
  does_mac_address_map_to_ipv4_address mac address =
      does_mac_address_map_to_ip_address mac address ipv4_addresses_suffix
      note "doesMACAddressMapToIPV4Address engine: unable to get ipv4 addresses from instance metadata"

  unfoldable pub does_mac_address_map_to_ipv6_address : Text → Text → Action Bool
  does_mac_address_map_to_ipv6_address mac address =
      does_mac_address_map_to_ip_address mac address ipv6_addresses_suffix
      note "doesMACAddressMapToIPv6Address engine: unable to get ipv6 addresses from instance metadata"

  module _ (parsers : Parsers) where
    unfoldable pub get_interface_device_name : Text → Action Text
    get_interface_device_name mac = do
      hardware_addr ←
          lift (parsers.parse_mac mac)
          note "getInterfaceDeviceName engine: malformatted mac address specified"
      link ←
          get_link_by_hardware_address hardware_addr
          note "getInterfaceDeviceName engine: unable to get device with hardware address '%s'"
      pure link.name

    unfoldable pub get_ipv4_gateway_netmask : Text → Action (Text × Text)
    get_ipv4_gateway_netmask mac = do
      cidr ←
          metadata (interfaces_path ++ mac ++ ipv4_cidr_suffix)
          note "getIPV4GatewayNetmask engine: unable to get ipv4 subnet and cidr block for '%s' from instance metadata"
      lift (compute_ipv4_gateway_netmask parsers.parse_cidr cidr)

    unfoldable pub ipv6_prefix_length : Text → Result Text
    ipv6_prefix_length cidr = elim (parsers.parse_cidr cidr) [
      | err e ↦ err (
          wrap e
            "getIPV6Netmask engine: unable to parse response for ipv6 cidr: '%s' from instance metadata")
      | ok (ip, net) ↦ ok (byte_text net.mask.ones)
    ]

    unfoldable pub get_ipv6_prefix_length : Text → Action Text
    get_ipv6_prefix_length mac = do
      cidr ←
          metadata (interfaces_path ++ mac ++ ipv6_cidr_suffix)
          note "getIPV6Netmask engine: unable to get ipv6 subnet and cidr block for '%s' from instance metadata"
      lift (ipv6_prefix_length cidr)
