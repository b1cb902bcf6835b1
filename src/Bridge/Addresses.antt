-- ===== src/Bridge/Addresses.antt =====
-- ConfigureBridge of plugins/ecs-bridge/engine/engine.go: the addresses of the bridge.
pub mod Scans
pub mod Rounds
pub mod Networks
pub mod Described
use amazon_ecs_cni_plugins.Base.{
  ◌==◌, ◌/◌, ◌^◌, if◌then◌else◌, Text, text_eq, Bool, true, false, not, ◌&&◌,
}
use amazon_ecs_cni_plugins.Base.{List, [], ◌∷◌}
use amazon_ecs_cni_plugins.Base.{message, wrap, Result, ok, err}
use amazon_ecs_cni_plugins.Base.Exec.{pure, raise, ◌>>=◌, ◌>>◌}
use amazon_ecs_cni_plugins.Net.{Ip, IpMask, IpNet, is_nil, to4, cidr_mask, is_link_local_unicast}
use amazon_ecs_cni_plugins.Net.Format.{show_net}
use amazon_ecs_cni_plugins.Cni.{IpConfig}
use amazon_ecs_cni_plugins.Host.{
  Host, Link, Family, family_v4, family_v6, family_all, Action, ask, addr_list, addr_add, is_errno,
  says_file_exists,
}

-- The address family by the version of the address.
unfoldable pub family_of : Ip → Family
family_of ip = if is_nil (to4 ip) then family_v6 else family_v4

abbrev pub is_v6 : Family → Bool
is_v6 family_v4 = false
is_v6 family_v6 = true
is_v6 family_all = false

-- The mask that the bridge gets with the gateway's address.
unfoldable pub bridge_mask : Ip → IpMask → IpMask
bridge_mask gw mask =
    if is_link_local_unicast gw && not (is_nil (to4 gw))
    then cidr_mask 22 32
    else if is_link_local_unicast gw && is_nil (to4 gw)
    then cidr_mask 64 128
    else if is_nil (to4 gw) && (gw.len == 16) && (gw.value / 2 ^ 120 == 0xfd)
    then cidr_mask 112 128
    else mask

unfoldable pub bridge_network : IpConfig → IpNet
bridge_network c = record { ip = c.gateway; mask = bridge_mask c.gateway c.address.mask }

-- What the loop over the addresses of the bridge finds.
pub data Scan : Type 0 where
  exists conflict absent : Scan

unfoldable pub scan_addresses : Text → Family → Bool → List IpNet → Scan
scan_addresses cidr family seen [] = if seen then conflict else absent
scan_addresses cidr family seen (a ∷ addrs) =
    let rest =
      scan_addresses cidr family (if is_v6 family && is_link_local_unicast a.ip then seen else true)
        addrs in
    if text_eq (show_net a) cidr then exists else rest

abbrev no_entry : Result (List IpNet) → Result (List IpNet)
no_entry (ok addrs) = ok addrs
no_entry (err e) =
    if is_errno 2 e
    then ok []
    else err (wrap e "bridge configure: unable to list addresses for bridge %s")

abbrev assigned : Result (Unit {0}) → Result (Unit {0})
assigned (ok u) = ok u
assigned (err e) =
    if says_file_exists e
    then ok tt
    else err (wrap e "bridge configure: unable to assign ip address to bridge %s")

module _ (host : Host) (bridge : Link) where
  unfoldable pub list_addresses : Family → Action (List IpNet)
  list_addresses family =
      ask (addr_list bridge family) (λ h. no_entry (host.addresses h bridge family))

  unfoldable pub assign_address : IpNet → Action (Unit {0})
  assign_address network =
      ask (addr_add bridge network) (λ h. assigned (host.done h (addr_add bridge network)))

  unfoldable pub settle : Scan → IpNet → Action (Unit {0})
  settle exists network = pure tt
  settle conflict network =
      raise (message "bridge configure: mismatch in bridge %s address for family %d")
  settle absent network = assign_address network

  -- One round of the loop over the IP configurations.
  unfoldable pub configure_address : IpConfig → Action (Unit {0})
  configure_address c = do
    addrs ← list_addresses (family_of c.address.ip)
    settle (scan_addresses (show_net (bridge_network c)) (family_of c.address.ip) false addrs)
        (bridge_network c)

  unfoldable pub configure_bridge : List IpConfig → Action (Unit {0})
  configure_bridge [] = pure tt
  configure_bridge (c ∷ cs) = do configure_address c; configure_bridge cs
