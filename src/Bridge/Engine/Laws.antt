-- ===== src/Bridge/Engine/Laws.antt =====
-- The links of the bridge plugin, the result of the IPAM plugin and the block of the metadata.
use amazon_ecs_cni_plugins.Base.{
  ℕ, ◌/◌, ◌%◌, ◌≤◌, ◌<◌, ◌≡◌, ◌↔◌, refl, ◌∙◌, ap, subst, arith, ◌==◌, length,
}
use amazon_ecs_cni_plugins.Base.{
  Text, true, false, ◌&&◌, Option, none, some, List, [], ◌∷◌, map, onto, ok, All,
}
use amazon_ecs_cni_plugins.Base.Bytes.{down_from, down_from-at}
use amazon_ecs_cni_plugins.Base.Exec.{continue-ok, ◌>>=◌}
use amazon_ecs_cni_plugins.Net.{IpNet, is_nil, is_nil_mask}
use amazon_ecs_cni_plugins.Cni.{IpConfig, CniResult}
use amazon_ecs_cni_plugins.Host.{Host, Link, History, route_add, link_set_up}
use amazon_ecs_cni_plugins.Bridge.Engine.{
  local_unicast, check_ip_configs, check_ipam_result, block_endpoints, blackhole_route,
  create_bridge, ensure_bridge, lookup_bridge, bring_up, create_if_missing,
}

bits_table :
    down_from
      (λ b.
        (local_unicast b % 2 == 0)
        && (local_unicast b / 2 % 2 == 1)
        && (local_unicast b / 4 == b / 4))
      255
    ≡ true
unfolding down_from local_unicast
bits_table = refl

-- For a byte, the first byte of the bridge's MAC address has lowest bit 0 (unicast) and second bit
-- 1 (locally administered), and its other bits are those of the random byte.
pub local_unicast_bits :
    (b : ℕ)
    → b < 256
    → (local_unicast b % 2 ≡ 0) × (local_unicast b / 2 % 2 ≡ 1) × (local_unicast b / 4 ≡ b / 4)
local_unicast_bits b h =
    let row =
      down_from-at
        (λ x.
          (local_unicast x % 2 == 0)
          && (local_unicast x / 2 % 2 == 1)
          && (local_unicast x / 4 == x / 4))
        255 b (omega arith) bits_table in
    (ground arith, ground arith, ground arith)

-- What RunIPAMPluginAdd wants of each address.
abbrev pub HasMaskAndGateway : IpConfig → Type 0
HasMaskAndGateway c = (is_nil_mask c.address.mask ≡ false) × (is_nil c.gateway ≡ false)

check_ip_configs-All : (cs : List IpConfig) → check_ip_configs cs ≡ ok tt → All HasMaskAndGateway cs
unfolding check_ip_configs
check_ip_configs-All [] h = tt
check_ip_configs-All (c ∷ cs) h =
    ((ground arith, ground arith), check_ip_configs-All cs (ground arith))

check_ip_configs-of_All :
    (cs : List IpConfig) → All HasMaskAndGateway cs → check_ip_configs cs ≡ ok tt
unfolding check_ip_configs
check_ip_configs-of_All [] a = refl
check_ip_configs-of_All (c ∷ cs) ((m, g), a) = rw (m, g) (check_ip_configs-of_All cs a)

-- A result of the IPAM plugin is accepted, as it is, exactly if it has one or two addresses and
-- each of them has a mask and a gateway.
pub check_ipam_result_iff :
    (host : Host) (r s : CniResult)
    → (check_ipam_result host r ≡ ok s)
      ↔ ((r ≡ s) × (1 ≤ length r.ips) × (length r.ips ≤ 2) × All HasMaskAndGateway r.ips)
unfolding check_ipam_result
check_ipam_result_iff host r s =
    (accepted, λ (e, lo, hi, a). ground (arith, check_ip_configs-of_All r.ips a))
  where
    accepted :
        check_ipam_result host r ≡ ok s
        → (r ≡ s) × (1 ≤ length r.ips) × (length r.ips ≤ 2) × All HasMaskAndGateway r.ips
    accepted h =
        (ground arith, ground arith, ground arith, check_ip_configs-All r.ips (ground arith))

module _ (host : Host) where
  -- If the block of the metadata endpoints succeeds, it has asked for one blackhole route for each
  -- endpoint, in order, and for nothing else.
  pub block_endpoints-trace :
      (endpoints : List IpNet) (h : History)
      → (block_endpoints host endpoints h).0 ≡ ok tt
      → (block_endpoints host endpoints h).1
        ≡ onto (map (λ e. route_add (blackhole_route e)) endpoints) h
  unfolding block_endpoints
  block_endpoints-trace [] h e = refl
  block_endpoints-trace (n ∷ ns) h e =
      ground (arith, block_endpoints-trace ns (route_add (blackhole_route n) ∷ h))

  -- A bridge that the host has found by its name.
  abbrev IsBridgeNamed : Text → Link → Type 0
  IsBridgeNamed name l = (l.is_bridge ≡ true) × ((h : History) × (host.link_of h name ≡ ok l))

  lookup_bridge-IsBridge :
      (name : Text) (h : History) (b : Link)
      → (lookup_bridge host name h).0 ≡ ok (some b)
      → IsBridgeNamed name b
  unfolding lookup_bridge
  lookup_bridge-IsBridge name h b e = (ground arith, (h, ground arith))

  ensure_bridge-IsBridge :
      (name : Text) (mtu : ℕ) (found : Option Link) (h : History) (b : Link)
      → ((l : Link) → found ≡ some l → IsBridgeNamed name l)
      → (ensure_bridge host name mtu found h).0 ≡ ok (some b)
      → IsBridgeNamed name b
  unfolding ensure_bridge
  ensure_bridge-IsBridge name mtu (some l) h b good e = good b (ground arith)
  ensure_bridge-IsBridge name mtu none h b good e =
      let (u, done, same) =
        continue-ok (create_if_missing host name mtu h) (λ _. lookup_bridge host name) (some b) e in
      lookup_bridge-IsBridge name (create_if_missing host name mtu h).1 b
        (subst (λ r. r.0 ≡ ok (some b)) same e)

  bring_up-ok :
      (o : Option Link) (h : History) (b : Link)
      → (bring_up host o h).0 ≡ ok b
      → (o ≡ some b) × ((bring_up host o h).1 ≡ link_set_up b ∷ h)
  unfolding bring_up
  bring_up-ok none h b e = (cc, cc)
  bring_up-ok (some l) h b e = (ground arith, ground arith)

  -- If CreateBridge succeeds, the link that it returns is a bridge that was found under the name, and
  -- its last call brought that link up.
  pub create_bridge-ok :
      (name : Text) (mtu : ℕ) (h : History) (b : Link)
      → (create_bridge host name mtu h).0 ≡ ok b
      → IsBridgeNamed name b
        × ((rest : History) × ((create_bridge host name mtu h).1 ≡ link_set_up b ∷ rest))
  unfolding create_bridge
  create_bridge-ok name mtu h b e =
      let first = lookup_bridge host name h in
      let (found, e1, q1) =
        continue-ok first (λ o. ensure_bridge host name mtu o >>= bring_up host) b e in
      let second = ensure_bridge host name mtu found first.1 in
      let e' = subst (λ r. r.0 ≡ ok b) q1 e in
      let (o, e2, q2) = continue-ok second (bring_up host) b e' in
      let (same, trace) = bring_up-ok o second.1 b (subst (λ r. r.0 ≡ ok b) q2 e') in
      (
        ensure_bridge-IsBridge name mtu found first.1 b
            (λ l is. lookup_bridge-IsBridge name h l (e1 ∙ ap ok is)) (e2 ∙ ap ok same),
        (second.1, ap (λ r. r.1) (q1 ∙ q2) ∙ trace),
      )
