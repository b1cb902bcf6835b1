-- ===== src/Ipam/Config/UsableV6.antt =====
-- Which IPv6 addresses and gateways LoadIPAMConfig lets through, by their place in the subnet.
use amazon_ecs_cni_plugins.Base.{
  ℕ, ◌+◌, ◌/◌, ◌%◌, ◌^◌, ◌≤◌, ◌<◌, ◌≡◌, ◌↔◌, refl, ◌∙◌, ap, sym, arith, ◌==◌, true, false, ok,
  ==_iff,
}
use amazon_ecs_cni_plugins.Net.{Ip, IpNet, v6, equal, contains}
use amazon_ecs_cni_plugins.Net.Ipv6.{to4-v6, to16-v6, contains-v6, equal-v6}
use amazon_ecs_cni_plugins.IpStore.Next.Cycle6.{
  IsIpv6Subnet, size6, network6, size6-ge-four, subnet_eq, contains-offset6, low_eq,
}
use amazon_ecs_cni_plugins.Net.Ipv6.{equal-v6}
use amazon_ecs_cni_plugins.Ipam.Config.{
  verify_ip_subnet, is_ipv6_network_address, check_ipv6_address, ipv6_gateway_of,
}
use amazon_ecs_cni_plugins.Ipam.Config.Usable.{offset_of}

module _ (s : IpNet) (v : IsIpv6Subnet s) where
  -- The usable addresses of the subnet: all but the first.
  abbrev pub IsUsableV6 : ℕ → Type 0
  IsUsableV6 a = (o : ℕ) × (a ≡ network6 s + o) × (1 ≤ o) × (o < size6 s)

  contains-at : (a : ℕ) → 2 ^ 48 ≤ a → contains s (v6 a) ≡ (a / size6 s == s.ip.value / size6 s)
  contains-at a h =
      ap (λ (t : IpNet). contains t (v6 a)) (subnet_eq s v)
      ∙ contains-v6 s.ip.value a s.mask.ones s.mask.bits v.bits (omega (arith, v.high)) h

  is_ipv6_network_address-at : (a : ℕ) → is_ipv6_network_address s (v6 a) ≡ (a == network6 s)
  unfolding is_ipv6_network_address
  is_ipv6_network_address-at a = ap (equal (v6 a)) (low_eq s v) ∙ equal-v6 a (network6 s)

  accepted-IsUsableV6 :
      (a : ℕ)
      → 2 ^ 48 ≤ a
      → contains s (v6 a) ≡ true
      → is_ipv6_network_address s (v6 a) ≡ false
      → IsUsableV6 a
  accepted-IsUsableV6 a h inside other =
      let block : (a / size6 s == s.ip.value / size6 s) ≡ true = sym (contains-at a h) ∙ inside in
      let (at, below) =
        offset_of s.ip.value a (size6 s) (omega (arith, size6-ge-four s v))
          ((==_iff _ _).0 block) in
      let away : (a == network6 s) ≡ false = sym (is_ipv6_network_address-at a) ∙ other in
      (a % size6 s, sym at, ground arith, below)

  usable-accepted :
      (a : ℕ)
      → IsUsableV6 a
      → (contains s (v6 a) ≡ true) × (is_ipv6_network_address s (v6 a) ≡ false)
  usable-accepted a (o, same, lo, hi) = (
    ap (λ n. contains s (v6 n)) same ∙ contains-offset6 s v o hi,
    is_ipv6_network_address-at a ∙ ground arith,
  )

  -- In an IPv6 subnet that the configuration lets through, whose network address is at least 2 to
  -- the 48th, an IPv6 address of at least 2 to the 48th that the configuration names is accepted,
  -- and such a gateway is accepted as it is, exactly if it is an address of the subnet other than
  -- its first.
  pub check_ipv6_address_iff :
      (cni_next_ip : Ip → Ip) (a : ℕ)
      → 2 ^ 48 ≤ a
      → ((check_ipv6_address cni_next_ip s (v6 a) ≡ ok tt) ↔ IsUsableV6 a)
        × ((ipv6_gateway_of cni_next_ip s (v6 a) ≡ ok (v6 a)) ↔ IsUsableV6 a)
  unfolding check_ipv6_address ipv6_gateway_of verify_ip_subnet
  check_ipv6_address_iff cni_next_ip a h =
      let four = to4-v6 a h in
      (
        (
          λ e. accepted-IsUsableV6 a h (ground (arith, four)) (ground (arith, four)),
          λ u. let (inside, other) = usable-accepted a u in rw (four, to16-v6, inside, other) refl,
        ),
        (
          λ e. accepted-IsUsableV6 a h (ground (arith, four)) (ground (arith, four)),
          λ u. let (inside, other) = usable-accepted a u in rw (four, to16-v6, inside, other) refl,
        ),
      )
