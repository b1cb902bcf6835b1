-- ===== src/Ipam/Config/ValidatedV6.antt =====
-- A configuration with an IPv6 subnet that LoadIPAMConfig lets through.
use amazon_ecs_cni_plugins.Base.{
  ℕ, ◌^◌, ◌≤◌, ◌≡◌, ◌∙◌, sym, ap, arith, refl, inl, inr, Bool-cases, Result-cases, true, ok, err,
}
use amazon_ecs_cni_plugins.Net.{Ip, IpNet, v6}
use amazon_ecs_cni_plugins.IpStore.Next.Cycle6.{IsIpv6Subnet}
use amazon_ecs_cni_plugins.Ipam.Config.{
  IpamConfig, has_ipv4, has_ipv6, check_ipv6_address, ipv6_gateway_of, validate_ipv4, validate_ipv6,
  validate,
}
use amazon_ecs_cni_plugins.Ipam.Config.UsableV6.{IsUsableV6, check_ipv6_address_iff}

module _ (cni_next_ip : Ip → Ip) where
  -- The IPv4 block leaves what belongs to IPv6.
  validate_ipv4-ipv6 :
      (c d : IpamConfig)
      → validate_ipv4 cni_next_ip c ≡ ok d
      → (d.ipv6_gateway ≡ c.ipv6_gateway)
        × (d.ipv6_address ≡ c.ipv6_address)
        × (d.ipv6_subnet ≡ c.ipv6_subnet)
  unfolding validate_ipv4
  validate_ipv4-ipv6 c d h = (ground arith, ground arith, ground arith)

  validate_ipv6-parts :
      (c d : IpamConfig)
      → validate_ipv6 cni_next_ip c ≡ ok d
      → (check_ipv6_address cni_next_ip c.ipv6_subnet c.ipv6_address.ip ≡ ok tt)
        × (ipv6_gateway_of cni_next_ip c.ipv6_subnet c.ipv6_gateway ≡ ok d.ipv6_gateway)
  unfolding validate_ipv6
  validate_ipv6-parts c d h = (ground arith, ground arith)

  -- The configuration that the IPv6 block works on.
  validate-before :
      (c d : IpamConfig)
      → has_ipv6 c ≡ true
      → validate cni_next_ip c ≡ ok d
      → (b : IpamConfig) × (validate_ipv6 cni_next_ip b ≡ ok d)
        × (b.ipv6_gateway ≡ c.ipv6_gateway)
        × (b.ipv6_address ≡ c.ipv6_address)
        × (b.ipv6_subnet ≡ c.ipv6_subnet)
  unfolding validate has_ipv6
  validate-before c d six h = elim (Bool-cases (has_ipv4 c)) [
    | inr no_four ↦ (c, ground arith, refl, refl, refl)
    | inl four ↦ elim (Result-cases (validate_ipv4 cni_next_ip c)) [
      | inr (e, q) ↦ let failed : err e ≡ ok d = rw (four, validate, q) at h in cc
      | inl (b, q) ↦
          let (gateway, address, subnet) = validate_ipv4-ipv6 c b q in
          let on : has_ipv6 b ≡ true = ground arith in
          (b, rw (four, validate, q, on) at h, gateway, address, subnet)
    ]
  ]

  -- A gateway that is named is kept.
  ipv6_gateway_of-kept :
      (s : IpNet) (n : ℕ) (gw : Ip) → ipv6_gateway_of cni_next_ip s (v6 n) ≡ ok gw → gw ≡ v6 n
  unfolding ipv6_gateway_of
  ipv6_gateway_of-kept s n gw h = ground arith

  -- If a configuration with an IPv6 subnet whose network address is at least 2 to the 48th, and
  -- with an IPv6 address and an IPv6 gateway that are at least 2 to the 48th, is let through, with
  -- or without an IPv4 subnet, then the address and the gateway are addresses of the subnet other
  -- than its first, and the gateway stays as it is.
  pub validate-IsUsableV6 :
      (c d : IpamConfig) (a g : ℕ) (v : IsIpv6Subnet c.ipv6_subnet)
      → has_ipv6 c ≡ true
      → c.ipv6_address.ip ≡ v6 a
      → 2 ^ 48 ≤ a
      → c.ipv6_gateway ≡ v6 g
      → 2 ^ 48 ≤ g
      → validate cni_next_ip c ≡ ok d
      → IsUsableV6 c.ipv6_subnet v a
        × IsUsableV6 c.ipv6_subnet v g
        × (d.ipv6_gateway ≡ c.ipv6_gateway)
  validate-IsUsableV6 c d a g v six address high gateway high_g h =
      let (b, done, same_gateway, same_address, same_subnet) = validate-before c d six h in
      let (checked, kept) = validate_ipv6-parts b d done in
      let here = rw (same_subnet, same_address, address) at checked in
      let there = rw (same_subnet, same_gateway, gateway) at kept in
      let same = ipv6_gateway_of-kept c.ipv6_subnet g d.ipv6_gateway there in
      (
        (check_ipv6_address_iff c.ipv6_subnet v cni_next_ip a high).0.0 here,
        (check_ipv6_address_iff c.ipv6_subnet v cni_next_ip g high_g).1.0 (there ∙ ap ok same),
        same ∙ sym gateway,
      )
