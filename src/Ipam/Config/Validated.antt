-- ===== src/Ipam/Config/Validated.antt =====
-- A configuration that LoadIPAMConfig lets through.
use amazon_ecs_cni_plugins.Base.{
  ◌+◌, ◌%◌, ◌^◌, ◌≤◌, ◌<◌, ◌↔◌, ℕ, ◌≡◌, ◌∙◌, sym, ap, arith, inl, inr, Bool-cases, Result-cases,
  true, ok, err,
}
use amazon_ecs_cni_plugins.Net.{Ip, v4, is_nil, to4}
use amazon_ecs_cni_plugins.IpStore.Next.Cycle.{IsIpv4Subnet, size4, network4-le}
use amazon_ecs_cni_plugins.Ipam.Config.{
  IpamConfig, has_ipv4, has_ipv6, check_ipv4_address, ipv4_gateway_of, get_default_ipv4_gw,
  validate_ipv4, validate_ipv6, validate,
}
use amazon_ecs_cni_plugins.Ipam.Config.Usable.{
  IsUsable, check_ipv4_address_iff, ipv4_gateway_of_iff, not_nil,
}

module _ (cni_next_ip : Ip → Ip) where
  -- The IPv6 block leaves what belongs to IPv4.
  validate_ipv6-ipv4 :
      (c d : IpamConfig)
      → validate_ipv6 cni_next_ip c ≡ ok d
      → (d.ipv4_gateway ≡ c.ipv4_gateway)
        × (d.ipv4_address ≡ c.ipv4_address)
        × (d.ipv4_subnet ≡ c.ipv4_subnet)
  unfolding validate_ipv6
  validate_ipv6-ipv4 c d h = (ground arith, ground arith, ground arith)

  validate_ipv4-parts :
      (c d : IpamConfig)
      → validate_ipv4 cni_next_ip c ≡ ok d
      → (check_ipv4_address cni_next_ip c.ipv4_subnet c.ipv4_address.ip ≡ ok tt)
        × (ipv4_gateway_of cni_next_ip c.ipv4_subnet c.ipv4_gateway ≡ ok d.ipv4_gateway)
  unfolding validate_ipv4
  validate_ipv4-parts c d h = (ground arith, ground arith)

  validate-parts :
      (c d : IpamConfig)
      → has_ipv4 c ≡ true
      → validate cni_next_ip c ≡ ok d
      → (check_ipv4_address cni_next_ip c.ipv4_subnet c.ipv4_address.ip ≡ ok tt)
        × (ipv4_gateway_of cni_next_ip c.ipv4_subnet c.ipv4_gateway ≡ ok d.ipv4_gateway)
  unfolding validate
  validate-parts c d four h = elim (Result-cases (validate_ipv4 cni_next_ip c)) [
    | inr (e, q) ↦ let failed : err e ≡ ok d = rw (four, validate, q) at h in cc
    | inl (c', q) ↦
        let (address, gateway) = validate_ipv4-parts c c' q in
        elim (Bool-cases (has_ipv6 c')) [
          | inl six ↦ (address, gateway ∙ ap ok (sym (validate_ipv6-ipv4 c' d (ground arith)).0))
          | inr no_six ↦
              let same : c' ≡ d = ground arith in
              (address, gateway ∙ ap (λ (x : IpamConfig). ok x.ipv4_gateway) same)
        ]
  ]

  -- If a configuration with an IPv4 subnet whose network address does not start with a zero byte,
  -- an IPv4 address and an IPv4 gateway is let through, then the address and the gateway are
  -- addresses of the subnet other than its first and its last, and the gateway stays as it is.
  pub validate-IsUsable :
      (c d : IpamConfig) (base a g : ℕ) (v : IsIpv4Subnet c.ipv4_subnet base)
      → has_ipv4 c ≡ true
      → to4 c.ipv4_address.ip ≡ v4 a
      → to4 c.ipv4_gateway ≡ v4 g
      → validate cni_next_ip c ≡ ok d
      → IsUsable c.ipv4_subnet base v a
        × IsUsable c.ipv4_subnet base v g
        × (d.ipv4_gateway ≡ c.ipv4_gateway)
  unfolding ipv4_gateway_of
  validate-IsUsable c d base a g v four address gateway h =
      let (checked, kept) = validate-parts c d four h in
      let same : c.ipv4_gateway ≡ d.ipv4_gateway =
        ground (arith, not_nil c.ipv4_gateway g gateway) in
      let gateway_kept = kept ∙ ap ok (sym same) in
      (
        (check_ipv4_address_iff c.ipv4_subnet base v cni_next_ip c.ipv4_address.ip a address).0
            checked,
        (ipv4_gateway_of_iff c.ipv4_subnet base v cni_next_ip c.ipv4_gateway g gateway).0
            gateway_kept,
        sym same,
      )

  -- Without a gateway in the configuration, the gateway is what the CNI library gives for the
  -- address of the subnet.
  validate-default_gateway :
      (c d : IpamConfig)
      → has_ipv4 c ≡ true
      → is_nil c.ipv4_gateway ≡ true
      → validate cni_next_ip c ≡ ok d
      → d.ipv4_gateway ≡ cni_next_ip c.ipv4_subnet.ip
  unfolding ipv4_gateway_of get_default_ipv4_gw
  validate-default_gateway c d four missing h =
      let (checked, kept) = validate-parts c d four h in ground arith

  -- If a configuration with an IPv4 subnet whose network address does not start with a zero byte,
  -- and without an IPv4 gateway, is let through, the address that it gives with the subnet not
  -- being the last of the subnet, then its gateway is the address that follows that address, and
  -- it is other than the first and the last of the subnet exactly if that address is not the last
  -- but one of the subnet; for the NextIP of the CNI library as documented.
  pub validate-default_gateway_iff :
      (c d : IpamConfig) (base : ℕ) (v : IsIpv4Subnet c.ipv4_subnet base)
      → ((ip : Ip) (n : ℕ) → to4 ip ≡ v4 n → n + 1 < 2 ^ 32 → to4 (cni_next_ip ip) ≡ v4 (n + 1))
      → has_ipv4 c ≡ true
      → is_nil c.ipv4_gateway ≡ true
      → base % size4 c.ipv4_subnet + 1 < size4 c.ipv4_subnet
      → validate cni_next_ip c ≡ ok d
      → (to4 d.ipv4_gateway ≡ v4 (base + 1))
        × (IsUsable c.ipv4_subnet base v (base + 1)
            ↔ (base % size4 c.ipv4_subnet + 2 < size4 c.ipv4_subnet))
  validate-default_gateway_iff c d base v documented four missing room h =
      let size = size4 c.ipv4_subnet in
      let low : base % size ≤ base = omega (arith, v.first_byte) in
      let top = network4-le c.ipv4_subnet base v in
      let gateway = validate-default_gateway c d four missing h in
      (
        ap to4 gateway ∙ documented c.ipv4_subnet.ip base v.address (omega (arith, top, low)),
        (
          λ (o, same, lo, hi). omega (arith, low),
          λ more. (base % size + 1, omega (arith, low), omega arith, omega arith),
        ),
      )
