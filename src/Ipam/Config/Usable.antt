-- ===== src/Ipam/Config/Usable.antt =====
-- Which addresses and gateways LoadIPAMConfig lets through, by their place in the subnet.
use amazon_ecs_cni_plugins.Base.{
  ℕ, ◌+◌, ◌-◌, ◌/◌, ◌%◌, ◌≤◌, ◌<◌, ◌≡◌, ◌↔◌, ◌||◌, refl, ◌∙◌, ap, sym, arith, ◌==◌, Bool, true,
  false, Result, ok, err, ==_iff,
}
use amazon_ecs_cni_plugins.Net.{Ip, IpNet, v4, is_nil, to4, equal, contains}
use amazon_ecs_cni_plugins.Net.Ipv4.{mask_ip-v4, contains-v4}
use amazon_ecs_cni_plugins.IpStore.Next.Cycle.{
  IsIpv4Subnet, size4, network4, size4-ge-four, contains-offset, broadcast_of_lem,
}
use amazon_ecs_cni_plugins.Ipam.Config.{
  verify_ip_subnet, is_network_or_broadcast, check_ipv4_address, ipv4_gateway_of,
}

equal-to4 : (ip : Ip) (a n : ℕ) → to4 ip ≡ v4 a → equal ip (v4 n) ≡ (a == n)
unfolding to4 equal
equal-to4 ip a n e = ground arith

pub not_nil : (ip : Ip) (a : ℕ) → to4 ip ≡ v4 a → is_nil ip ≡ false
unfolding to4
not_nil ip a e = ground arith

-- The offset of an address that is in the block of `base`.
pub offset_of :
    (base a size : ℕ)
    → 1 ≤ size
    → a / size ≡ base / size
    → (base - base % size + a % size ≡ a) × (a % size < size)
offset_of base a size p h = (grind arith, omega arith)

module _ (s : IpNet) (base : ℕ) (v : IsIpv4Subnet s base) where
  -- The usable addresses of the subnet: all but the first and the last.
  abbrev pub IsUsable : ℕ → Type 0
  IsUsable a = (o : ℕ) × (a ≡ network4 s base + o) × (1 ≤ o) × (o + 1 < size4 s)

  is_network_or_broadcast-at :
      (ip : Ip) (a : ℕ)
      → to4 ip ≡ v4 a
      → is_network_or_broadcast s ip
        ≡ ok ((a == network4 s base) || (a == network4 s base + (size4 s - 1)))
  unfolding is_network_or_broadcast
  is_network_or_broadcast-at ip a e =
      rw
        (
          mask_ip-v4 s.ip s.mask base v.address v.bits,
          broadcast_of_lem s base v,
          equal-to4 ip a (network4 s base) e,
          equal-to4 ip a (network4 s base + (size4 s - 1)) e,
        )
        refl

  verify-accepts : (ip : Ip) (a : ℕ) → to4 ip ≡ v4 a → IsUsable a → verify_ip_subnet ip s ≡ ok tt
  unfolding verify_ip_subnet
  verify-accepts ip a e (o, same, lo, hi) =
      rw (contains-offset s base v ip o (e ∙ ap v4 same) (omega arith)) refl

  verify-offset :
      (ip : Ip) (a : ℕ)
      → to4 ip ≡ v4 a
      → verify_ip_subnet ip s ≡ ok tt
      → (a ≡ network4 s base + a % size4 s) × (a % size4 s < size4 s)
  unfolding verify_ip_subnet
  verify-offset ip a e h =
      let inside : contains s ip ≡ true = ground arith in
      let block : (a / size4 s == base / size4 s) ≡ true =
        rw (contains-v4 s ip base a v.address v.bits e) at inside in
      let (p, q) =
        offset_of base a (size4 s) (omega (arith, size4-ge-four s base v)) ((==_iff _ _).0 block) in
      (sym p, q)

  accepted-IsUsable :
      (ip : Ip) (a : ℕ)
      → to4 ip ≡ v4 a
      → verify_ip_subnet ip s ≡ ok tt
      → is_network_or_broadcast s ip ≡ ok false
      → IsUsable a
  accepted-IsUsable ip a e inside h =
      let (at, below) = verify-offset ip a e inside in
      let free : ((a == network4 s base) || (a == network4 s base + (size4 s - 1))) ≡ false =
        rw (is_network_or_broadcast-at ip a e) at (ap is_true h) in
      (a % size4 s, at, ground arith, ground (arith, size4-ge-four s base v))
    where
      is_true : Result Bool → Bool
      is_true (ok b) = b
      is_true (err e) = true

  reserved-usable :
      (ip : Ip) (a : ℕ) → to4 ip ≡ v4 a → IsUsable a → is_network_or_broadcast s ip ≡ ok false
  reserved-usable ip a e (o, same, lo, hi) =
      is_network_or_broadcast-at ip a e ∙ ap ok (ground arith)

  -- In an IPv4 subnet that the configuration lets through, whose network address does not start
  -- with a zero byte, an IPv4 address that the configuration names is accepted exactly if it is an
  -- address of the subnet other than its first and its last.
  pub check_ipv4_address_iff :
      (cni_next_ip : Ip → Ip) (ip : Ip) (a : ℕ)
      → to4 ip ≡ v4 a
      → (check_ipv4_address cni_next_ip s ip ≡ ok tt) ↔ IsUsable a
  unfolding check_ipv4_address
  check_ipv4_address_iff cni_next_ip ip a e = (
    λ h. accepted-IsUsable ip a e (ground (arith, not_nil ip a e)) (ground (arith, not_nil ip a e)),
    λ u. ground (arith, not_nil ip a e, verify-accepts ip a e u, reserved-usable ip a e u),
  )

  -- In an IPv4 subnet that the configuration lets through, whose network address does not start
  -- with a zero byte, an IPv4 gateway that the configuration names is accepted, as it is, exactly
  -- if it is an address of the subnet other than its first and its last.
  pub ipv4_gateway_of_iff :
      (cni_next_ip : Ip → Ip) (gw : Ip) (a : ℕ)
      → to4 gw ≡ v4 a
      → (ipv4_gateway_of cni_next_ip s gw ≡ ok gw) ↔ IsUsable a
  unfolding ipv4_gateway_of
  ipv4_gateway_of_iff cni_next_ip gw a e = (
    λ h. accepted-IsUsable gw a e (ground (arith, not_nil gw a e)) (ground (arith, not_nil gw a e)),
    λ u. ground (arith, not_nil gw a e, verify-accepts gw a e u, reserved-usable gw a e u),
  )
