-- ===== src/IpStore/Next/Cycle.antt =====
-- NextIP against an independent description: the usable offsets of a subnet, in a cycle.
use amazon_ecs_cni_plugins.Base.{
  ℕ, ◌≡◌, ok, ◌+◌, ◌-◌, ◌%◌, ◌*◌, ◌^◌, ◌≤◌, ◌<◌, min, arith, ltb, if◌then◌else◌,
}
use amazon_ecs_cni_plugins.Base.{false, ap, true, ==_refl}
use amazon_ecs_cni_plugins.Base.Powers.{pow-ge-four, two-pow-add, block-le, block-div}
use amazon_ecs_cni_plugins.Net.{Ip, IpNet, v4, to4, equal, contains}
use amazon_ecs_cni_plugins.Net.Ipv4.{to4-v4, mask_ip-v4, contains-v4, successor-v4}
use amazon_ecs_cni_plugins.IpStore.Next.{next_ip, skip_reserved, broadcast_of, max_mask}

-- The offset, in a subnet of `size` addresses, that follows the offset `o` among the usable ones,
-- 1 to size - 2.
abbrev pub next_offset : ℕ → ℕ → ℕ
next_offset size o = if ltb (o + 2) size then o + 1 else 1

-- An IPv4 subnet as the configuration lets through, around the address `base`: its network address
-- has a first byte that is not zero, so that no address of it loses bytes in a big.Int.
pub record IsIpv4Subnet (s : IpNet) (base : ℕ) : Type 0 where
  pub address : to4 s.ip ≡ v4 base
  pub bits : s.mask.bits ≡ 32
  pub few_ones : s.mask.ones ≤ 30
  pub range : base < 2 ^ 32
  pub first_byte : 2 ^ 24 ≤ base - base % 2 ^ (32 - s.mask.ones)

-- The number of addresses of the subnet, and its network address.
abbrev pub size4 : IpNet → ℕ
size4 s = 2 ^ (32 - s.mask.ones)

abbrev pub network4 : IpNet → ℕ → ℕ
network4 s base = base - base % size4 s

skip_reserved_lem :
    (network size o : ℕ)
    → 4 ≤ size
    → o < size
    → 2 ^ 24 ≤ network
    → network + size ≤ 2 ^ 32
    → skip_reserved 4 (v4 (network + o)) (v4 network) (v4 (network + (size - 1))) (v4 (network + o))
      ≡ ok (v4 (network + next_offset size o))
unfolding skip_reserved equal
skip_reserved_lem network size o s f lo hi =
    ground (arith, successor-v4 network, successor-v4 (network + o), successor-v4 (network + o + 1))

module _ (s : IpNet) (base : ℕ) (v : IsIpv4Subnet s base) where
  pub size4-ge-four : 4 ≤ size4 s
  size4-ge-four = pow-ge-four (32 - s.mask.ones) (omega arith)

  pub size4-split : size4 s * 2 ^ s.mask.ones ≡ 2 ^ 32
  size4-split =
      let e : 32 - s.mask.ones + s.mask.ones ≡ 32 = omega arith in
      rw (← two-pow-add (32 - s.mask.ones) s.mask.ones, e)

  pub network4-le : network4 s base + size4 s ≤ 2 ^ 32
  network4-le = rw size4-split at (
      block-le base (size4 s) (2 ^ s.mask.ones) (omega (arith, size4-ge-four))
        (rw size4-split v.range))

  pub contains-offset :
      (ip : Ip) (o : ℕ) → to4 ip ≡ v4 (network4 s base + o) → o < size4 s → contains s ip ≡ true
  contains-offset ip o e l =
      rw (contains-v4 s ip base _ v.address v.bits e, block-div base (size4 s) o l) (==_refl _)

  pub broadcast_of_lem :
      broadcast_of (v4 (network4 s base)) s.mask ≡ ok (v4 (network4 s base + (size4 s - 1)))
  unfolding broadcast_of
  broadcast_of_lem =
      let e : min s.mask.ones 32 ≡ s.mask.ones = omega arith in
      rw (v.bits, e) (ap (λ x. ok (v4 x)) (omega arith))

  -- In an IPv4 subnet that the configuration lets through, whose network address has a first byte
  -- that is not zero, NextIP of the address with a given offset is the address with the next
  -- usable offset, from 1 to the size less 2, cyclically.
  pub next_ip-cycle :
      (ip : Ip) (o : ℕ)
      → to4 ip ≡ v4 (network4 s base + o)
      → o < size4 s
      → next_ip ip s ≡ ok (v4 (network4 s base + next_offset (size4 s) o))
  unfolding next_ip
  next_ip-cycle ip o e l =
      let few : ltb max_mask s.mask.ones ≡ false = ground arith in
      rw
        (
          few,
          e,
          contains-offset (v4 (network4 s base + o)) o (to4-v4 _) l,
          mask_ip-v4 s.ip s.mask base v.address v.bits,
          broadcast_of_lem,
        )
        (skip_reserved_lem (network4 s base) (size4 s) o size4-ge-four l v.first_byte network4-le)
