-- ===== src/IpStore/Next/Cycle6.antt =====
-- NextIPv6 against the cycle of the offsets that are not the network address.
use amazon_ecs_cni_plugins.Base.{ℕ, ◌≡◌, ok, ◌+◌, ◌-◌, ◌%◌, ◌*◌, ◌^◌, ◌≤◌, ◌<◌, arith, suc, ltb}
use amazon_ecs_cni_plugins.Base.{
  false, ap, ◌∙◌, ◌≢◌, inl, inr, Bool-cases, if◌then◌else◌, true, ==_refl, ◌==◌,
}
use amazon_ecs_cni_plugins.Base.Powers.{pow-ge-four, two-pow-add, block-le, block-div}
use amazon_ecs_cni_plugins.Net.{IpNet, v6, equal, mask_ip, contains, successor}
use amazon_ecs_cni_plugins.Net.Ipv6.{
  to4-v6, to16-v6, mask_ip-v6, contains-v6, successor-len, successor-v6_value, successor-v6_eq,
}
use amazon_ecs_cni_plugins.IpStore.Next.{next_ipv6, skip_network, last_of, pad16, max_mask_ipv6}

-- The offset after `o` among 1 to size - 1.
abbrev pub next_offset6 : ℕ → ℕ → ℕ
next_offset6 size o = if ltb (o + 1) size then o + 1 else 1

pad16-successor : (n : ℕ) → n + 1 < 2 ^ 128 → pad16 (successor (v6 n)) ≡ v6 (n + 1)
unfolding pad16
pad16-successor n h = ground (arith, successor-len n h, successor-v6_value n, successor-v6_eq n)

skip_network-done :
    (fuel ip low high n : ℕ)
    → n ≢ ip
    → n ≢ low
    → skip_network (suc fuel) (v6 ip) (v6 low) (v6 high) (v6 n) ≡ ok (v6 n)
unfolding skip_network equal
skip_network-done fuel ip low high n p q = ground arith

-- A round at the address itself.
skip_network_self :
    (fuel ip low high : ℕ)
    → skip_network (suc fuel) (v6 ip) (v6 low) (v6 high) (v6 ip)
      ≡ skip_network fuel
          (v6 ip)
          (v6 low)
          (v6 high)
          (pad16 (successor (v6 (if ip == high then low else ip))))
unfolding skip_network equal
skip_network_self fuel ip low high = ground (arith, ==_refl ip)

skip_network_lem :
    (network size o : ℕ)
    → 4 ≤ size
    → o < size
    → network + size ≤ 2 ^ 128
    → skip_network 4 (v6 (network + o)) (v6 network) (v6 (network + (size - 1))) (v6 (network + o))
      ≡ ok (v6 (network + next_offset6 size o))
skip_network_lem network size o s f hi = elim (Bool-cases (ltb (o + 1) size)) [
  | inl inner ↦
      let e : (network + o == network + (size - 1)) ≡ false = ground arith in
      rw (skip_network_self, e, pad16-successor (network + o) (ground arith), inner)
        (skip_network-done 2 (network + o) network (network + (size - 1)) (network + o + 1)
            (omega arith) (omega arith)
          ∙ ap (λ (x : ℕ). ok (v6 x)) (omega arith))
  | inr last ↦
      let e : (network + o == network + (size - 1)) ≡ true = ground arith in
      rw (skip_network_self, e, pad16-successor network (omega arith), last)
        (skip_network-done 2 (network + o) network (network + (size - 1)) (network + 1)
          (ground arith) (omega arith))
]

abbrev pub size6 : IpNet → ℕ
size6 s = 2 ^ (128 - s.mask.ones)

abbrev pub network6 : IpNet → ℕ
network6 s = s.ip.value - s.ip.value % size6 s

-- An IPv6 subnet, outside the addresses below 2 ^ 48 (the mapped IPv4 addresses among them).
pub record IsIpv6Subnet (s : IpNet) : Type 0 where
  pub len : s.ip.len ≡ 16
  pub bits : s.mask.bits ≡ 128
  pub few_ones : s.mask.ones ≤ 126
  pub range : s.ip.value < 2 ^ 128
  pub high : 2 ^ 48 ≤ network6 s

module _ (s : IpNet) (v : IsIpv6Subnet s) where
  pub size6-ge-four : 4 ≤ size6 s
  size6-ge-four = pow-ge-four (128 - s.mask.ones) (omega arith)

  size6-split : size6 s * 2 ^ s.mask.ones ≡ 2 ^ 128
  size6-split =
      let e : 128 - s.mask.ones + s.mask.ones ≡ 128 = omega arith in
      rw (← two-pow-add (128 - s.mask.ones) s.mask.ones, e)

  pub network6-le : network6 s + size6 s ≤ 2 ^ 128
  network6-le = rw size6-split at (
      block-le s.ip.value (size6 s) (2 ^ s.mask.ones) (omega (arith, size6-ge-four))
        (rw size6-split v.range))

  pub subnet_eq :
      s ≡ record { ip = v6 s.ip.value; mask = record { ones = s.mask.ones; bits = s.mask.bits } }
  subnet_eq = λ i. record { ip = record { len = v.len i; value = s.ip.value }; mask = s.mask }

  pub contains-offset6 : (o : ℕ) → o < size6 s → contains s (v6 (network6 s + o)) ≡ true
  contains-offset6 o l =
      ap (λ (t : IpNet). contains t (v6 (network6 s + o))) subnet_eq
      ∙ contains-v6 s.ip.value (network6 s + o) s.mask.ones s.mask.bits v.bits
          (omega (arith, v.high)) (omega (arith, v.high))
      ∙ rw (block-div s.ip.value (size6 s) o l) (==_refl _)

  pub low_eq : mask_ip s.ip s.mask ≡ v6 (network6 s)
  low_eq =
      ap (λ (t : IpNet). mask_ip t.ip t.mask) subnet_eq
      ∙ mask_ip-v6 s.ip.value s.mask.ones s.mask.bits v.bits

  last_of_lem : last_of (v6 (network6 s)) s.mask ≡ ok (v6 (network6 s + (size6 s - 1)))
  unfolding last_of
  last_of_lem = rw v.bits

  -- In an IPv6 subnet that the configuration lets through, whose network address is at least 2 to
  -- the 48th, NextIPv6 of the address with a given offset is the address with the next offset
  -- other than 0, cyclically.
  pub next_ipv6-cycle :
      (o : ℕ)
      → o < size6 s
      → next_ipv6 (v6 (network6 s + o)) s ≡ ok (v6 (network6 s + next_offset6 (size6 s) o))
  unfolding next_ipv6
  next_ipv6-cycle o l =
      let few : ltb max_mask_ipv6 s.mask.ones ≡ false = ground arith in
      rw
        (
          few,
          to16-v6,
          to4-v6 (network6 s + o) (omega (arith, v.high)),
          contains-offset6 o l,
          low_eq,
          last_of_lem,
        )
        (skip_network_lem (network6 s) (size6 s) o size6-ge-four l network6-le)
