-- ===== src/Net/Ipv4.antt =====
-- The operations of package net at an IPv4 address, in four bytes or in sixteen.
use amazon_ecs_cni_plugins.Base.{
  ℕ, ◌≡◌, refl, ◌+◌, ◌-◌, ◌*◌, ◌/◌, ◌%◌, ◌^◌, ◌≤◌, ◌<◌, arith, ◌==◌, min,
}
use amazon_ecs_cni_plugins.Net.{Ip, IpMask, IpNet, v4, v6, to4, equal, mask_ip, contains, successor}

pub mask_ip-v4 :
    (ip : Ip) (m : IpMask) (n : ℕ)
    → to4 ip ≡ v4 n
    → m.bits ≡ 32
    → mask_ip ip m ≡ v4 (n - n % 2 ^ (32 - m.ones))
unfolding to4 mask_ip
mask_ip-v4 ip m n e b = ground arith

min_sub : (n : ℕ) → min 32 (32 - n) ≡ 32 - n
min_sub n = omega arith

pub contains-v4 :
    (s : IpNet) (ip : Ip) (base a : ℕ)
    → to4 s.ip ≡ v4 base
    → s.mask.bits ≡ 32
    → to4 ip ≡ v4 a
    → contains s ip ≡ (a / 2 ^ (32 - s.mask.ones) == base / 2 ^ (32 - s.mask.ones))
unfolding contains
contains-v4 s ip base a e b x = rw (e, x, b, min_sub)

pub to4-v4 : (n : ℕ) → to4 (v4 n) ≡ v4 n
unfolding to4
to4-v4 n = refl

pub successor-v4 : (n : ℕ) → 2 ^ 24 ≤ n + 1 → n + 1 < 2 ^ 32 → successor (v4 n) ≡ v4 (n + 1)
unfolding successor
successor-v4 n lo hi = ground arith

pub equal-v4 : (n : ℕ) (ip : Ip) (a : ℕ) → to4 ip ≡ v4 a → equal (v4 n) ip ≡ (n == a)
unfolding to4 equal
equal-v4 n ip a e = ground arith

pub to4-mapped : (n : ℕ) → n < 2 ^ 32 → to4 (v6 (0xffff * 2 ^ 32 + n)) ≡ v4 n
unfolding to4
to4-mapped n h = ground arith
