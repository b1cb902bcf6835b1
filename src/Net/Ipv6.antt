-- ===== src/Net/Ipv6.antt =====
-- The operations of package net at an IPv6 address that is no mapped IPv4 address.
use amazon_ecs_cni_plugins.Base.{
  ℕ, zero, suc, ◌≡◌, refl, ◌+◌, ◌-◌, ◌/◌, ◌%◌, ◌^◌, ◌≤◌, ◌<◌, arith, ◌==◌, min,
}
use native.Mathlib.Nat.{pow-suc}
use amazon_ecs_cni_plugins.Net.{equal, v6, nil, to4, to16, mask_ip, contains, successor, byte_len}

pub to4-v6 : (n : ℕ) → 2 ^ 48 ≤ n → to4 (v6 n) ≡ nil
unfolding to4
to4-v6 n h = ground arith

pub to16-v6 : (n : ℕ) → to16 (v6 n) ≡ v6 n
unfolding to16
to16-v6 n = refl

pub mask_ip-v6 :
    (n ones bits : ℕ)
    → bits ≡ 128
    → mask_ip (v6 n) (record { ones = ones; bits = bits }) ≡ v6 (n - n % 2 ^ (128 - ones))
unfolding mask_ip
mask_ip-v6 n ones bits b = rw b

min_sub : (n : ℕ) → min 128 (128 - n) ≡ 128 - n
min_sub n = omega arith

pub contains-v6 :
    (base a ones bits : ℕ)
    → bits ≡ 128
    → 2 ^ 48 ≤ base
    → 2 ^ 48 ≤ a
    → contains (record { ip = v6 base; mask = record { ones = ones; bits = bits } }) (v6 a)
      ≡ (a / 2 ^ (128 - ones) == base / 2 ^ (128 - ones))
unfolding contains
contains-v6 base a ones bits b h k = rw (to4-v6 base h, to4-v6 a k, b, min_sub)

-- A number needs at most as many bytes as its bound has.
byte_len-le : (fuel k n : ℕ) → n < 256 ^ k → byte_len fuel n ≤ k
unfolding byte_len
byte_len-le zero k n h = omega arith
byte_len-le (suc fuel) zero n h = ground arith
byte_len-le (suc fuel) (suc k) n h =
    let p : n / 256 < 256 ^ k = omega (arith, rw pow-suc at h) in
    ground (arith, byte_len-le fuel k (n / 256) p)

-- The successor takes at most sixteen bytes below the last address.
pub successor-len : (n : ℕ) → n + 1 < 2 ^ 128 → (successor (v6 n)).len ≤ 16
unfolding successor
successor-len n h = byte_len-le 17 16 (n + 1) (omega (arith, h))

pub successor-v6_value : (n : ℕ) → (successor (v6 n)).value ≡ n + 1
unfolding successor
successor-v6_value n = refl

pub successor-v6_eq : (n : ℕ) → (successor (v6 n)).len ≡ 16 → successor (v6 n) ≡ v6 (n + 1)
successor-v6_eq n h = ground (arith, successor-v6_value n)

pub equal-v6 : (a b : ℕ) → equal (v6 a) (v6 b) ≡ (a == b)
unfolding equal
equal-v6 a b = refl
