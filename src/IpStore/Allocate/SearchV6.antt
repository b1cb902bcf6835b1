-- ===== src/IpStore/Allocate/SearchV6.antt =====
-- The search of GetAvailableIPv6 for a free address, round by round.
use amazon_ecs_cni_plugins.IpStore.Next.Cycle6.{next_offset6}
use amazon_ecs_cni_plugins.Base.{
  ℕ, suc, ◌+◌, ◌-◌, ◌≤◌, ◌<◌, ◌≢◌, ltb, ◌≡◌, if◌then◌else◌, arith, ◌++◌, none, some,
}
use amazon_ecs_cni_plugins.Base.{
  Text, false, Error, message, wrap, key_exists, is_key_exists, ok, err,
}
use amazon_ecs_cni_plugins.Net.{is_nil, v6, Ip, IpNet, equal}
use amazon_ecs_cni_plugins.Net.Format.{show_ip}
use amazon_ecs_cni_plugins.IpStore.Next.{next_ipv6}
use amazon_ecs_cni_plugins.IpStore.Db.{Store}
use amazon_ecs_cni_plugins.IpStore.Manager.{IpManager, assign_ipv6, ip_prefix_v6, masked16}
use amazon_ecs_cni_plugins.IpStore.Allocate.{available_loop_v6, get_available_ipv6}

abbrev pub full_message_v6 : Error
full_message_v6 =
    message "getAvailableIPv6 ipstore: failed to find available IPv6 addresses in the subnet"

-- One round at the address that follows.
module _ (S : Store) (id : Text) (subnet : IpNet) (start last n : Ip) (m : IpManager S)
    (step : next_ipv6 last subnet ≡ ok n) where
  pub round_v6-free :
      (fuel : ℕ)
      → (assign_ipv6 S (ip_prefix_v6 ++ show_ip n) id m).0 ≡ ok tt
      → available_loop_v6 S (suc fuel) id subnet start last m ≡ (
        ok (show_ip n),
        record (assign_ipv6 S (ip_prefix_v6 ++ show_ip n) id m).1 { last_known_ipv6 = n },
      )
  unfolding available_loop_v6
  round_v6-free fuel h = ground arith

  pub round_v6-taken :
      (fuel : ℕ)
      → assign_ipv6 S (ip_prefix_v6 ++ show_ip n) id m ≡ (err key_exists, m)
      → available_loop_v6 S (suc fuel) id subnet start last m ≡ (
          if equal n start
          then (err full_message_v6, m)
          else available_loop_v6 S fuel id subnet start n m)
  unfolding available_loop_v6
  round_v6-taken fuel h = ground arith

  -- A failure to assign for another reason ends the search.
  pub round_v6-failed :
      (fuel : ℕ) (e : Error)
      → (assign_ipv6 S (ip_prefix_v6 ++ show_ip n) id m).0 ≡ err e
      → is_key_exists e ≡ false
      → available_loop_v6 S (suc fuel) id subnet start last m ≡ (
        err (wrap e "ipstore get ipv6: failed to assign ip in ipam"),
        (assign_ipv6 S (ip_prefix_v6 ++ show_ip n) id m).1,
      )
  unfolding available_loop_v6
  round_v6-failed fuel e h k = ground arith

-- GetAvailableIPv6 without and with a subnet.
module _ (S : Store) (fuel : ℕ) (id : Text) (m : IpManager S) where
  pub get_available_ipv6-none :
      m.subnet_v6 ≡ none
      → get_available_ipv6 S fuel id m
        ≡ (err (message "getAvailableIPv6 ipstore: IPv6 subnet not configured"), m)
  unfolding get_available_ipv6
  get_available_ipv6-none e = ground arith

  pub get_available_ipv6-some :
      (subnet : IpNet)
      → m.subnet_v6 ≡ some subnet
      → let start = if is_nil m.last_known_ipv6 then masked16 subnet else m.last_known_ipv6 in
        get_available_ipv6 S fuel id m ≡ available_loop_v6 S fuel id subnet start start m
  unfolding get_available_ipv6
  get_available_ipv6-some subnet e = ground arith

  pub get_available_ipv6-from :
      (subnet : IpNet) (n : ℕ)
      → m.subnet_v6 ≡ some subnet
      → m.last_known_ipv6 ≡ v6 n
      → get_available_ipv6 S fuel id m ≡ available_loop_v6 S fuel id subnet (v6 n) (v6 n) m
  unfolding get_available_ipv6
  get_available_ipv6-from subnet n e q = ground arith

-- The number of steps along the offsets from `o` to `t`, at least one.
abbrev pub steps6 : ℕ → ℕ → ℕ → ℕ
steps6 size o t = if ltb o t then t - o else size - 1 - o + t

pub steps6-next :
    (size o t : ℕ)
    → 4 ≤ size
    → o < size
    → 1 ≤ t
    → t < size
    → next_offset6 size o ≢ t
    → suc (steps6 size (next_offset6 size o) t) ≡ steps6 size o t
steps6-next size o t s l p q n = ground arith

pub steps6-pos : (size o t : ℕ) → 1 ≤ t → t < size → 1 ≤ steps6 size o t
steps6-pos size o t p q = ground arith

pub steps6-le : (size o t : ℕ) → 1 ≤ t → t < size → steps6 size o t ≤ size
steps6-le size o t p q = ground arith

pub next_offset6-usable :
    (size o : ℕ) → 4 ≤ size → (1 ≤ next_offset6 size o) × (next_offset6 size o < size)
next_offset6-usable size o s = ground arith
