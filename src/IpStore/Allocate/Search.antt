-- ===== src/IpStore/Allocate/Search.antt =====
-- The search of GetAvailableIP for a free address, round by round.
use amazon_ecs_cni_plugins.Base.{ℕ, suc, ◌+◌, ◌-◌, ◌≤◌, ◌<◌, ◌≡◌, ◌≢◌, ltb, if◌then◌else◌, arith}
use amazon_ecs_cni_plugins.Base.{
  Text, true, false, Error, message, wrap, key_exists, is_key_exists, ok, err,
}
use amazon_ecs_cni_plugins.Net.{Ip, equal}
use amazon_ecs_cni_plugins.Net.Format.{show_ip}
use amazon_ecs_cni_plugins.IpStore.Next.{next_ip}
use amazon_ecs_cni_plugins.IpStore.Next.Cycle.{next_offset}
use amazon_ecs_cni_plugins.IpStore.Db.{Store}
use amazon_ecs_cni_plugins.IpStore.Manager.{IpManager, assign}
use amazon_ecs_cni_plugins.IpStore.Allocate.{available_loop}

-- The number of steps along the usable offsets from `o` to `t`, at least one.
abbrev pub steps : ℕ → ℕ → ℕ → ℕ
steps size o t = if ltb o t then t - o else size - 2 - o + t

pub steps-next :
    (size o t : ℕ)
    → 4 ≤ size
    → o < size
    → 1 ≤ t
    → t + 1 < size
    → next_offset size o ≢ t
    → suc (steps size (next_offset size o) t) ≡ steps size o t
steps-next size o t s l p q n = ground arith

pub steps-pos : (size o t : ℕ) → 1 ≤ t → t + 1 < size → 1 ≤ steps size o t
steps-pos size o t p q = ground arith

pub steps-le : (size o t : ℕ) → 1 ≤ t → t + 1 < size → steps size o t ≤ size
steps-le size o t p q = ground arith

pub next_offset-usable :
    (size o : ℕ) → 4 ≤ size → (1 ≤ next_offset size o) × (next_offset size o + 1 < size)
next_offset-usable size o s = ground arith

pub is_key_exists-eq : (e : Error) → is_key_exists e ≡ true → e ≡ key_exists
is_key_exists-eq key_exists h = λ i. key_exists
is_key_exists-eq _ h = cc

-- One round at the address that follows.
module _ (S : Store) (id : Text) (last n : Ip) (m : IpManager S)
    (step : next_ip last m.subnet ≡ ok n) where
  pub round-free :
      (fuel : ℕ)
      → (assign S (show_ip n) id m).0 ≡ ok tt
      → available_loop S (suc fuel) id last m
        ≡ (ok (show_ip n), record (assign S (show_ip n) id m).1 { last_known_ip = n })
  unfolding available_loop
  round-free fuel h = ground arith

  pub round-taken :
      (fuel : ℕ)
      → assign S (show_ip n) id m ≡ (err key_exists, m)
      → available_loop S (suc fuel) id last m ≡ (
          if equal n m.last_known_ip
          then (
            err (
                message
                  "getAvailableIP ipstore: failed to find available ip addresses in the subnet"),
            m,
          )
          else available_loop S fuel id n m)
  unfolding available_loop
  round-taken fuel h = ground arith

  -- A failure to assign for another reason ends the search.
  pub round-failed :
      (fuel : ℕ) (e : Error)
      → (assign S (show_ip n) id m).0 ≡ err e
      → is_key_exists e ≡ false
      → available_loop S (suc fuel) id last m ≡ (
        err (wrap e "ipstore get ip: failed to assign ip in ipam"),
        (assign S (show_ip n) id m).1,
      )
  unfolding available_loop
  round-failed fuel e h k = ground arith
