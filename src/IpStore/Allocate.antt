-- ===== src/IpStore/Allocate.antt =====
-- GetAvailableIP, GetAvailableIPv6 and ReleaseByID of plugins/ipam/ipstore/ipstore.go. The loops of
-- the first two have no bound in the source: they take fuel here.
pub mod Search
pub mod SearchV6
pub mod Safety
pub mod Total
pub mod SafetyV6
pub mod TotalV6
pub mod FullV6
pub mod Release
pub mod Found
pub mod Roundtrip
pub mod RoundtripV6
use amazon_ecs_cni_plugins.Base.{
  ℕ, zero, suc, if◌then◌else◌, Text, text_eq, Bool, true, false, ◌&&◌,
}
use amazon_ecs_cni_plugins.Base.{Option, none, some, List, [], ◌∷◌, ◌++◌, length, drop}
use amazon_ecs_cni_plugins.Base.{
  Error, message, wrap, out_of_fuel, is_key_exists, is_key_not_found, Result, ok, err,
}
use amazon_ecs_cni_plugins.Base.Exec.{Exec, continue}
use amazon_ecs_cni_plugins.Net.{Ip, IpNet, is_nil, equal}
use amazon_ecs_cni_plugins.Net.Format.{show_ip}
use amazon_ecs_cni_plugins.IpStore.Next.{next_ip, next_ipv6}
use amazon_ecs_cni_plugins.IpStore.Db.{Store, KvPair}
use amazon_ecs_cni_plugins.IpStore.Manager.{
  IpManager, assign, assign_ipv6, release, release_ipv6, find_key, ip_prefix, ip_prefix_v6,
  masked16,
}

module _ (S : Store) where
  -- The loop of GetAvailableIP, from the address that was tried last.
  unfoldable pub available_loop : ℕ → Text → Ip → Exec (IpManager S) Text
  available_loop zero id last m = (err out_of_fuel, m)
  available_loop (suc fuel) id last m = elim (next_ip last m.subnet) [
    | err e ↦ (err e, m)
    | ok next ↦
        let (r, m') = assign S (show_ip next) id m in
        elim r [
          | ok _ ↦ (ok (show_ip next), record m' { last_known_ip = next })
          | err e ↦
              let rest = available_loop fuel id next m' in
              if is_key_exists e
              then (if equal next m'.last_known_ip
                  then (
                    err (
                        message
                          "getAvailableIP ipstore: failed to find available ip addresses in the subnet"),
                    m',
                  )
                  else rest)
              else (err (wrap e "ipstore get ip: failed to assign ip in ipam"), m')
        ]
  ]

  -- GetAvailableIP
  unfoldable pub get_available_ip : ℕ → Text → Exec (IpManager S) Text
  get_available_ip fuel id m = available_loop fuel id m.last_known_ip m

  -- The loop of GetAvailableIPv6.
  unfoldable pub available_loop_v6 : ℕ → Text → IpNet → Ip → Ip → Exec (IpManager S) Text
  available_loop_v6 zero id subnet start last m = (err out_of_fuel, m)
  available_loop_v6 (suc fuel) id subnet start last m = elim (next_ipv6 last subnet) [
    | err e ↦ (err e, m)
    | ok next ↦
        let (r, m') = assign_ipv6 S (ip_prefix_v6 ++ show_ip next) id m in
        elim r [
          | ok _ ↦ (ok (show_ip next), record m' { last_known_ipv6 = next })
          | err e ↦
              let rest = available_loop_v6 fuel id subnet start next m' in
              if is_key_exists e
              then (if equal next start
                  then (
                    err (
                        message
                          "getAvailableIPv6 ipstore: failed to find available IPv6 addresses in the subnet"),
                    m',
                  )
                  else rest)
              else (err (wrap e "ipstore get ipv6: failed to assign ip in ipam"), m')
        ]
  ]

  -- GetAvailableIPv6
  unfoldable pub get_available_ipv6 : ℕ → Text → Exec (IpManager S) Text
  get_available_ipv6 fuel id m = elim m.subnet_v6 [
    | none ↦ (err (message "getAvailableIPv6 ipstore: IPv6 subnet not configured"), m)
    | some subnet ↦
        let start = if is_nil m.last_known_ipv6 then masked16 subnet else m.last_known_ipv6 in
        available_loop_v6 fuel id subnet start start m
  ]

  -- The first half of ReleaseByID: "" where no key under the prefix "1" has the id.
  unfoldable pub release_v4_of : Text → Exec (IpManager S) Text
  release_v4_of id m = elim (S.list m.client ip_prefix) [
    | err e ↦
        if is_key_not_found e
        then (ok [], m)
        else (err (wrap e "release ipstore: failed to list IPv4 key-value pairs in db"), m)
    | ok kvs ↦ elim (find_key id kvs) [
      | none ↦ (ok [], m)
      | some key ↦ continue (release S key m) (λ _ m'. (ok key, m'))
    ]
  ]

  -- The second half, which cuts the prefix off.
  unfoldable pub release_v6_of : Text → Exec (IpManager S) Text
  release_v6_of id m = elim (S.list m.client ip_prefix_v6) [
    | err e ↦
        if is_key_not_found e
        then (ok [], m)
        else (err (wrap e "release ipstore: failed to list IPv6 key-value pairs in db"), m)
    | ok kvs ↦ elim (find_key id kvs) [
      | none ↦ (ok [], m)
      | some key ↦
          continue (release_ipv6 S key m) (λ _ m'. (ok (drop (length ip_prefix_v6) key), m'))
    ]
  ]

  -- ReleaseByID; the callers drop the addresses that stand beside an error.
  unfoldable pub release_by_id : Text → Exec (IpManager S) (Text × Text)
  release_by_id id m = continue (release_v4_of id m) λ v4 m'.
      continue (release_v6_of id m') λ v6 m''.
        if text_eq v4 [] && text_eq v6 []
        then (err (message "release ipstore: no ip address associated with the given id: %s"), m'')
        else (ok (v4, v6), m'')
