-- ===== src/Tests/FullV6.antt =====
-- The search for an IPv6 address in fd00::/126, all of whose addresses are in use.
use amazon_ecs_cni_plugins.Base.{
  zero, suc, ◌+◌, ◌*◌, ◌^◌, ◌≡◌, refl, arith, codes, text_eq, none, some, List, [], ◌∷◌, err,
  out_of_fuel,
}
use amazon_ecs_cni_plugins.Net.{Ip, v6, nil}
use amazon_ecs_cni_plugins.Net.Format.{show_ip}
use amazon_ecs_cni_plugins.IpStore.Db.{KvPair, lookup}
use amazon_ecs_cni_plugins.IpStore.Db.Memory.{memory, memory-IsLawful, memory-IsHealthy}
use amazon_ecs_cni_plugins.IpStore.Manager.{IpManager}
use amazon_ecs_cni_plugins.IpStore.Allocate.{get_available_ipv6}
use amazon_ecs_cni_plugins.IpStore.Allocate.SearchV6.{full_message_v6}
use amazon_ecs_cni_plugins.IpStore.Allocate.FullV6.{
  IsFullV6, get_available_ipv6-full, get_available_ipv6-diverges,
}
use amazon_ecs_cni_plugins.Tests.Fixtures.{small6, small6-IsIpv6Subnet}

-- fd00::1 to fd00::3
abbrev all_taken_v6 : List KvPair
all_taken_v6 =
    (codes "6fd00::1", codes "a")
    ∷ (codes "6fd00::2", codes "b")
    ∷ (codes "6fd00::3", codes "c")
    ∷ []

abbrev full_from : Ip → IpManager memory
full_from last = record {
  client = all_taken_v6;
  subnet = small6;
  subnet_v4 = none;
  subnet_v6 = some small6;
  last_known_ip = nil;
  last_known_ipv4 = nil;
  last_known_ipv6 = last;
}

taken_v6 :
    (last : Ip)
    → IsFullV6 memory memory-IsLawful small6 small6-IsIpv6Subnet
        (codes "d")
        (full_from last)
        memory-IsHealthy
unfolding memory-IsLawful lookup show_ip text_eq
taken_v6 last zero p l e = absurd (omega arith)
taken_v6 last (suc zero) p l e = let bad : some (codes "a") ≡ none = e in cc
taken_v6 last (suc (suc zero)) p l e = let bad : some (codes "b") ≡ none = e in cc
taken_v6 last (suc (suc (suc zero))) p l e = let bad : some (codes "c") ≡ none = e in cc
taken_v6 last (suc (suc (suc (suc o)))) p l e = absurd (omega arith)

get_available_ipv6-full_example :
    get_available_ipv6 memory 4 (codes "d") (full_from (v6 (0xfd00 * 2 ^ 112 + 2)))
    ≡ (err full_message_v6, full_from (v6 (0xfd00 * 2 ^ 112 + 2)))
get_available_ipv6-full_example =
    get_available_ipv6-full memory memory-IsLawful small6 small6-IsIpv6Subnet (codes "d")
      (full_from (v6 (0xfd00 * 2 ^ 112 + 2))) memory-IsHealthy
      (taken_v6 (v6 (0xfd00 * 2 ^ 112 + 2))) 2 refl refl (omega arith) (omega arith)

get_available_ipv6-diverges_example :
    get_available_ipv6 memory 1000 (codes "d") (full_from (v6 (0xfd00 * 2 ^ 112)))
    ≡ (err out_of_fuel, full_from (v6 (0xfd00 * 2 ^ 112)))
get_available_ipv6-diverges_example =
    get_available_ipv6-diverges memory memory-IsLawful small6 small6-IsIpv6Subnet (codes "d")
      (full_from (v6 (0xfd00 * 2 ^ 112))) memory-IsHealthy (taken_v6 (v6 (0xfd00 * 2 ^ 112))) 1000
      refl refl
