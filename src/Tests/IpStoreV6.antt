-- ===== src/Tests/IpStoreV6.antt =====
-- The search for an IPv6 address at fd00::/126 and the store in memory.
use amazon_ecs_cni_plugins.Base.{
  ◌+◌, ◌≡◌, refl, arith, Text, codes, text_eq, ◌++◌, none, some, [], ok,
}
use amazon_ecs_cni_plugins.Net.{v6, nil, successor, contains, mask_ip, equal, to16, to4}
use amazon_ecs_cni_plugins.Net.Format.{show_ip}
use amazon_ecs_cni_plugins.IpStore.Db.{lookup}
use amazon_ecs_cni_plugins.IpStore.Db.Memory.{memory, memory-IsLawful, memory-IsHealthy, under}
use amazon_ecs_cni_plugins.IpStore.Next.{next_ipv6, last_of, skip_network, pad16}
use amazon_ecs_cni_plugins.IpStore.Next.Cycle6.{network6, size6}
use amazon_ecs_cni_plugins.IpStore.Manager.{
  IpManager, assign_ipv6, exists, unique_id_v6, put_ip, put_ipv6, has_value, ip_prefix_v6,
}
use amazon_ecs_cni_plugins.IpStore.Manager.Effects.{contents}
use amazon_ecs_cni_plugins.IpStore.Manager.EffectsV6.{IsFreshV6}
use amazon_ecs_cni_plugins.IpStore.Allocate.{available_loop_v6, get_available_ipv6}
use amazon_ecs_cni_plugins.IpStore.Allocate.TotalV6.{get_available_ipv6-finds}
use amazon_ecs_cni_plugins.IpStore.Allocate.SafetyV6.{
  IsAllocatedV6, get_available_ipv6-IsAllocatedV6,
}
use amazon_ecs_cni_plugins.Base.{false}
use amazon_ecs_cni_plugins.Net.Format.{show_v6}
use amazon_ecs_cni_plugins.IpStore.Manager.Healthy.{IsFresh}
use amazon_ecs_cni_plugins.IpStore.Allocate.{release_by_id}
use amazon_ecs_cni_plugins.IpStore.Allocate.RoundtripV6.{release_by_id-get_available_ipv6}
use amazon_ecs_cni_plugins.Tests.Fixtures.{small6, small6-IsIpv6Subnet}

-- A manager of fd00::/126 that starts behind fd00::1; nothing is taken.
abbrev manager6 : IpManager memory
manager6 = record {
  client = [];
  subnet = small6;
  subnet_v4 = none;
  subnet_v6 = some small6;
  last_known_ip = nil;
  last_known_ipv4 = nil;
  last_known_ipv6 = v6 (network6 small6 + 1);
}

abbrev second : Text
second = show_ip (v6 (network6 small6 + 2))

answered_v6 : (get_available_ipv6 memory 4 (codes "b") manager6).0 ≡ ok second
unfolding get_available_ipv6 available_loop_v6 assign_ipv6 exists unique_id_v6 put_ip next_ipv6
    last_of skip_network pad16 lookup under has_value text_eq contains mask_ip equal successor to16
    to4 put_ipv6
answered_v6 = refl

get_available_ipv6-IsAllocatedV6_example :
    IsAllocatedV6 memory memory-IsLawful small6
      (codes "b")
      second
      manager6
      (get_available_ipv6 memory 4 (codes "b") manager6).1
get_available_ipv6-IsAllocatedV6_example =
    get_available_ipv6-IsAllocatedV6 memory memory-IsLawful small6 small6-IsIpv6Subnet (codes "b")
      manager6 4 1 second refl refl (omega arith) answered_v6

third-free :
    contents memory memory-IsLawful manager6 (ip_prefix_v6 ++ show_ip (v6 (network6 small6 + 3)))
    ≡ none
unfolding lookup memory-IsLawful
third-free = refl

b-IsFreshV6 : IsFreshV6 memory memory-IsLawful memory-IsHealthy (codes "b") manager6
unfolding memory-IsLawful lookup
b-IsFreshV6 k p h = let e : none ≡ some (codes "b") = h in cc

get_available_ipv6-finds_example :
    (text : Text) × ((get_available_ipv6 memory (size6 small6) (codes "b") manager6).0 ≡ ok text)
get_available_ipv6-finds_example =
    get_available_ipv6-finds memory memory-IsLawful small6 small6-IsIpv6Subnet (codes "b") manager6
      memory-IsHealthy 1 3 refl refl (omega arith) (omega arith) (omega arith) third-free
      b-IsFreshV6

b-IsFresh : IsFresh memory memory-IsLawful memory-IsHealthy (codes "b") manager6
unfolding memory-IsLawful lookup
b-IsFresh k p h = let e : none ≡ some (codes "b") = h in cc

second-text : text_eq second [] ≡ false
unfolding text_eq show_ip show_v6
second-text = refl

release_by_id-get_available_ipv6_example :
    ((release_by_id memory (codes "b") (get_available_ipv6 memory 4 (codes "b") manager6).1).0
      ≡ ok ([], second))
    × ((j : Text)
        → contents memory memory-IsLawful
            (release_by_id memory
              (codes "b")
              (get_available_ipv6 memory 4 (codes "b") manager6).1).1
            j
          ≡ contents memory memory-IsLawful manager6 j)
release_by_id-get_available_ipv6_example =
    release_by_id-get_available_ipv6 memory memory-IsLawful memory-IsHealthy small6
      small6-IsIpv6Subnet (codes "b") manager6 4 1 second refl refl (omega arith) answered_v6
      second-text b-IsFresh b-IsFreshV6
