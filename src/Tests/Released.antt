-- ===== src/Tests/Released.antt =====
-- ReleaseByID after GetAvailableIP, at 10.0.0.0/30 and at 8.0.0.0/30, and the store in memory.
use amazon_ecs_cni_plugins.Base.{
  ◌≡◌, refl, arith, Text, text_eq, codes, true, false, has_prefix, none, some, [], ok, err,
}
use amazon_ecs_cni_plugins.Net.{IpNet, v4, to4, contains, mask_ip, equal, successor}
use amazon_ecs_cni_plugins.Net.Format.{show_ip}
use amazon_ecs_cni_plugins.IpStore.Next.{next_ip, broadcast_of, skip_reserved}
use amazon_ecs_cni_plugins.IpStore.Next.Cycle.{IsIpv4Subnet}
use amazon_ecs_cni_plugins.IpStore.Db.{lookup}
use amazon_ecs_cni_plugins.IpStore.Db.Memory.{memory, memory-IsLawful, memory-IsHealthy, under}
use amazon_ecs_cni_plugins.IpStore.Manager.{
  IpManager, assign, put_ip, exists, unique_id, has_value, ip_prefix, ip_prefix_v6,
}
use amazon_ecs_cni_plugins.IpStore.Manager.Effects.{contents}
use amazon_ecs_cni_plugins.IpStore.Manager.Healthy.{IsFresh}
use amazon_ecs_cni_plugins.IpStore.Manager.EffectsV6.{IsFreshV6}
use amazon_ecs_cni_plugins.IpStore.Allocate.{available_loop, get_available_ip, release_by_id}
use amazon_ecs_cni_plugins.IpStore.Allocate.Found.{none_message}
use amazon_ecs_cni_plugins.IpStore.Allocate.Roundtrip.{
  release_by_id-get_available_ip, release_by_id-hidden,
}
use amazon_ecs_cni_plugins.Tests.Fixtures.{
  to4-at, small, small-IsIpv4Subnet, manager, two, half, half-lookup,
}
use amazon_ecs_cni_plugins.Tests.IpStore.{b-IsFresh, b_ne_a, answered}

two-prefix : has_prefix ip_prefix two ≡ true
unfolding has_prefix
two-prefix = refl

b-IsFreshV6 :
    IsFreshV6 memory memory-IsLawful memory-IsHealthy (codes "b") (manager (v4 0x0a000001) half)
unfolding memory-IsLawful
b-IsFreshV6 k p h = absurd (b_ne_a (half-lookup k (codes "b") h).1)

release_by_id-get_available_ip_example :
    ((release_by_id memory
        (codes "b")
        (get_available_ip memory 4 (codes "b") (manager (v4 0x0a000001) half)).1).0
      ≡ ok (two, []))
    × ((j : Text)
        → contents memory memory-IsLawful
            (release_by_id memory
              (codes "b")
              (get_available_ip memory 4 (codes "b") (manager (v4 0x0a000001) half)).1).1
            j
          ≡ contents memory memory-IsLawful (manager (v4 0x0a000001) half) j)
release_by_id-get_available_ip_example =
    release_by_id-get_available_ip memory memory-IsLawful memory-IsHealthy 0x0a000000 (codes "b")
      (manager (v4 0x0a000001) half) small-IsIpv4Subnet 4 1 two (to4-at 0x0a000001) (omega arith)
      answered two-prefix b-IsFresh b-IsFreshV6

-- 8.0.0.0/30
abbrev eight : IpNet
eight = record { ip = v4 0x08000000; mask = small.mask }

eight-IsIpv4Subnet : IsIpv4Subnet eight 0x08000000
unfolding to4
eight-IsIpv4Subnet = record {
  address = refl;
  bits = refl;
  few_ones = omega arith;
  range = omega arith;
  first_byte = omega arith;
}

abbrev manager8 : IpManager memory
manager8 = record (manager (v4 0x08000001) []) { subnet = eight; subnet_v4 = some eight }

abbrev second : Text
second = codes "8.0.0.2"

answered8 : (get_available_ip memory 4 (codes "b") manager8).0 ≡ ok second
unfolding get_available_ip available_loop assign exists unique_id put_ip next_ip show_ip lookup
    text_eq contains broadcast_of mask_ip skip_reserved equal successor under has_prefix has_value
answered8 = refl

second-prefix : has_prefix ip_prefix second ≡ false
unfolding has_prefix
second-prefix = refl

second-prefix_v6 : has_prefix ip_prefix_v6 second ≡ false
unfolding has_prefix
second-prefix_v6 = refl

nothing_held : IsFresh memory memory-IsLawful memory-IsHealthy (codes "b") manager8
unfolding memory-IsLawful lookup
nothing_held k p h = let e : none ≡ some (codes "b") = h in cc

nothing_held_v6 : IsFreshV6 memory memory-IsLawful memory-IsHealthy (codes "b") manager8
unfolding memory-IsLawful lookup
nothing_held_v6 k p h = let e : none ≡ some (codes "b") = h in cc

release_by_id-hidden_example :
    release_by_id memory (codes "b") (get_available_ip memory 4 (codes "b") manager8).1
    ≡ (err none_message, (get_available_ip memory 4 (codes "b") manager8).1)
release_by_id-hidden_example =
    release_by_id-hidden memory memory-IsLawful memory-IsHealthy 0x08000000 (codes "b") manager8
      eight-IsIpv4Subnet 4 1 second (to4-at 0x08000001) (omega arith) answered8 second-prefix
      second-prefix_v6 nothing_held nothing_held_v6
