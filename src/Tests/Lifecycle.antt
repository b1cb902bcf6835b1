-- ===== src/Tests/Lifecycle.antt =====
-- Runs of ADD and DEL of the IPAM plugin for 10.0.0.0/30, at stores in memory.
use amazon_ecs_cni_plugins.Base.{
  ℕ, ◌+◌, ◌≤◌, ◌<◌, ◌≡◌, ◌≢◌, refl, arith, inl, Text, text_eq, codes, has_prefix, true, false, none,
  some, [], ok, sym, ◌∙◌, zero, suc,
}
use amazon_ecs_cni_plugins.Net.{v4, contains, to4, to16, byte_len, mask_ip, equal, successor}
use amazon_ecs_cni_plugins.Net.Format.{show_ip, parse_ip}
use amazon_ecs_cni_plugins.IpStore.Db.Memory.{memory, memory-IsLawful, memory-IsHealthy, set, under}
use amazon_ecs_cni_plugins.IpStore.Manager.{
  ip_prefix, ip_prefix_v6, assign, exists, get, has_value, new_ip_allocator_dual_stack, put_ip,
  set_last_known_ip, unique_id, update,
}
use amazon_ecs_cni_plugins.IpStore.Manager.Effects.{with_key}
use amazon_ecs_cni_plugins.IpStore.Next.Cycle.{size4}
use amazon_ecs_cni_plugins.Ipam.Config.{
  IpamConfig, has_ipv4, has_ipv6, load_ipam_config, validate, validate_ipv4, check_ipv4_address,
  verify_ip_subnet, is_network_or_broadcast, ipv4_gateway_of, load_db_config,
}
use amazon_ecs_cni_plugins.Base.{is_blank}
use amazon_ecs_cni_plugins.Ipam.Commands.{
  last_known_ip_key, gateway_value, has_address, add, add_ipv4, add_ipv6, add_result, add_v4_result,
  add_v6_result, construct_results, get_ipv4_address, get_ipv4_address_from_db, non_empty,
  start_ipv4, update_or_warn, verify_gateway,
}
use amazon_ecs_cni_plugins.Ipam.Commands.Searched.{text_at}
use amazon_ecs_cni_plugins.Ipam.Plugin.{Environment, run_add, run_del, with_manager}
use amazon_ecs_cni_plugins.Ipam.Plugin.Lifecycle.{run_del-run_add}
use amazon_ecs_cni_plugins.Ipam.Plugin.Returned.{run_del-run_add_by_id}
use amazon_ecs_cni_plugins.Tests.Fixtures.{small, small-IsIpv4Subnet}
use amazon_ecs_cni_plugins.Tests.Plugin.{environment, any_address, args}
use amazon_ecs_cni_plugins.IpStore.Next.{broadcast_of, skip_reserved, next_ip}
use amazon_ecs_cni_plugins.IpStore.Allocate.{available_loop, get_available_ip}
use amazon_ecs_cni_plugins.IpStore.Db.{lookup}

-- 10.0.0.2 for the container "b".
abbrev for_b : IpamConfig
for_b = record any_address { ipv4_address = record { ip = v4 0x0a000002; mask = small.mask } }

abbrev naming : Environment
naming = record environment {
  unmarshal =
      λ text. ok (record { name = codes "net"; cni_version = codes "0.3.0"; ipam = some for_b });
}

naming-loads :
    load_ipam_config naming.next_ip naming.unmarshal args.stdin_data ≡ ok (for_b, codes "0.3.0")
unfolding load_ipam_config validate has_ipv4 validate_ipv4 check_ipv4_address verify_ip_subnet
    is_network_or_broadcast ipv4_gateway_of has_ipv6 contains to4 mask_ip equal broadcast_of
naming-loads = refl

for_b-v4 : has_ipv4 for_b ≡ true
unfolding has_ipv4
for_b-v4 = refl

for_b-v6 : has_ipv6 for_b ≡ false
unfolding has_ipv6
for_b-v6 = refl

for_b-named : has_address for_b.ipv4_address ≡ true
unfolding has_address parse_ip show_ip text_eq
for_b-named = refl

for_b-unnamed_v6 : has_address for_b.ipv6_address ≡ false
unfolding has_address
for_b-unnamed_v6 = refl

run_add_succeeds : (run_add memory naming 0 args []).0 ≡ ok tt
unfolding load_ipam_config validate has_ipv4 validate_ipv4 check_ipv4_address verify_ip_subnet
    is_network_or_broadcast ipv4_gateway_of has_ipv6 load_db_config is_blank contains to4 to16
    byte_len mask_ip equal successor parse_ip show_ip text_eq has_prefix broadcast_of skip_reserved
    next_ip with_manager run_add available_loop get_available_ip assign exists get has_value
    new_ip_allocator_dual_stack put_ip set_last_known_ip unique_id update lookup set under add
    add_ipv4 add_ipv6 add_result add_v4_result add_v6_result construct_results get_ipv4_address
    get_ipv4_address_from_db non_empty start_ipv4 update_or_warn verify_gateway has_address
run_add_succeeds = refl

run_del-run_add_example :
    ((run_del memory naming args (run_add memory naming 0 args []).1).0 ≡ ok tt)
    × ((j : Text)
        → memory-IsLawful.at (run_del memory naming args (run_add memory naming 0 args []).1).1 j
          ≡ with_key memory memory-IsLawful
              (with_key memory memory-IsLawful
                (memory-IsLawful.at [])
                (show_ip (v4 0x0a000001))
                (some gateway_value))
              last_known_ip_key
              (some (show_ip (v4 0x0a000002)))
              j)
run_del-run_add_example =
    run_del-run_add memory memory-IsLawful memory-IsHealthy naming 0 args [] for_b (codes "0.3.0")
      naming-loads for_b-v4 for_b-v6 for_b-named for_b-unnamed_v6 run_add_succeeds

any-v4 : has_ipv4 any_address ≡ true
unfolding has_ipv4
any-v4 = refl

any-v6 : has_ipv6 any_address ≡ false
unfolding has_ipv6
any-v6 = refl

environment-loads :
    load_ipam_config environment.next_ip environment.unmarshal args.stdin_data
    ≡ ok (any_address, codes "0.3.0")
unfolding load_ipam_config validate has_ipv4 validate_ipv4 check_ipv4_address verify_ip_subnet
    is_network_or_broadcast ipv4_gateway_of has_ipv6 contains to4 mask_ip equal broadcast_of
environment-loads = refl

id-IsNamed : text_eq any_address.id [] ≡ false
unfolding text_eq
id-IsNamed = refl

id-IsNoMark : any_address.id ≢ gateway_value
id-IsNoMark e = cc

gateway-prefix : has_prefix ip_prefix (show_ip any_address.ipv4_gateway) ≡ true
unfolding has_prefix show_ip
gateway-prefix = refl

small-prefix :
    (o : ℕ)
    → o < size4 small
    → has_prefix ip_prefix (
        text_at memory memory-IsLawful memory-IsHealthy any_address 0x0a000000 small-IsIpv4Subnet o)
      ≡ true
unfolding has_prefix show_ip
small-prefix zero l = refl
small-prefix (suc zero) l = refl
small-prefix (suc (suc zero)) l = refl
small-prefix (suc (suc (suc zero))) l = refl
small-prefix (suc (suc (suc (suc o)))) l = absurd (omega arith)

nothing_held : (k : Text) → memory-IsLawful.at [] k ≡ none
unfolding memory-IsLawful lookup
nothing_held k = refl

nobody : (k p : Text) → has_prefix p k ≡ true → memory-IsLawful.at [] k ≢ some any_address.id
nobody k p h e = let bad : none ≡ some any_address.id = sym (nothing_held k) ∙ e in cc

run_add_finds : (run_add memory environment 4 args []).0 ≡ ok tt
unfolding load_ipam_config validate has_ipv4 validate_ipv4 check_ipv4_address verify_ip_subnet
    is_network_or_broadcast ipv4_gateway_of has_ipv6 load_db_config is_blank contains to4 to16
    byte_len mask_ip equal successor parse_ip show_ip text_eq has_prefix broadcast_of skip_reserved
    next_ip with_manager run_add available_loop get_available_ip assign exists get has_value
    new_ip_allocator_dual_stack put_ip set_last_known_ip unique_id update lookup set under add
    add_ipv4 add_ipv6 add_result add_v4_result add_v6_result construct_results get_ipv4_address
    get_ipv4_address_from_db non_empty start_ipv4 update_or_warn verify_gateway has_address
run_add_finds = refl

run_del-run_add_by_id_example :
    ((run_del memory environment args (run_add memory environment 4 args []).1).0 ≡ ok tt)
    × ((o : ℕ) × (1 ≤ o)
        × (o + 1 < size4 small)
        × (memory-IsLawful.at [] (
              text_at memory memory-IsLawful memory-IsHealthy any_address 0x0a000000
                small-IsIpv4Subnet o)
            ≡ none)
        × ((j : Text)
            → memory-IsLawful.at
                (run_del memory environment args (run_add memory environment 4 args []).1).1
                j
              ≡ with_key memory memory-IsLawful
                  (with_key memory memory-IsLawful
                    (memory-IsLawful.at [])
                    (show_ip (v4 0x0a000001))
                    (some gateway_value))
                  last_known_ip_key
                  (some (
                    text_at memory memory-IsLawful memory-IsHealthy any_address 0x0a000000
                      small-IsIpv4Subnet o))
                  j))
run_del-run_add_by_id_example =
    run_del-run_add_by_id memory memory-IsLawful memory-IsHealthy environment 4 args [] any_address
      (codes "0.3.0") 0x0a000000 small-IsIpv4Subnet environment-loads any-v4 any-v6 refl refl
      id-IsNamed id-IsNoMark gateway-prefix small-prefix (λ k h. nobody k ip_prefix h)
      (λ k h. nobody k ip_prefix_v6 h) (inl (nothing_held last_known_ip_key)) run_add_finds
