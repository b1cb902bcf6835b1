-- ===== src/Tests/Distinct.antt =====
-- Two runs of ADD of the IPAM plugin for 10.0.0.0/29, at the empty store in memory.
use amazon_ecs_cni_plugins.Base.{
  ℕ, ◌+◌, ◌≤◌, ◌<◌, ◌≡◌, ◌≢◌, refl, arith, inl, Text, text_eq, codes, has_prefix, true, false, none,
  some, [], ok, zero, suc,
}
use amazon_ecs_cni_plugins.Net.{v4, contains, to4, to16, byte_len, mask_ip, equal, successor}
use amazon_ecs_cni_plugins.Net.Format.{show_ip, parse_ip}
use amazon_ecs_cni_plugins.IpStore.Db.Memory.{memory, memory-IsLawful, memory-IsHealthy, set, under}
use amazon_ecs_cni_plugins.IpStore.Manager.{
  ip_prefix, assign, exists, get, has_value, new_ip_allocator_dual_stack, put_ip, set_last_known_ip,
  unique_id, update,
}
use amazon_ecs_cni_plugins.IpStore.Next.Cycle.{size4}
use amazon_ecs_cni_plugins.Ipam.Config.{
  IpamConfig, has_ipv4, has_ipv6, load_ipam_config, validate, validate_ipv4, check_ipv4_address,
  verify_ip_subnet, is_network_or_broadcast, ipv4_gateway_of, load_db_config,
}
use amazon_ecs_cni_plugins.Base.{is_blank}
use amazon_ecs_cni_plugins.Ipam.Commands.{
  last_known_ip_key, has_address, add, add_ipv4, add_ipv6, add_result, add_v4_result, add_v6_result,
  construct_results, get_ipv4_address, get_ipv4_address_from_db, non_empty, start_ipv4,
  update_or_warn, verify_gateway,
}
use amazon_ecs_cni_plugins.Ipam.Commands.Searched.{text_at}
use amazon_ecs_cni_plugins.Ipam.Plugin.{Environment, run_add, with_manager}
use amazon_ecs_cni_plugins.Tests.Plugin.{environment, any_address, args}
use amazon_ecs_cni_plugins.IpStore.Next.{broadcast_of, skip_reserved, next_ip}
use amazon_ecs_cni_plugins.IpStore.Allocate.{available_loop, get_available_ip}
use amazon_ecs_cni_plugins.IpStore.Db.{lookup, KvPair}
use amazon_ecs_cni_plugins.Ipam.Plugin.Distinct.{run_add-distinct}
use amazon_ecs_cni_plugins.Net.{IpNet}
use amazon_ecs_cni_plugins.Base.{List}
use amazon_ecs_cni_plugins.IpStore.Next.Cycle.{IsIpv4Subnet}

abbrev wide : IpNet
wide = record { ip = v4 0x0a000000; mask = record { ones = 29; bits = 32 } }

wide-IsIpv4Subnet : IsIpv4Subnet wide 0x0a000000
unfolding to4
wide-IsIpv4Subnet = record {
  address = refl;
  bits = refl;
  few_ones = omega arith;
  range = omega arith;
  first_byte = omega arith;
}

-- Any address of it for a container.
abbrev any_for : Text → IpamConfig
any_for id = record any_address { ipv4_subnet = wide; id = id }

abbrev environment_for : Text → Environment
environment_for id = record environment {
  unmarshal = λ text.
      ok (record { name = codes "net"; cni_version = codes "0.3.0"; ipam = some (any_for id) });
}

loads :
    (id : Text)
    → load_ipam_config (environment_for id).next_ip (environment_for id).unmarshal args.stdin_data
      ≡ ok (any_for id, codes "0.3.0")
unfolding load_ipam_config validate has_ipv4 validate_ipv4 check_ipv4_address verify_ip_subnet
    is_network_or_broadcast ipv4_gateway_of has_ipv6 contains to4 mask_ip equal broadcast_of
loads id = refl

any_for-v4 : (id : Text) → has_ipv4 (any_for id) ≡ true
unfolding has_ipv4
any_for-v4 id = refl

any_for-v6 : (id : Text) → has_ipv6 (any_for id) ≡ false
unfolding has_ipv6
any_for-v6 id = refl

gateway-prefix : (id : Text) → has_prefix ip_prefix (show_ip (any_for id).ipv4_gateway) ≡ true
unfolding has_prefix show_ip
gateway-prefix id = refl

wide-prefix :
    (o : ℕ)
    → o < size4 wide
    → has_prefix ip_prefix (
        text_at memory memory-IsLawful memory-IsHealthy
          (any_for (codes "b"))
          0x0a000000
          wide-IsIpv4Subnet
          o)
      ≡ true
unfolding has_prefix show_ip
wide-prefix zero l = refl
wide-prefix (suc zero) l = refl
wide-prefix (suc (suc zero)) l = refl
wide-prefix (suc (suc (suc zero))) l = refl
wide-prefix (suc (suc (suc (suc zero)))) l = refl
wide-prefix (suc (suc (suc (suc (suc zero))))) l = refl
wide-prefix (suc (suc (suc (suc (suc (suc zero)))))) l = refl
wide-prefix (suc (suc (suc (suc (suc (suc (suc zero))))))) l = refl
wide-prefix (suc (suc (suc (suc (suc (suc (suc (suc o)))))))) l = absurd (omega arith)

unmarked : memory-IsLawful.at [] last_known_ip_key ≡ none
unfolding memory-IsLawful lookup
unmarked = refl

-- The database after the first run.
abbrev between : List KvPair
between = (run_add memory (environment_for (codes "b")) 8 args []).1

first_succeeds : (run_add memory (environment_for (codes "b")) 8 args []).0 ≡ ok tt
unfolding load_ipam_config validate has_ipv4 validate_ipv4 check_ipv4_address verify_ip_subnet
    is_network_or_broadcast ipv4_gateway_of has_ipv6 load_db_config is_blank contains to4 to16
    byte_len mask_ip equal successor parse_ip show_ip text_eq has_prefix broadcast_of skip_reserved
    next_ip with_manager run_add available_loop get_available_ip assign exists get has_value
    new_ip_allocator_dual_stack put_ip set_last_known_ip unique_id update lookup set under add
    add_ipv4 add_ipv6 add_result add_v4_result add_v6_result construct_results get_ipv4_address
    get_ipv4_address_from_db non_empty start_ipv4 update_or_warn verify_gateway has_address
first_succeeds = refl

second_succeeds : (run_add memory (environment_for (codes "c")) 8 args between).0 ≡ ok tt
unfolding load_ipam_config validate has_ipv4 validate_ipv4 check_ipv4_address verify_ip_subnet
    is_network_or_broadcast ipv4_gateway_of has_ipv6 load_db_config is_blank contains to4 to16
    byte_len mask_ip equal successor parse_ip show_ip text_eq has_prefix broadcast_of skip_reserved
    next_ip with_manager run_add available_loop get_available_ip assign exists get has_value
    new_ip_allocator_dual_stack put_ip set_last_known_ip unique_id update lookup set under add
    add_ipv4 add_ipv6 add_result add_v4_result add_v6_result construct_results get_ipv4_address
    get_ipv4_address_from_db non_empty start_ipv4 update_or_warn verify_gateway has_address
second_succeeds = refl

run_add-distinct_example :
    (o : ℕ) × (p : ℕ) × (o ≢ p)
    × (1 ≤ o)
    × (o + 1 < size4 wide)
    × (1 ≤ p)
    × (p + 1 < size4 wide)
    × (memory-IsLawful.at (run_add memory (environment_for (codes "c")) 8 args between).1 (
          text_at memory memory-IsLawful memory-IsHealthy
            (any_for (codes "b"))
            0x0a000000
            wide-IsIpv4Subnet
            o)
        ≡ some (codes "b"))
    × (memory-IsLawful.at (run_add memory (environment_for (codes "c")) 8 args between).1 (
          text_at memory memory-IsLawful memory-IsHealthy
            (any_for (codes "b"))
            0x0a000000
            wide-IsIpv4Subnet
            p)
        ≡ some (codes "c"))
run_add-distinct_example =
    run_add-distinct memory memory-IsLawful memory-IsHealthy (environment_for (codes "b"))
      (environment_for (codes "c")) 8 8 args args [] (any_for (codes "b")) (any_for (codes "c"))
      (codes "0.3.0") (codes "0.3.0") 0x0a000000 wide-IsIpv4Subnet wide-IsIpv4Subnet
      (loads (codes "b")) (loads (codes "c")) refl (any_for-v4 (codes "b"), any_for-v4 (codes "c"))
      (any_for-v6 (codes "b"), any_for-v6 (codes "c")) (refl, refl)
      (gateway-prefix (codes "b"), gateway-prefix (codes "c")) wide-prefix (inl unmarked)
      first_succeeds second_succeeds
