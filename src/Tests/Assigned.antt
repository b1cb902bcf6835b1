-- ===== src/Tests/Assigned.antt =====
-- ADD of the IPAM plugin for 10.0.0.1, at the empty store in memory.
use amazon_ecs_cni_plugins.Base.{◌≡◌, refl, Text, codes, true, false, none, some, [], Result, ok}
use amazon_ecs_cni_plugins.Net.{v4}
use amazon_ecs_cni_plugins.Net.Format.{show_ip}
use amazon_ecs_cni_plugins.Cni.{CniResult}
use amazon_ecs_cni_plugins.IpStore.Db.Memory.{memory, memory-IsLawful, memory-IsHealthy}
use amazon_ecs_cni_plugins.IpStore.Manager.{IpManager}
use amazon_ecs_cni_plugins.IpStore.Manager.Effects.{contents, with_key}
use amazon_ecs_cni_plugins.Ipam.Config.{IpamConfig, has_ipv4, has_ipv6}
use amazon_ecs_cni_plugins.Ipam.Commands.{last_known_ip_key, gateway_value, add}
use amazon_ecs_cni_plugins.Ipam.Commands.Assigned.{add-assigns}
use amazon_ecs_cni_plugins.Tests.Fixtures.{manager}
use amazon_ecs_cni_plugins.Tests.Ipam.{named_one}
use amazon_ecs_cni_plugins.Base.{has_prefix, text_eq}
use amazon_ecs_cni_plugins.IpStore.Allocate.{
  available_loop, available_loop_v6, get_available_ip, get_available_ipv6,
}
use amazon_ecs_cni_plugins.IpStore.Db.{lookup}
use amazon_ecs_cni_plugins.IpStore.Db.Memory.{set, under}
use amazon_ecs_cni_plugins.IpStore.Manager.{
  assign, assign_ipv6, exists, get, has_value, put_ip, put_ipv6, set_last_known_ip,
  set_last_known_ipv6, unique_id, unique_id_v6, update,
}
use amazon_ecs_cni_plugins.IpStore.Next.{
  broadcast_of, last_of, next_ip, next_ipv6, pad16, skip_network, skip_reserved,
}
use amazon_ecs_cni_plugins.Ipam.Commands.{
  add_ipv4, add_ipv6, add_result, add_v4_result, add_v6_result, construct_results, get_ipv4_address,
  get_ipv4_address_from_db, get_ipv6_address, get_ipv6_address_from_db, non_empty, start_ipv4,
  start_ipv6, update_or_warn, verify_gateway, verify_gateway_v6,
}
use amazon_ecs_cni_plugins.Net.{byte_len, contains, equal, mask_ip, successor, to16, to4}
use amazon_ecs_cni_plugins.Net.Format.{
  byte_text, hex_digit, hextet_text, parse_ip, show_v4, show_v6, split_on,
}

abbrev for_c : IpamConfig
for_c = record named_one { id = codes "c" }

abbrev start : IpManager memory
start = manager (v4 0x0a000001) []

abbrev print : CniResult → Text → Result (Unit {0})
print result version = ok tt

for_c-v4 : has_ipv4 for_c ≡ true
unfolding has_ipv4
for_c-v4 = refl

for_c-v6 : has_ipv6 for_c ≡ false
unfolding has_ipv6
for_c-v6 = refl

add_succeeds : (add memory 4 print for_c (codes "0.3.0") start).0 ≡ ok tt
unfolding add has_ipv4 has_ipv6 show_ip has_prefix text_eq available_loop available_loop_v6
    get_available_ip get_available_ipv6 lookup set under assign assign_ipv6 exists get has_value
    put_ip put_ipv6 set_last_known_ip set_last_known_ipv6 unique_id unique_id_v6 update broadcast_of
    last_of next_ip next_ipv6 pad16 skip_network skip_reserved add_ipv4 add_ipv6 add_result
    add_v4_result add_v6_result construct_results get_ipv4_address get_ipv4_address_from_db
    get_ipv6_address get_ipv6_address_from_db non_empty start_ipv4 start_ipv6 update_or_warn
    verify_gateway verify_gateway_v6 byte_len contains equal mask_ip successor to16 to4 byte_text
    hex_digit hextet_text parse_ip show_v4 show_v6 split_on
add_succeeds = refl

add-assigns_example :
    (contents memory memory-IsLawful start (show_ip (v4 0x0a000001)) ≡ none)
    × ((j : Text)
        → contents memory memory-IsLawful (add memory 4 print for_c (codes "0.3.0") start).1 j
          ≡ with_key memory memory-IsLawful
              (with_key memory memory-IsLawful
                (with_key memory memory-IsLawful
                  (contents memory memory-IsLawful start)
                  (show_ip (v4 0x0a000002))
                  (some gateway_value))
                (show_ip (v4 0x0a000001))
                (some (codes "c")))
              last_known_ip_key
              (some (show_ip (v4 0x0a000001)))
              j)
add-assigns_example =
    add-assigns memory memory-IsLawful memory-IsHealthy 4 for_c start print (codes "0.3.0") for_c-v4
      for_c-v6 refl add_succeeds
