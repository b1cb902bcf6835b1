-- ===== src/IpStore/Next.antt =====
-- NextIP and NextIPv6 of plugins/ipam/ipstore/ipstore.go: the address that follows another one in
-- a subnet. The loops take at most two rounds, and have fuel for four.
pub mod Cycle
pub mod Cycle6
use amazon_ecs_cni_plugins.Base.{ℕ, zero, suc, ◌+◌, ◌-◌, ◌/◌, ◌*◌, ◌^◌, min, ◌||◌}
use amazon_ecs_cni_plugins.Base.{
  ◌>>=◌, ◌==◌, ltb, if◌then◌else◌, not, Result, ok, err, message, panic, out_of_fuel,
}
use amazon_ecs_cni_plugins.Net.{Ip, IpMask, IpNet, v4, v6, is_nil, to4, to16, equal, mask_ip}
use amazon_ecs_cni_plugins.Net.{contains, successor}

-- MaxMask and MaxMaskIPv6
abbrev pub max_mask : ℕ
max_mask = 30

abbrev pub max_mask_ipv6 : ℕ
max_mask_ipv6 = 126

-- The loop `for i := range ipv4`: the first four bytes of `min`, each with the inverted byte of the
-- mask. The bits that the mask inverts are zero in `min`, so that the union is a sum.
unfoldable pub broadcast_of : Ip → IpMask → Result Ip
broadcast_of low mask =
    if ltb low.len 4 || ltb mask.bits 32
    then err panic
    else ok (v4 (low.value / 256 ^ (low.len - 4) + (2 ^ (32 - min mask.ones 32) - 1)))

-- The loop that leaves out the given address, the network and the broadcast address.
unfoldable pub skip_reserved : ℕ → Ip → Ip → Ip → Ip → Result Ip
skip_reserved zero ip low high next = err out_of_fuel
skip_reserved (suc fuel) ip low high next =
    let rest = skip_reserved fuel ip low high (successor (if equal next high then low else next)) in
    if equal next ip || equal next low || equal next high then rest else ok next

unfoldable pub next_ip : Ip → IpNet → Result Ip
next_ip ip subnet =
    if ltb max_mask subnet.mask.ones
    then err (message "nextIP ipstore: no available ip in the subnet: %v")
    else if is_nil (to4 ip)
    then err (message "nextIP ipstore: invalid ipv4 address: %v")
    else if not (contains subnet (to4 ip))
    then err (message "nextIP ipstore: ip %v is not within subnet %s")
    else do
      let low = mask_ip subnet.ip subnet.mask
      high ← broadcast_of low subnet.mask
      skip_reserved 4 (to4 ip) low high (to4 ip)

-- The last address of an IPv6 subnet, all host bits set.
unfoldable pub last_of : Ip → IpMask → Result Ip
last_of low mask =
    if ltb low.len 16 || ltb mask.bits 128
    then err panic
    else ok (v6 (low.value + (2 ^ (128 - mask.ones) - 1)))

-- Padding to sixteen bytes.
unfoldable pub pad16 : Ip → Ip
pad16 ip = if ltb ip.len 16 then v6 ip.value else ip

-- The loop that leaves out the given address and the network address.
unfoldable pub skip_network : ℕ → Ip → Ip → Ip → Ip → Result Ip
skip_network zero ip low high next = err out_of_fuel
skip_network (suc fuel) ip low high next =
    let rest =
      skip_network fuel ip low high (pad16 (successor (if equal next high then low else next))) in
    if equal next ip || equal next low then rest else ok next

unfoldable pub next_ipv6 : Ip → IpNet → Result Ip
next_ipv6 ip subnet =
    if ltb max_mask_ipv6 subnet.mask.ones
    then err (message "nextIPv6 ipstore: no available ip in subnet: %v")
    else if is_nil (to16 ip) || not (is_nil (to4 (to16 ip)))
    then err (message "nextIPv6 ipstore: invalid ipv6 address: %v")
    else if not (contains subnet (to16 ip))
    then err (message "nextIPv6 ipstore: ip %v not in subnet %s")
    else do
      let masked = mask_ip subnet.ip subnet.mask
      let low = if masked.len == 16 then masked else to16 masked
      high ← last_of low subnet.mask
      skip_network 4 (to16 ip) low high (to16 ip)
