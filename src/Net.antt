-- ===== src/Net.antt =====
-- Go's package net, as far as the plugins use it: addresses, masks and networks. A byte slice is
-- its length and its big-endian value; nil is the slice of length 0. A mask is its number of
-- leading ones and its number of bits: the code meets only masks of net.ParseCIDR and
-- net.CIDRMask, which have that form.
pub mod Ipv4
pub mod Ipv6
pub mod Format
use amazon_ecs_cni_plugins.Base.{
  ℕ, zero, suc, ◌||◌, ◌+◌, ◌-◌, ◌*◌, ◌/◌, ◌%◌, ◌^◌, min, Bool, false, ◌&&◌,
}
use amazon_ecs_cni_plugins.Base.{◌==◌, leb, if◌then◌else◌, not}

-- net.IP
pub record Ip : Type 0 where
  pub len : ℕ
  pub value : ℕ

-- net.IPMask; `bits` is 0 for nil.
pub record IpMask : Type 0 where
  pub ones : ℕ
  pub bits : ℕ

-- net.IPNet and types.IPNet of the CNI library.
pub record IpNet : Type 0 where
  pub ip : Ip
  pub mask : IpMask

abbrev pub nil : Ip
nil = record { len = 0; value = 0 }

abbrev pub nil_mask : IpMask
nil_mask = record { ones = 0; bits = 0 }

abbrev pub is_nil : Ip → Bool
is_nil ip = ip.len == 0

abbrev pub is_nil_mask : IpMask → Bool
is_nil_mask m = m.bits == 0

-- The addresses of four and of sixteen bytes.
abbrev pub v4 : ℕ → Ip
v4 n = record { len = 4; value = n }

abbrev pub v6 : ℕ → Ip
v6 n = record { len = 16; value = n }

-- The prefix ::ffff:0:0/96 of an IPv4 address in sixteen bytes.
abbrev pub is_mapped : Ip → Bool
is_mapped ip = ip.value / 2 ^ 32 == 0xffff

-- IP.To4
unfoldable pub to4 : Ip → Ip
to4 ip =
    if ip.len == 4 then ip else if ip.len == 16 && is_mapped ip then v4 (ip.value % 2 ^ 32) else nil

-- IP.To16
unfoldable pub to16 : Ip → Ip
to16 ip = if ip.len == 4 then v6 (0xffff * 2 ^ 32 + ip.value) else if ip.len == 16 then ip else nil

-- IP.Equal
unfoldable pub equal : Ip → Ip → Bool
equal a b =
    if a.len == b.len
    then a.value == b.value
    else if a.len == 4 && b.len == 16
    then is_mapped b && (b.value % 2 ^ 32 == a.value)
    else if a.len == 16 && b.len == 4
    then is_mapped a && (a.value % 2 ^ 32 == b.value)
    else false

-- The address with its last `h` bits cleared.
abbrev pub clear : Ip → ℕ → Ip
clear ip h = record { len = ip.len; value = ip.value - ip.value % 2 ^ h }

-- IP.Mask
unfoldable pub mask_ip : Ip → IpMask → Ip
mask_ip ip m =
    if (m.bits == 128) && (ip.len == 4)
    then (if leb 96 m.ones then clear ip (128 - m.ones) else nil)
    else if (m.bits == 32) && (ip.len == 16) && is_mapped ip
    then clear (v4 (ip.value % 2 ^ 32)) (32 - m.ones)
    else if m.bits == 8 * ip.len
    then clear ip (m.bits - m.ones)
    else nil

-- The address that IPNet.Contains compares with: four bytes where it can.
abbrev pub shortest : Ip → Ip
shortest ip = if is_nil (to4 ip) then ip else to4 ip

-- networkNumberAndMask of package net: does the mask fit the address, once shortened?
abbrev pub mask_fits : Ip → IpMask → Bool
mask_fits ip m =
    if ip.len == 4 then (m.bits == 32) || (m.bits == 128) else (ip.len == 16) && (m.bits == 128)

-- IPNet.Contains
unfoldable pub contains : IpNet → Ip → Bool
contains subnet ip =
    let network = shortest subnet.ip in
    let x = shortest ip in
    let host_bits = min (8 * network.len) (subnet.mask.bits - subnet.mask.ones) in
    mask_fits network subnet.mask
    && (x.len == network.len)
    && (x.value / 2 ^ host_bits == network.value / 2 ^ host_bits)

-- net.CIDRMask
abbrev pub cidr_mask : ℕ → ℕ → IpMask
cidr_mask ones bits = if leb ones bits then record { ones = ones; bits = bits } else nil_mask

-- The bytes that big.Int.Bytes needs for a number below 256 ^ fuel.
unfoldable pub byte_len : ℕ → ℕ → ℕ
byte_len zero n = 0
byte_len (suc fuel) n = let rest = byte_len fuel (n / 256) in if n == 0 then 0 else suc rest

-- net.IP(big.NewInt(0).SetBytes(ip) + 1).Bytes()), with no leading zero bytes.
unfoldable pub successor : Ip → Ip
unfolding byte_len
successor ip = record { len = byte_len 17 (ip.value + 1); value = ip.value + 1 }

-- IP.IsLinkLocalUnicast: 169.254.0.0/16 and fe80::/10.
unfoldable pub is_link_local_unicast : Ip → Bool
is_link_local_unicast ip =
    let ip4 = to4 ip in
    if not (is_nil ip4)
    then ip4.value / 2 ^ 16 == 0xa9fe
    else (ip.len == 16) && (ip.value / 2 ^ 118 == 0x3fa)
