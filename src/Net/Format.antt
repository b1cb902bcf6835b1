-- ===== src/Net/Format.antt =====
-- IP.String and IPNet.String of Go's package net; Parse has net.ParseIP.
pub mod Parse
pub mod Roundtrip
unfoldable pub use amazon_ecs_cni_plugins.Net.Format.Parse.{
  split_on, parse_byte, parse_bytes, dotted, parse_v4, has_byte, parse_ip,
}
use amazon_ecs_cni_plugins.Base.{ℕ, zero, suc, ◌+◌, ◌-◌, ◌*◌, ◌/◌, ◌%◌, ◌^◌, ◌&&◌, not}
use amazon_ecs_cni_plugins.Base.{
  Text, codes, ltb, ◌==◌, if◌then◌else◌, List, [], ◌∷◌, ◌++◌, take, drop,
}
use amazon_ecs_cni_plugins.Net.{IpNet, shortest, mask_fits, Ip, is_nil, to4}

-- A byte in decimal.
unfoldable pub byte_text : ℕ → Text
byte_text n =
    if ltb n 10
    then (48 + n) ∷ []
    else if ltb n 100
    then (48 + n / 10) ∷ (48 + n % 10) ∷ []
    else (48 + n / 100) ∷ (48 + n / 10 % 10) ∷ (48 + n % 10) ∷ []

unfoldable pub show_v4 : ℕ → Text
unfolding byte_text
show_v4 n =
    byte_text (n / 2 ^ 24)
    ++ (b'.'
        ∷ (byte_text (n / 2 ^ 16 % 256)
            ++ (b'.' ∷ (byte_text (n / 2 ^ 8 % 256) ++ (b'.' ∷ byte_text (n % 256))))))

unfoldable pub hex_digit : ℕ → ℕ
hex_digit d = if ltb d 10 then 48 + d else 87 + d

-- Sixteen bits in hexadecimal, with no leading zeros.
unfoldable pub hextet_text : ℕ → Text
unfolding hex_digit
hextet_text n =
    if ltb n 0x10
    then hex_digit n ∷ []
    else if ltb n 0x100
    then hex_digit (n / 16) ∷ hex_digit (n % 16) ∷ []
    else if ltb n 0x1000
    then hex_digit (n / 256) ∷ hex_digit (n / 16 % 16) ∷ hex_digit (n % 16) ∷ []
    else hex_digit (n / 4096)
      ∷ hex_digit (n / 256 % 16)
      ∷ hex_digit (n / 16 % 16)
      ∷ hex_digit (n % 16)
      ∷ []

-- The eight groups of an address.
abbrev groups : ℕ → List ℕ
groups n =
    n / 2 ^ 112
    ∷ n / 2 ^ 96 % 65536
    ∷ n / 2 ^ 80 % 65536
    ∷ n / 2 ^ 64 % 65536
    ∷ n / 2 ^ 48 % 65536
    ∷ n / 2 ^ 32 % 65536
    ∷ n / 2 ^ 16 % 65536
    ∷ n % 65536
    ∷ []

zero_run : List ℕ → ℕ
zero_run [] = 0
zero_run (g ∷ gs) = if g == 0 then suc (zero_run gs) else 0

-- Start and length of the first longest run of zero groups.
longest_run : ℕ → List ℕ → ℕ × ℕ → ℕ × ℕ
unfolding zero_run
longest_run position [] (start, len) = (start, len)
longest_run position (g ∷ gs) (start, len) =
    longest_run (position + 1) gs
      (if ltb len (zero_run (g ∷ gs)) then (position, zero_run (g ∷ gs)) else (start, len))

join_groups : List ℕ → Text
join_groups [] = []
join_groups (g ∷ []) = hextet_text g
join_groups (g ∷ h ∷ gs) = hextet_text g ++ (b':' ∷ join_groups (h ∷ gs))

unfoldable pub show_v6 : ℕ → Text
unfolding longest_run join_groups hextet_text
show_v6 n =
    let (start, len) = longest_run 0 (groups n) (0, 0) in
    if ltb len 2
    then join_groups (groups n)
    else join_groups (take start (groups n))
      ++ (b':' ∷ b':' ∷ join_groups (drop (start + len) (groups n)))

hex_string : ℕ → ℕ → Text
unfolding hex_digit
hex_string zero n = []
hex_string (suc len) n =
    hex_string len (n / 256) ++ (hex_digit (n / 16 % 16) ∷ hex_digit (n % 16) ∷ [])

-- IP.String
unfoldable pub show_ip : Ip → Text
unfolding show_v4 show_v6 hex_string to4
show_ip ip =
    if is_nil ip
    then codes "<nil>"
    else if not (is_nil (to4 ip))
    then show_v4 (to4 ip).value
    else if ip.len == 16
    then show_v6 ip.value
    else b'?' ∷ hex_string ip.len ip.value

-- IPNet.String
unfoldable pub show_net : IpNet → Text
unfolding show_ip to4
show_net n =
    let ip = shortest n.ip in
    if not (mask_fits ip n.mask)
    then codes "<nil>"
    else show_ip ip
      ++ (b'/'
          ∷ byte_text
              (if (ip.len == 4) && (n.mask.bits == 128) then n.mask.ones - 96 else n.mask.ones))
