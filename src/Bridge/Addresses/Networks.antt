-- ===== src/Bridge/Addresses/Networks.antt =====
-- The network that the bridge gets for an IP configuration: the gateway's address, and its mask.
use amazon_ecs_cni_plugins.Base.{
  ◌≡◌, ◌⊎◌, ◌≢◌, ◌/◌, ◌^◌, ◌==◌, refl, ◌∙◌, inl, inr, arith, true, false, Bool-cases,
}
use amazon_ecs_cni_plugins.Net.{Ip, IpMask, IpNet, is_nil, to4, is_link_local_unicast}
use amazon_ecs_cni_plugins.Cni.{IpConfig}
use amazon_ecs_cni_plugins.Host.{Family, family_v4, family_v6}
use amazon_ecs_cni_plugins.Bridge.Addresses.{family_of, bridge_mask, bridge_network}

-- The family of an address: IPv4 if it has a form of four bytes.
abbrev pub IsFamilyOf : Ip → Family → Type 0
IsFamilyOf ip family =
    ((is_nil (to4 ip) ≡ true) × (family ≡ family_v6))
    ⊎ ((is_nil (to4 ip) ≡ false) × (family ≡ family_v4))

-- The mask for a gateway: /22 for a link-local IPv4 address, /64 for a link-local IPv6 address, /112
-- for an address of fd00::/8, and else the mask of the container's address.
pub data IsMaskFor (gw : Ip) (mask : IpMask) : IpMask → Type 0 where
  link_local_v4 :
      is_link_local_unicast gw ≡ true
      → is_nil (to4 gw) ≡ false
      → IsMaskFor gw mask (record { ones = 22; bits = 32 })
  link_local_v6 :
      is_link_local_unicast gw ≡ true
      → is_nil (to4 gw) ≡ true
      → IsMaskFor gw mask (record { ones = 64; bits = 128 })
  unique_local :
      is_link_local_unicast gw ≡ false
      → is_nil (to4 gw) ≡ true
      → gw.len ≡ 16
      → gw.value / 2 ^ 120 ≡ 0xfd
      → IsMaskFor gw mask (record { ones = 112; bits = 128 })
  as_given :
      is_link_local_unicast gw ≡ false
      → (is_nil (to4 gw) ≡ false) ⊎ ((gw.len ≢ 16) ⊎ (gw.value / 2 ^ 120 ≢ 0xfd))
      → IsMaskFor gw mask mask

-- The gateway's network.
abbrev pub IsNetworkOf : IpConfig → IpNet → Type 0
IsNetworkOf c network = (network.ip ≡ c.gateway) × IsMaskFor c.gateway c.address.mask network.mask

pub family_of-IsFamilyOf : (ip : Ip) → IsFamilyOf ip (family_of ip)
unfolding family_of
family_of-IsFamilyOf ip = elim (Bool-cases (is_nil (to4 ip))) [
  | inl six ↦ inl (six, rw six refl)
  | inr four ↦ inr (four, rw four refl)
]

pub IsFamilyOf-family_of :
    (ip : Ip) (family : Family) → IsFamilyOf ip family → family ≡ family_of ip
unfolding family_of
IsFamilyOf-family_of ip family (inl (six, q)) = q ∙ rw six refl
IsFamilyOf-family_of ip family (inr (four, q)) = q ∙ rw four refl

bridge_mask-IsMaskFor : (gw : Ip) (mask : IpMask) → IsMaskFor gw mask (bridge_mask gw mask)
unfolding bridge_mask
bridge_mask-IsMaskFor gw mask = elim (Bool-cases (is_link_local_unicast gw)) [
  | inl local ↦ elim (Bool-cases (is_nil (to4 gw))) [
    | inl six ↦ rw (bridge_mask, local, six) (link_local_v6 local six)
    | inr four ↦ rw (bridge_mask, local, four) (link_local_v4 local four)
  ]
  | inr routed ↦ elim (Bool-cases (is_nil (to4 gw))) [
    | inr four ↦ rw (bridge_mask, routed, four) (as_given routed (inl four))
    | inl six ↦ elim (Bool-cases (gw.len == 16)) [
      | inr short ↦
          rw (bridge_mask, routed, six, short) (as_given routed (inr (inl (ground arith))))
      | inl long ↦ elim (Bool-cases (gw.value / 2 ^ 120 == 0xfd)) [
        | inl unique ↦
            rw (bridge_mask, routed, six, long, unique)
              (unique_local routed six (ground arith) (ground arith))
        | inr other ↦
            rw (bridge_mask, routed, six, long, other) (as_given routed (inr (inr (ground arith))))
      ]
    ]
  ]
]

IsMaskFor-bridge_mask : (gw : Ip) (mask m : IpMask) → IsMaskFor gw mask m → m ≡ bridge_mask gw mask
unfolding bridge_mask
IsMaskFor-bridge_mask gw mask m (link_local_v4 local four) = rw (bridge_mask, local, four) refl
IsMaskFor-bridge_mask gw mask m (link_local_v6 local six) = rw (bridge_mask, local, six) refl
IsMaskFor-bridge_mask gw mask m (unique_local routed six long unique) =
    let is_long : (gw.len == 16) ≡ true = ground arith in
    let is_unique : (gw.value / 2 ^ 120 == 0xfd) ≡ true = ground arith in
    rw (bridge_mask, routed, six, is_long, is_unique) refl
IsMaskFor-bridge_mask gw mask m (as_given routed (inl four)) = rw (bridge_mask, routed, four) refl
IsMaskFor-bridge_mask gw mask m (as_given routed (inr (inl short))) =
    let is_short : (gw.len == 16) ≡ false = ground arith in
    elim (Bool-cases (is_nil (to4 gw))) [
      | inl six ↦ rw (bridge_mask, routed, six, is_short) refl
      | inr four ↦ rw (bridge_mask, routed, four) refl
    ]
IsMaskFor-bridge_mask gw mask m (as_given routed (inr (inr other))) =
    let is_other : (gw.value / 2 ^ 120 == 0xfd) ≡ false = ground arith in
    elim (Bool-cases (is_nil (to4 gw))) [
      | inl six ↦ elim (Bool-cases (gw.len == 16)) [
        | inl long ↦ rw (bridge_mask, routed, six, long, is_other) refl
        | inr short ↦ rw (bridge_mask, routed, six, short) refl
      ]
      | inr four ↦ rw (bridge_mask, routed, four) refl
    ]

pub bridge_network-IsNetworkOf : (c : IpConfig) → IsNetworkOf c (bridge_network c)
unfolding bridge_network
bridge_network-IsNetworkOf c = (refl, bridge_mask-IsMaskFor c.gateway c.address.mask)

pub IsNetworkOf-bridge_network :
    (c : IpConfig) (network : IpNet) → IsNetworkOf c network → network ≡ bridge_network c
unfolding bridge_network
IsNetworkOf-bridge_network c network (at, masked) = λ i. record {
  ip = at i;
  mask = IsMaskFor-bridge_mask c.gateway c.address.mask network.mask masked i;
}
