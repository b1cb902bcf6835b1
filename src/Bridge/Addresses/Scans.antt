-- ===== src/Bridge/Addresses/Scans.antt =====
-- What ConfigureBridge concludes from the addresses that the bridge has.
use amazon_ecs_cni_plugins.Base.{
  ◌≡◌, ◌≢◌, ◌⊎◌, ◌↔◌, refl, arith, inl, inr, Bool-cases, Text, text_eq, Bool, true, false, ◌&&◌,
  List, [], ◌∷◌, All, if◌then◌else◌,
}
use amazon_ecs_cni_plugins.Net.{IpNet, is_link_local_unicast}
use amazon_ecs_cni_plugins.Net.Format.{show_net}
use amazon_ecs_cni_plugins.Host.{Family}
use amazon_ecs_cni_plugins.Bridge.Addresses.{exists, conflict, absent, is_v6, scan_addresses}

-- Does the bridge have an address with the text?
abbrev pub Has : Text → List IpNet → Type 0
Has cidr [] = true ≡ false
Has cidr (a ∷ addrs) = (text_eq (show_net a) cidr ≡ true) ⊎ Has cidr addrs

-- An address that does not stand in the way of another one.
abbrev pub IsHarmless : Text → Family → IpNet → Type 0
IsHarmless cidr family a =
    (text_eq (show_net a) cidr ≡ false) × ((is_v6 family && is_link_local_unicast a.ip) ≡ true)

no_exists : (seen : Bool) → (if seen then conflict else absent) ≢ exists
no_exists true h = cc
no_exists false h = cc

-- The scan of the addresses of the bridge finds that an address exists exactly if one of them has
-- its text.
pub scan_addresses-exists_iff :
    (cidr : Text) (family : Family) (seen : Bool) (addrs : List IpNet)
    → (scan_addresses cidr family seen addrs ≡ exists) ↔ Has cidr addrs
unfolding scan_addresses
scan_addresses-exists_iff cidr family seen [] = (λ h. absurd (no_exists seen h), λ h. cc)
scan_addresses-exists_iff cidr family seen (a ∷ addrs) =
    let next = if is_v6 family && is_link_local_unicast a.ip then seen else true in
    let rest = scan_addresses-exists_iff cidr family next addrs in
    elim (Bool-cases (text_eq (show_net a) cidr)) [
      | inl same ↦ (λ h. inl same, λ h. rw same refl)
      | inr other ↦ (λ h. inr (rest.0 (rw other at h)), λ h. rw other (rest.1 (later other h)))
    ]
  where
    later : text_eq (show_net a) cidr ≡ false → Has cidr (a ∷ addrs) → Has cidr addrs
    later other (inl same) = cc
    later other (inr has) = has

seen_not_absent :
    (cidr : Text) (family : Family) (addrs : List IpNet)
    → scan_addresses cidr family true addrs ≢ absent
unfolding scan_addresses
seen_not_absent cidr family [] h = cc
seen_not_absent cidr family (a ∷ addrs) h = elim (Bool-cases (text_eq (show_net a) cidr)) [
  | inl same ↦ let e : exists ≡ absent = rw same at h in cc
  | inr other ↦ elim (Bool-cases (is_v6 family && is_link_local_unicast a.ip)) [
    | inl harmless ↦ seen_not_absent cidr family addrs (rw (other, harmless) at h)
    | inr counts ↦ seen_not_absent cidr family addrs (rw (other, counts) at h)
  ]
]

-- The scan of the addresses of the bridge leaves an address to be added exactly if none of them
-- has its text and all of them are link-local addresses while the family is IPv6.
pub scan_addresses-absent_iff :
    (cidr : Text) (family : Family) (addrs : List IpNet)
    → (scan_addresses cidr family false addrs ≡ absent) ↔ All (IsHarmless cidr family) addrs
unfolding scan_addresses
scan_addresses-absent_iff cidr family [] = (λ h. tt, λ h. refl)
scan_addresses-absent_iff cidr family (a ∷ addrs) =
    let rest = scan_addresses-absent_iff cidr family addrs in
    let not_absent = seen_not_absent cidr family addrs in
    (
      λ h. ((ground arith, ground arith), rest.0 (ground arith)),
      λ ((t, q), all). ground (arith, rest.1 all),
    )
