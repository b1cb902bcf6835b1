-- ===== src/Bridge/Addresses/Described.antt =====
-- When ConfigureBridge succeeds, and what it has called then.
use amazon_ecs_cni_plugins.Base.{
  ◌≡◌, ◌↔◌, ◌⊎◌, refl, ◌∙◌, subst, inl, inr, true, Bool-cases, List, [], ◌∷◌, All, Error,
  Result-cases, ok, err,
}
use amazon_ecs_cni_plugins.Net.{IpNet}
use amazon_ecs_cni_plugins.Net.Format.{show_net}
use amazon_ecs_cni_plugins.Cni.{IpConfig}
use amazon_ecs_cni_plugins.Host.{
  Host, Link, History, Family, addr_list, addr_add, is_errno, says_file_exists,
}
use amazon_ecs_cni_plugins.Bridge.Addresses.{family_of, bridge_network, configure_bridge}
use amazon_ecs_cni_plugins.Bridge.Addresses.Networks.{
  IsFamilyOf, IsNetworkOf, family_of-IsFamilyOf, IsFamilyOf-family_of, bridge_network-IsNetworkOf,
  IsNetworkOf-bridge_network,
}
use amazon_ecs_cni_plugins.Bridge.Addresses.Scans.{Has, IsHarmless}
use amazon_ecs_cni_plugins.Bridge.Addresses.Rounds.{
  Rounds, listed, with_listing, assignment, configure_bridge-Rounds, Rounds-configure_bridge,
}

module _ (host : Host) (bridge : Link) where
  -- The bridge has these addresses of the family; ENOENT says that it has none.
  abbrev pub Lists : Family → History → List IpNet → Type 0
  Lists family h addrs =
      (host.addresses h bridge family ≡ ok addrs)
      ⊎ ((e : Error) × (host.addresses h bridge family ≡ err e)
          × (is_errno 2 e ≡ true)
          × (addrs ≡ []))

  -- The network is added to the bridge, or there already in spite of the list.
  abbrev pub Adds : IpNet → History → Type 0
  Adds network h =
      (host.done h (addr_add bridge network) ≡ ok tt)
      ⊎ ((e : Error) × (host.done h (addr_add bridge network) ≡ err e)
          × (says_file_exists e ≡ true))

  listed-Lists :
      (c : IpConfig) (h : History) (addrs : List IpNet)
      → listed host bridge c h ≡ ok addrs
      → Lists (family_of c.address.ip) h addrs
  listed-Lists c h addrs q =
      elim (Result-cases (host.addresses h bridge (family_of c.address.ip))) [
        | inl (all, r) ↦ let same : ok all ≡ ok addrs = rw r at q in inl (r ∙ same)
        | inr (e, r) ↦ elim (Bool-cases (is_errno 2 e)) [
          | inl missing ↦
              let same : ok [] ≡ ok addrs = rw (r, missing) at q in inr (e, r, missing, cc)
          | inr other ↦ let bad : err _ ≡ ok addrs = rw (r, other) at q in cc
        ]
      ]

  Lists-listed :
      (c : IpConfig) (h : History) (addrs : List IpNet)
      → Lists (family_of c.address.ip) h addrs
      → listed host bridge c h ≡ ok addrs
  Lists-listed c h addrs (inl r) = rw r refl
  Lists-listed c h addrs (inr (e, r, missing, nothing)) = rw (r, missing, nothing) refl

  assignment-Adds :
      (c : IpConfig) (h : History)
      → assignment host bridge c h ≡ ok tt
      → Adds (bridge_network c) (with_listing host bridge c h)
  assignment-Adds c h q =
      let g = with_listing host bridge c h in
      elim (Result-cases (host.done g (addr_add bridge (bridge_network c)))) [
        | inl (u, r) ↦ inl r
        | inr (e, r) ↦ elim (Bool-cases (says_file_exists e)) [
          | inl there ↦ inr (e, r, there)
          | inr other ↦ let bad : err _ ≡ ok tt = rw (r, other) at q in cc
        ]
      ]

  Adds-assignment :
      (c : IpConfig) (h : History)
      → Adds (bridge_network c) (with_listing host bridge c h)
      → assignment host bridge c h ≡ ok tt
  Adds-assignment c h (inl r) = rw r refl
  Adds-assignment c h (inr (e, r, there)) = rw (r, there) refl

  -- The bridge's addresses are configured, from one history to another: for each IP configuration,
  -- the addresses of its family are listed, and the gateway's network is among them, or it is not,
  -- none is in its way, and it is added.
  pub data Configured : List IpConfig → History → History → Type 0 where
    all_done : (h : History) → Configured [] h h
    has_address :
        (c : IpConfig) (cs : List IpConfig) (family : Family) (network : IpNet) (addrs : List IpNet)
        (h h' : History)
        → IsFamilyOf c.address.ip family
        → IsNetworkOf c network
        → Lists family h addrs
        → Has (show_net network) addrs
        → Configured cs (addr_list bridge family ∷ h) h'
        → Configured (c ∷ cs) h h'
    gets_address :
        (c : IpConfig) (cs : List IpConfig) (family : Family) (network : IpNet) (addrs : List IpNet)
        (h h' : History)
        → IsFamilyOf c.address.ip family
        → IsNetworkOf c network
        → Lists family h addrs
        → All (IsHarmless (show_net network) family) addrs
        → Adds network (addr_list bridge family ∷ h)
        → Configured cs (addr_add bridge network ∷ addr_list bridge family ∷ h) h'
        → Configured (c ∷ cs) h h'

  Rounds-Configured :
      (cs : List IpConfig) (h h' : History) → Rounds host bridge cs h h' → Configured cs h h'
  Rounds-Configured cs h h' (Rounds.all_done _) = all_done h
  Rounds-Configured cs h h' (Rounds.has_address c cs' addrs _ _ q has rest) =
      has_address c cs' (family_of c.address.ip) (bridge_network c) addrs h h'
        (family_of-IsFamilyOf c.address.ip) (bridge_network-IsNetworkOf c)
        (listed-Lists c h addrs q) has
        (Rounds-Configured cs' (with_listing host bridge c h) h' rest)
  Rounds-Configured cs h h' (Rounds.gets_address c cs' addrs _ _ q clear a rest) =
      gets_address c cs' (family_of c.address.ip) (bridge_network c) addrs h h'
        (family_of-IsFamilyOf c.address.ip) (bridge_network-IsNetworkOf c)
        (listed-Lists c h addrs q) clear (assignment-Adds c h a)
        (Rounds-Configured cs' (addr_add bridge (bridge_network c) ∷ with_listing host bridge c h)
          h' rest)

  Configured-Rounds :
      (cs : List IpConfig) (h h' : History) → Configured cs h h' → Rounds host bridge cs h h'
  Configured-Rounds cs h h' (all_done _) = Rounds.all_done h
  Configured-Rounds cs h h' (has_address c cs' family network addrs _ _ f n lists has rest) =
      let p = IsFamilyOf-family_of c.address.ip family f in
      let q = IsNetworkOf-bridge_network c network n in
      Rounds.has_address c cs' addrs h h'
        (Lists-listed c h addrs (subst (λ x. Lists x h addrs) p lists))
        (subst (λ x. Has (show_net x) addrs) q has)
        (subst (λ x. Rounds host bridge cs' (addr_list bridge x ∷ h) h') p
          (Configured-Rounds cs' (addr_list bridge family ∷ h) h' rest))
  Configured-Rounds cs h h'
        (gets_address c cs' family network addrs _ _ f n lists clear adds rest) =
      let p = IsFamilyOf-family_of c.address.ip family f in
      let q = IsNetworkOf-bridge_network c network n in
      Rounds.gets_address c cs' addrs h h'
        (Lists-listed c h addrs (subst (λ x. Lists x h addrs) p lists))
        (subst (λ x. All (IsHarmless (show_net (bridge_network c)) x) addrs) p
          (subst (λ y. All (IsHarmless (show_net y) family) addrs) q clear))
        (Adds-assignment c h (
          subst (λ x. Adds (bridge_network c) (addr_list bridge x ∷ h)) p
            (subst (λ y. Adds y (addr_list bridge family ∷ h)) q adds)))
        (subst
          (λ x.
            Rounds host bridge cs' (addr_add bridge (bridge_network c) ∷ addr_list bridge x ∷ h) h')
          p
          (subst (λ y. Rounds host bridge cs' (addr_add bridge y ∷ addr_list bridge family ∷ h) h')
            q
            (Configured-Rounds cs' (addr_add bridge network ∷ addr_list bridge family ∷ h) h'
              rest)))

  -- ConfigureBridge succeeds with a history of calls exactly if that history is made of a round
  -- for each IP configuration, in order: the bridge's addresses of the family of its address are
  -- listed, where ENOENT counts as none, and either one of them has the text of the gateway's
  -- network, and no other call is made, or none has it and all are IPv6 link-local addresses while
  -- the family is IPv6, and the gateway's network is added to the bridge, or is refused because it
  -- exists. The gateway's network is the gateway's address with the mask /22 if it is a link-local
  -- IPv4 address, /64 if it is a link-local IPv6 address, /112 if it is one of fd00::/8, and else
  -- with the mask of the configuration's address.
  pub configure_bridge_iff :
      (cs : List IpConfig) (h h' : History)
      → (configure_bridge host bridge cs h ≡ (ok tt, h')) ↔ Configured cs h h'
  configure_bridge_iff cs h h' = (
    λ e. Rounds-Configured cs h h' (configure_bridge-Rounds host bridge cs h h' e),
    λ c. Rounds-configure_bridge host bridge cs h h' (Configured-Rounds cs h h' c),
  )
