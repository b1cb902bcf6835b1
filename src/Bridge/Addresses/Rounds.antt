-- ===== src/Bridge/Addresses/Rounds.antt =====
-- The rounds of ConfigureBridge, as its code makes them.
use amazon_ecs_cni_plugins.Base.{
  ◌≡◌, ◌⊎◌, ◌≢◌, refl, ◌∙◌, sym, ap, subst, inl, inr, false, List, [], ◌∷◌, All, Error, Result,
  Result-cases, ok, err,
}
use amazon_ecs_cni_plugins.Base.Exec.{continue}
use amazon_ecs_cni_plugins.Net.{IpNet}
use amazon_ecs_cni_plugins.Net.Format.{show_net}
use amazon_ecs_cni_plugins.Cni.{IpConfig}
use amazon_ecs_cni_plugins.Host.{Host, Link, History, addr_list, addr_add}
use amazon_ecs_cni_plugins.Bridge.Addresses.{
  Scan, exists, conflict, absent, family_of, bridge_network, scan_addresses, no_entry, assigned,
  list_addresses, assign_address, settle, configure_address, configure_bridge,
}
use amazon_ecs_cni_plugins.Bridge.Addresses.Scans.{
  Has, IsHarmless, scan_addresses-exists_iff, scan_addresses-absent_iff,
}

module _ (host : Host) (bridge : Link) where
  -- The listing of the bridge's addresses of the family of an IP configuration.
  abbrev pub listed : IpConfig → History → Result (List IpNet)
  listed c h = no_entry (host.addresses h bridge (family_of c.address.ip))

  abbrev pub with_listing : IpConfig → History → History
  with_listing c h = addr_list bridge (family_of c.address.ip) ∷ h

  abbrev pub assignment : IpConfig → History → Result (Unit {0})
  assignment c h = assigned (host.done (with_listing c h) (addr_add bridge (bridge_network c)))

  -- The rounds of a successful ConfigureBridge from one history to another: the bridge has the
  -- gateway's address already, or has nothing in its way and gets it.
  pub data Rounds : List IpConfig → History → History → Type 0 where
    all_done : (h : History) → Rounds [] h h
    has_address :
        (c : IpConfig) (cs : List IpConfig) (addrs : List IpNet) (h h' : History)
        → listed c h ≡ ok addrs
        → Has (show_net (bridge_network c)) addrs
        → Rounds cs (with_listing c h) h'
        → Rounds (c ∷ cs) h h'
    gets_address :
        (c : IpConfig) (cs : List IpConfig) (addrs : List IpNet) (h h' : History)
        → listed c h ≡ ok addrs
        → All (IsHarmless (show_net (bridge_network c)) (family_of c.address.ip)) addrs
        → assignment c h ≡ ok tt
        → Rounds cs (addr_add bridge (bridge_network c) ∷ with_listing c h) h'
        → Rounds (c ∷ cs) h h'

  scanned : IpConfig → List IpNet → Scan
  scanned c addrs =
      scan_addresses (show_net (bridge_network c)) (family_of c.address.ip) false addrs

  Scan-cases : (s : Scan) → (s ≡ exists) ⊎ ((s ≡ conflict) ⊎ (s ≡ absent))
  Scan-cases exists = inl refl
  Scan-cases conflict = inr (inl refl)
  Scan-cases absent = inr (inr refl)

  -- A round, by the answer of the listing and by what the scan finds.
  round-listed :
      (c : IpConfig) (cs : List IpConfig) (addrs : List IpNet) (s : Scan) (h : History)
      → listed c h ≡ ok addrs
      → scanned c addrs ≡ s
      → configure_bridge host bridge (c ∷ cs) h
        ≡ continue
            (settle host bridge s (bridge_network c) (with_listing c h))
            (λ _. configure_bridge host bridge cs)
  unfolding configure_bridge configure_address list_addresses scanned
  round-listed c cs addrs s h q f = rw (q, configure_bridge, f) refl

  round-failed :
      (c : IpConfig) (cs : List IpConfig) (e : Error) (h : History)
      → listed c h ≡ err e
      → configure_bridge host bridge (c ∷ cs) h ≡ (err e, with_listing c h)
  unfolding configure_bridge configure_address list_addresses
  round-failed c cs e h q = rw (q, configure_bridge) refl

  assign-ok :
      (c : IpConfig) (cs : List IpConfig) (h : History)
      → assignment c h ≡ ok tt
      → continue
          (settle host bridge absent (bridge_network c) (with_listing c h))
          (λ _. configure_bridge host bridge cs)
        ≡ configure_bridge host bridge cs (addr_add bridge (bridge_network c) ∷ with_listing c h)
  unfolding settle assign_address
  assign-ok c cs h a = rw (a, settle) refl

  assign-err :
      (c : IpConfig) (cs : List IpConfig) (h : History) (e : Error)
      → assignment c h ≡ err e
      → (continue
          (settle host bridge absent (bridge_network c) (with_listing c h))
          (λ _. configure_bridge host bridge cs)).0
        ≡ err e
  unfolding settle assign_address
  assign-err c cs h e a = rw (a, settle) refl

  failed : (x : Error) → (r : Result (Unit {0})) → err x ≡ r → r ≢ ok tt
  failed x r p e = cc

  pub configure_bridge-Rounds :
      (cs : List IpConfig) (h h' : History)
      → configure_bridge host bridge cs h ≡ (ok tt, h')
      → Rounds cs h h'
  unfolding configure_bridge settle scanned
  configure_bridge-Rounds [] h h' e = subst (Rounds [] h) (ap (λ r. r.1) e) (all_done h)
  configure_bridge-Rounds (c ∷ cs) h h' e = elim (Result-cases (listed c h)) [
    | inr (x, q) ↦ absurd (failed x _ refl (ap (λ r. r.0) (sym (round-failed c cs x h q) ∙ e)))
    | inl (addrs, q) ↦ elim (Scan-cases (scanned c addrs)) [
      | inl f ↦ has_address c cs addrs h h' q ((scan_addresses-exists_iff _ _ false addrs).0 f) (
          configure_bridge-Rounds cs (with_listing c h) h'
            (sym (round-listed c cs addrs exists h q f) ∙ e))
      | inr (inl f) ↦
          absurd
            (failed _ _ refl (ap (λ r. r.0) (sym (round-listed c cs addrs conflict h q f) ∙ e)))
      | inr (inr f) ↦
          let rest = sym (round-listed c cs addrs absent h q f) ∙ e in
          elim (Result-cases (assignment c h)) [
            | inl (tt, a) ↦
                gets_address c cs addrs h h' q ((scan_addresses-absent_iff _ _ addrs).0 f) a
                  (configure_bridge-Rounds cs _ h' (sym (assign-ok c cs h a) ∙ rest))
            | inr (x, a) ↦
                absurd (failed x _ refl (sym (assign-err c cs h x a) ∙ ap (λ r. r.0) rest))
          ]
    ]
  ]

  pub Rounds-configure_bridge :
      (cs : List IpConfig) (h h' : History)
      → Rounds cs h h'
      → configure_bridge host bridge cs h ≡ (ok tt, h')
  unfolding configure_bridge settle scanned
  Rounds-configure_bridge cs h h' (all_done _) = refl
  Rounds-configure_bridge cs h h' (has_address c cs' addrs _ _ q has rest) =
      round-listed c cs' addrs exists h q ((scan_addresses-exists_iff _ _ false addrs).1 has)
      ∙ Rounds-configure_bridge cs' (with_listing c h) h' rest
  Rounds-configure_bridge cs h h' (gets_address c cs' addrs _ _ q clear a rest) =
      round-listed c cs' addrs absent h q ((scan_addresses-absent_iff _ _ addrs).1 clear)
      ∙ assign-ok c cs' h a
      ∙ Rounds-configure_bridge cs' _ h' rest
