-- ===== src/Ipam/Commands/Assigned.antt =====
-- ADD of the IPAM plugin for a configuration that names an IPv4 address.
use amazon_ecs_cni_plugins.Base.{
  String, ℕ, ◌≡◌, ◌∙◌, ap, sym, refl, arith, inl, inr, Bool-cases, Result-cases, Text, text_eq,
  text_eq_iff, true, false, Option, none, some, [], Result, ok, err, if◌then◌else◌,
}
use amazon_ecs_cni_plugins.Base.Exec.{annotate-ok}
use amazon_ecs_cni_plugins.Net.{Ip, IpNet, is_nil}
use amazon_ecs_cni_plugins.Net.Format.{show_ip}
use amazon_ecs_cni_plugins.IpStore.Db.{Store, IsLawful, IsHealthy}
use amazon_ecs_cni_plugins.IpStore.Manager.{IpManager, get, assign}
use amazon_ecs_cni_plugins.IpStore.Manager.Effects.{contents, with_key, assign-free, assign-ok}
use amazon_ecs_cni_plugins.Cni.{CniResult}
use amazon_ecs_cni_plugins.Ipam.Config.{IpamConfig, has_ipv4, has_ipv6}
use amazon_ecs_cni_plugins.Ipam.Commands.{
  last_known_ip_key, gateway_value, update_or_warn, verify_gateway, get_ipv4_address,
  construct_results, add_ipv4, add_ipv6, add_result, add,
}
use amazon_ecs_cni_plugins.Ipam.Commands.Release.{update_or_warn-contents}

module _ (S : Store) (L : IsLawful S) where
  -- A value that Get gives and that is not empty is in the database.
  get-held :
      (k v : Text) (m : IpManager S)
      → get S k m ≡ ok v
      → text_eq v [] ≡ false
      → contents S L m k ≡ some v
  unfolding get text_eq
  get-held k v m h n = elim (Result-cases (S.get m.client k)) [
    | inl (w, q) ↦ let same : ok w ≡ ok v = rw (q, get) at h in L.get_ok m.client k v (q ∙ same)
    | inr (e, q) ↦ ground arith
  ]

  -- Setting a key to the value that it has changes nothing.
  with_key-same :
      (k v j : Text) (m : IpManager S)
      → contents S L m k ≡ some v
      → contents S L m j ≡ with_key S L (contents S L m) k (some v) j
  with_key-same k v j m h = elim (Bool-cases (text_eq j k)) [
    | inl same ↦ rw same (ap (contents S L m) ((text_eq_iff j k).0 same) ∙ h)
    | inr other ↦ rw other refl
  ]

  -- After the check of the gateway its key holds the mark of gateways, and nothing else changed.
  pub verify_gateway-ok :
      (gw : Ip) (m : IpManager S) (j : Text)
      → (verify_gateway S gw m).0 ≡ ok tt
      → contents S L (verify_gateway S gw m).1 j
        ≡ with_key S L (contents S L m) (show_ip gw) (some gateway_value) j
  unfolding verify_gateway
  verify_gateway-ok gw m j h = elim (Result-cases (get S (show_ip gw) m)) [
    | inr (e, q) ↦ let bad : err _ ≡ ok tt = rw (q, verify_gateway) at h in cc
    | inl (value, q) ↦ elim (Bool-cases (text_eq value [])) [
      | inl new ↦
          let text : String = "verifyGateway commands: failed to update gateway into the db" in
          let done = rw (q, verify_gateway, new) at h in
          let (assigned, same) = annotate-ok text (assign S (show_ip gw) gateway_value m) tt done in
          rw (q, verify_gateway, new)
            (ap (λ r. contents S L r.1 j) same
              ∙ assign-ok S L (show_ip gw) gateway_value j m assigned)
      | inr old ↦ elim (Bool-cases (text_eq value gateway_value)) [
        | inl ours ↦
            let held =
              get-held (show_ip gw) value m q old
              ∙ ap some ((text_eq_iff value gateway_value).0 ours) in
            rw (q, verify_gateway, old, ours) (with_key-same (show_ip gw) gateway_value j m held)
        | inr other ↦ let bad : err _ ≡ ok tt = rw (q, verify_gateway, old, other) at h in cc
      ]
    ]
  ]

  module _ (H : IsHealthy S) (fuel : ℕ) (conf : IpamConfig) (m : IpManager S) where
    -- The texts of the gateway and of the address, and the contents after each of the two.
    abbrev gateway : Text
    gateway = show_ip conf.ipv4_gateway

    abbrev pub address : Text
    address = show_ip conf.ipv4_address.ip

    abbrev pub with_gateway : Text → Option Text
    with_gateway = with_key S L (contents S L m) gateway (some gateway_value)

    get_ipv4_address-named :
        (n : IpManager S) (a : IpNet)
        → is_nil conf.ipv4_address.ip ≡ false
        → (get_ipv4_address S fuel conf n).0 ≡ ok a
        → ((assign S address conf.id n).0 ≡ ok tt)
          × (get_ipv4_address S fuel conf n
              ≡ (ok conf.ipv4_address, (assign S address conf.id n).1))
    unfolding get_ipv4_address
    get_ipv4_address-named n a named h = elim (Result-cases (assign S address conf.id n).0) [
      | inl (u, q) ↦ (q, rw (named, get_ipv4_address, q) refl)
      | inr (e, q) ↦ let bad : err _ ≡ ok a = rw (named, get_ipv4_address, q) at h in cc
    ]

    add_ipv4-named :
        (a : Option IpNet)
        → has_ipv4 conf ≡ true
        → is_nil conf.ipv4_address.ip ≡ false
        → (add_ipv4 S fuel conf m).0 ≡ ok a
        → let m1 = (verify_gateway S conf.ipv4_gateway m).1 in
          ((verify_gateway S conf.ipv4_gateway m).0 ≡ ok tt)
          × ((assign S address conf.id m1).0 ≡ ok tt)
          × (add_ipv4 S fuel conf m ≡ (
            ok (some conf.ipv4_address),
            update_or_warn S last_known_ip_key address (assign S address conf.id m1).1,
          ))
    unfolding add_ipv4
    add_ipv4-named a four named h = elim (Result-cases (verify_gateway S conf.ipv4_gateway m).0) [
      | inr (e, q) ↦ let bad : err _ ≡ ok a = rw (four, add_ipv4, q) at h in cc
      | inl (tt, q) ↦
          let m1 = (verify_gateway S conf.ipv4_gateway m).1 in
          elim (Result-cases (get_ipv4_address S fuel conf m1).0) [
            | inr (e, r) ↦ let bad : err _ ≡ ok a = rw (four, add_ipv4, q, r) at h in cc
            | inl (b, r) ↦
                let (assigned, whole) = get_ipv4_address-named m1 b named r in
                (q, assigned, rw (four, add_ipv4, q, whole) refl)
          ]
    ]

    -- The contents after an ADD that gave the address with a text.
    abbrev pub given : Text → Text → Option Text
    given text =
        with_key S L (with_key S L with_gateway text (some conf.id)) last_known_ip_key (some text)

    -- What the IPv4 part of ADD does, if it succeeds.
    add_ipv4-assigns :
        (a : Option IpNet)
        → has_ipv4 conf ≡ true
        → is_nil conf.ipv4_address.ip ≡ false
        → (add_ipv4 S fuel conf m).0 ≡ ok a
        → (a ≡ some conf.ipv4_address)
          × (with_gateway address ≡ none)
          × ((j : Text) → contents S L (add_ipv4 S fuel conf m).1 j ≡ given address j)
    add_ipv4-assigns a four named h =
        let (checked, taken, whole) = add_ipv4-named a four named h in
        let m1 = (verify_gateway S conf.ipv4_gateway m).1 in
        let m2 = (assign S address conf.id m1).1 in
        let at_gateway : (j : Text) → contents S L m1 j ≡ with_gateway j =
          λ j. verify_gateway-ok conf.ipv4_gateway m j checked in
        (
          same_answer (sym h ∙ ap (λ r. r.0) whole),
          sym (at_gateway address) ∙ assign-free S L address conf.id m1 taken,
          λ j.
              ap (λ r. contents S L r.1 j) whole
              ∙ update_or_warn-contents S L H conf m last_known_ip_key address j m2
              ∙ ap (λ o. if text_eq j last_known_ip_key then some address else o)
                  (assign-ok S L address conf.id j m1 taken
                    ∙ ap (λ o. if text_eq j address then some conf.id else o) (at_gateway j)),
        )
      where
        same_answer : {a b : Option IpNet} → ok a ≡ ok b → a ≡ b
        same_answer e = cc

    pub add-ipv4 :
        (print_result : CniResult → Text → Result (Unit {0})) (cni_version : Text)
        → has_ipv6 conf ≡ false
        → (add S fuel print_result conf cni_version m).0 ≡ ok tt
        → (a : Option IpNet) × ((add_ipv4 S fuel conf m).0 ≡ ok a)
          × ((add S fuel print_result conf cni_version m).1 ≡ (add_ipv4 S fuel conf m).1)
    unfolding add add_result add_ipv6
    add-ipv4 print_result cni_version six h = elim (Result-cases (add_ipv4 S fuel conf m).0) [
      | inr (e, q) ↦ let bad : err _ ≡ ok tt = rw (add, q) at h in cc
      | inl (a, q) ↦ elim (Result-cases (construct_results conf a none)) [
        | inr (e, r) ↦ let bad : err _ ≡ ok tt = rw (add, q, six, r) at h in cc
        | inl (result, r) ↦ (a, q, rw (add, q, six, r) refl)
      ]
    ]

    -- The address is free once the gateway is marked, and ADD gives it to the id.
    pub add-effect :
        (print_result : CniResult → Text → Result (Unit {0})) (cni_version : Text)
        → has_ipv4 conf ≡ true
        → has_ipv6 conf ≡ false
        → is_nil conf.ipv4_address.ip ≡ false
        → (add S fuel print_result conf cni_version m).0 ≡ ok tt
        → (with_gateway address ≡ none)
          × ((j : Text)
              → contents S L (add S fuel print_result conf cni_version m).1 j ≡ given address j)
    add-effect print_result cni_version four six named h =
        let (a, done, last) = add-ipv4 print_result cni_version six h in
        let (answer, free, all) = add_ipv4-assigns a four named done in
        (free, λ j. ap (λ n. contents S L n j) last ∙ all j)

    -- On a lawful store that does not fail, for a configuration with an IPv4 subnet, without an
    -- IPv6 subnet, that names an IPv4 address: if ADD of the IPAM plugin succeeds, the address had
    -- no entry, and after ADD the gateway's key holds the gateway's value, the address's key holds
    -- the id, the last known address is the address, and all other keys are as before.
    pub add-assigns :
        (print_result : CniResult → Text → Result (Unit {0})) (cni_version : Text)
        → has_ipv4 conf ≡ true
        → has_ipv6 conf ≡ false
        → is_nil conf.ipv4_address.ip ≡ false
        → (add S fuel print_result conf cni_version m).0 ≡ ok tt
        → (contents S L m (show_ip conf.ipv4_address.ip) ≡ none)
          × ((j : Text)
              → contents S L (add S fuel print_result conf cni_version m).1 j
                ≡ with_key S L
                    (with_key S L
                      (with_key S L
                        (contents S L m)
                        (show_ip conf.ipv4_gateway)
                        (some gateway_value))
                      (show_ip conf.ipv4_address.ip)
                      (some conf.id))
                    last_known_ip_key
                    (some (show_ip conf.ipv4_address.ip))
                    j)
    add-assigns print_result cni_version four six named h =
        let (free, all) = add-effect print_result cni_version four six named h in
        (ground arith, all)
