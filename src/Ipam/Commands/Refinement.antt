-- ===== src/Ipam/Commands/Refinement.antt =====
-- ADD of the IPAM plugin as changes of the leases.
use amazon_ecs_cni_plugins.Base.{
  ℕ, ◌≡◌, ◌++◌, refl, Bool-cases, Result-cases, inl, inr, Text, codes, text_eq, has_prefix, true,
  not, Option, some, [], Result, ok,
}
use amazon_ecs_cni_plugins.Base.Exec.{Exec, lift, ◌>>=◌}
use amazon_ecs_cni_plugins.Net.{Ip, IpNet, is_nil}
use amazon_ecs_cni_plugins.Net.Format.{show_ip}
use amazon_ecs_cni_plugins.IpStore.Db.{Store, IsLawful}
use amazon_ecs_cni_plugins.IpStore.Manager.{
  IpManager, get, assign, set_last_known_ip, set_last_known_ipv6, ip_prefix_v6, last_known_ipv6_key,
}
use amazon_ecs_cni_plugins.IpStore.Allocate.{get_available_ip, get_available_ipv6}
use amazon_ecs_cni_plugins.IpStore.Leases.{is_mark, Leasing, remember, same}
use amazon_ecs_cni_plugins.IpStore.Leases.Rules.{
  Refines, Refines-then, Refines-note, Refines-pure, Refines-if, Moves-annotate,
}
use amazon_ecs_cni_plugins.IpStore.Leases.Operations.{assign-Refines, update-Refines}
use amazon_ecs_cni_plugins.IpStore.Leases.Searches.{
  get_available_ip-Refines, get_available_ipv6-Refines,
}
use amazon_ecs_cni_plugins.Cni.{CniResult}
use amazon_ecs_cni_plugins.Ipam.Config.{IpamConfig, has_ipv4, has_ipv6}
use amazon_ecs_cni_plugins.Ipam.Commands.{
  last_known_ip_key, gateway_value, gateway_v6_value, construct_results, update_or_warn,
  verify_gateway, verify_gateway_v6, start_ipv4, start_ipv6, get_ipv4_address_from_db,
  get_ipv4_address, get_ipv6_address_from_db, get_ipv6_address, add_ipv4, add_ipv6, add_result, add,
}

pub ip_mark : is_mark last_known_ip_key ≡ true
unfolding has_prefix
ip_mark = refl

pub ipv6_mark : is_mark last_known_ipv6_key ≡ true
unfolding has_prefix
ipv6_mark = refl

module _ (S : Store) (L : IsLawful S) where
  verify_gateway-Refines : (gw : Ip) → Refines S L Leasing (verify_gateway S gw)
  unfolding verify_gateway
  verify_gateway-Refines gw m = elim (Result-cases (get S (show_ip gw) m)) [
    | inr (e, q) ↦ rw (q, verify_gateway) same
    | inl (value, q) ↦ elim (Bool-cases (text_eq value [])) [
      | inl new ↦
          rw (q, verify_gateway, new)
            (Moves-annotate S L Leasing m _ (assign S (show_ip gw) gateway_value m)
              (assign-Refines S L (show_ip gw) gateway_value m))
      | inr old ↦ elim (Bool-cases (text_eq value gateway_value)) [
        | inl ours ↦ rw (q, verify_gateway, old, ours) same
        | inr other ↦ rw (q, verify_gateway, old, other) same
      ]
    ]
  ]

  verify_gateway_v6-Refines : (gw : Ip) → Refines S L Leasing (verify_gateway_v6 S gw)
  unfolding verify_gateway_v6
  verify_gateway_v6-Refines gw m = elim (Result-cases (get S (ip_prefix_v6 ++ show_ip gw) m)) [
    | inr (e, q) ↦ rw (q, verify_gateway_v6) same
    | inl (value, q) ↦ elim (Bool-cases (text_eq value [])) [
      | inl new ↦
          rw (q, verify_gateway_v6, new)
            (Moves-annotate S L Leasing m _
              (assign S (ip_prefix_v6 ++ show_ip gw) gateway_v6_value m)
              (assign-Refines S L (ip_prefix_v6 ++ show_ip gw) gateway_v6_value m))
      | inr old ↦ elim (Bool-cases (text_eq value gateway_v6_value)) [
        | inl ours ↦ rw (q, verify_gateway_v6, old, ours) same
        | inr other ↦ rw (q, verify_gateway_v6, old, other) same
      ]
    ]
  ]

  module _ (fuel : ℕ) (conf : IpamConfig) where
    from_db-Refines : Refines S L Leasing (get_ipv4_address_from_db S fuel conf)
    unfolding get_ipv4_address_from_db set_last_known_ip
    from_db-Refines m = elim (Result-cases (start_ipv4 S conf m)) [
      | inr (e, q) ↦ rw (q, get_ipv4_address_from_db) same
      | inl (start, q) ↦
          rw (q, get_ipv4_address_from_db)
            (Moves-annotate S L Leasing m _
              (get_available_ip S fuel conf.id (set_last_known_ip S start m))
              (get_available_ip-Refines S L fuel conf.id (set_last_known_ip S start m)))
    ]

    from_db_v6-Refines : Refines S L Leasing (get_ipv6_address_from_db S fuel conf)
    unfolding get_ipv6_address_from_db set_last_known_ipv6
    from_db_v6-Refines m = elim (Result-cases (start_ipv6 S conf m)) [
      | inr (e, q) ↦ rw (q, get_ipv6_address_from_db) same
      | inl (start, q) ↦
          rw (q, get_ipv6_address_from_db)
            (Moves-annotate S L Leasing m _
              (get_available_ipv6 S fuel conf.id (set_last_known_ipv6 S start m))
              (get_available_ipv6-Refines S L fuel conf.id (set_last_known_ipv6 S start m)))
    ]

    get_ipv4_address-Refines : Refines S L Leasing (get_ipv4_address S fuel conf)
    unfolding get_ipv4_address
    get_ipv4_address-Refines =
        Refines-if S L Leasing (not (is_nil conf.ipv4_address.ip)) _ _
          (Refines-then S L Leasing _ _
            (Refines-note S L Leasing _ "getIPV4Address commands: failed to mark this ip %v as used"
              (assign-Refines S L (show_ip conf.ipv4_address.ip) conf.id))
            λ _. Refines-pure S L Leasing conf.ipv4_address)
          (Refines-then S L Leasing _ _ from_db-Refines λ next_ip m. same)

    get_ipv6_address-Refines : Refines S L Leasing (get_ipv6_address S fuel conf)
    unfolding get_ipv6_address
    get_ipv6_address-Refines =
        Refines-if S L Leasing (not (is_nil conf.ipv6_address.ip)) _ _
          (Refines-then S L Leasing _ _
            (Refines-note S L Leasing _ "getIPV6Address commands: failed to mark this ip %v as used"
              (assign-Refines S L (ip_prefix_v6 ++ show_ip conf.ipv6_address.ip)
                (conf.id ++ codes "-v6")))
            λ _. Refines-pure S L Leasing conf.ipv6_address)
          (Refines-then S L Leasing _ _ from_db_v6-Refines λ next_ip m. same)

    add_ipv4-Refines : Refines S L Leasing (add_ipv4 S fuel conf)
    unfolding add_ipv4 update_or_warn
    add_ipv4-Refines =
        Refines-if S L Leasing (not (has_ipv4 conf)) _ _ (λ m. same)
          (Refines-then S L Leasing (verify_gateway S conf.ipv4_gateway) (λ _. address_and_mark)
            (verify_gateway-Refines conf.ipv4_gateway)
            λ _.
              Refines-then S L Leasing (get_ipv4_address S fuel conf) record_mark
                get_ipv4_address-Refines
                λ ipv4 m.
                  update-Refines S L Leasing (λ f k v p. remember k v p) last_known_ip_key
                    (show_ip ipv4.ip) ip_mark m)
      where
        record_mark : IpNet → Exec (IpManager S) (Option IpNet)
        record_mark ipv4 m =
            (ok (some ipv4), update_or_warn S last_known_ip_key (show_ip ipv4.ip) m)

        address_and_mark : Exec (IpManager S) (Option IpNet)
        address_and_mark = get_ipv4_address S fuel conf >>= record_mark

    add_ipv6-Refines : Refines S L Leasing (add_ipv6 S fuel conf)
    unfolding add_ipv6 update_or_warn
    add_ipv6-Refines =
        Refines-if S L Leasing (not (has_ipv6 conf)) _ _ (λ m. same)
          (Refines-then S L Leasing (verify_gateway_v6 S conf.ipv6_gateway) (λ _. address_and_mark)
            (verify_gateway_v6-Refines conf.ipv6_gateway)
            λ _.
              Refines-then S L Leasing (get_ipv6_address S fuel conf) record_mark
                get_ipv6_address-Refines
                λ ipv6 m.
                  update-Refines S L Leasing (λ f k v p. remember k v p) last_known_ipv6_key
                    (show_ip ipv6.ip) ipv6_mark m)
      where
        record_mark : IpNet → Exec (IpManager S) (Option IpNet)
        record_mark ipv6 m =
            (ok (some ipv6), update_or_warn S last_known_ipv6_key (show_ip ipv6.ip) m)

        address_and_mark : Exec (IpManager S) (Option IpNet)
        address_and_mark = get_ipv6_address S fuel conf >>= record_mark

    -- ADD over an open manager changes the database only by leases and marks.
    pub add-Refines :
        (print_result : CniResult → Text → Result (Unit {0})) (cni_version : Text)
        → Refines S L Leasing (add S fuel print_result conf cni_version)
    unfolding add add_result
    add-Refines print_result cni_version =
        Refines-then S L Leasing (add_result S fuel conf)
          (λ result. lift (print_result result cni_version))
          (Refines-then S L Leasing (add_ipv4 S fuel conf)
            (λ ipv4. add_ipv6 S fuel conf >>= λ ipv6. lift (construct_results conf ipv4 ipv6))
            add_ipv4-Refines
            λ ipv4.
              Refines-then S L Leasing (add_ipv6 S fuel conf)
                (λ ipv6. lift (construct_results conf ipv4 ipv6)) add_ipv6-Refines λ ipv6 m. same)
          λ result m. same
