-- ===== src/Ipam/Plugin/Returned.antt =====
-- A run of ADD of the IPAM plugin that takes an IPv4 address from the database, and the run of DEL
-- by id that follows it.
use amazon_ecs_cni_plugins.Base.{
  ℕ, ◌+◌, ◌≤◌, ◌<◌, ◌≡◌, ◌≢◌, ◌∙◌, ap, sym, refl, arith, inl, inr, Bool-cases, Text, text_eq,
  text_eq_iff, has_prefix, true, false, Option, none, some, [], ◌∷◌, ok, if◌then◌else◌,
}
use amazon_ecs_cni_plugins.Net.{is_nil}
use amazon_ecs_cni_plugins.Net.Format.{show_ip}
use amazon_ecs_cni_plugins.IpStore.Db.{Store, IsLawful, IsHealthy}
use amazon_ecs_cni_plugins.IpStore.Manager.{
  IpManager, release, ip_prefix, ip_prefix_v6, new_ip_allocator_dual_stack,
}
use amazon_ecs_cni_plugins.IpStore.Manager.Effects.{contents, with_key, release-ok}
use amazon_ecs_cni_plugins.IpStore.Manager.EffectsV6.{IsFreshV6}
use amazon_ecs_cni_plugins.IpStore.Next.Cycle.{IsIpv4Subnet, size4}
use amazon_ecs_cni_plugins.IpStore.Allocate.Found.{
  one_family, not_empty, different, release-of_some, release_by_id-only,
}
use amazon_ecs_cni_plugins.Cni.{CmdArgs}
use amazon_ecs_cni_plugins.Ipam.Config.{IpamConfig, has_ipv4, has_ipv6, load_ipam_config}
use amazon_ecs_cni_plugins.Ipam.Commands.{
  last_known_ip_key, gateway_value, has_address, validate_del_configuration, record_released, del,
}
use amazon_ecs_cni_plugins.Ipam.Commands.Release.{update_or_warn-contents}
use amazon_ecs_cni_plugins.Ipam.Commands.Assigned.{with_gateway, given}
use amazon_ecs_cni_plugins.Ipam.Commands.Searched.{text_at, IsMarked}
use amazon_ecs_cni_plugins.Ipam.Plugin.{Environment, run_add, run_del}
use amazon_ecs_cni_plugins.Ipam.Plugin.Opened.{opened, run_add-IsOpened, run_del-opened}
use amazon_ecs_cni_plugins.Ipam.Plugin.Searched.{
  marks-IsHidden, given-held, free_before, run_add-searches,
}
use amazon_ecs_cni_plugins.Ipam.Plugin.Lifecycle.{given-released}

marks-IsHiddenV6 :
    (k : Text) → has_prefix ip_prefix_v6 k ≡ true → text_eq k last_known_ip_key ≡ false
unfolding has_prefix text_eq
marks-IsHiddenV6 [] p = cc
marks-IsHiddenV6 (c ∷ k) p = ground arith

validate_del_configuration-id :
    (conf : IpamConfig) → text_eq conf.id [] ≡ false → validate_del_configuration conf ≡ ok tt
unfolding validate_del_configuration
validate_del_configuration-id conf h = rw h refl

module _ (S : Store) (L : IsLawful S) (H : IsHealthy S) (conf : IpamConfig) where
  -- DEL by id takes away the one IPv4 address of the id.
  del-by_id :
      (n : IpManager S) (text : Text)
      → is_nil conf.ipv4_address.ip ≡ true
      → is_nil conf.ipv6_address.ip ≡ true
      → contents S L n text ≡ some conf.id
      → has_prefix ip_prefix text ≡ true
      → ((j : Text) → has_prefix ip_prefix j ≡ true → contents S L n j ≡ some conf.id → j ≡ text)
      → IsFreshV6 S L H conf.id n
      → ((del S conf n).0 ≡ ok tt)
        × ((j : Text)
            → contents S L (del S conf n).1 j
              ≡ with_key S L
                  (with_key S L (contents S L n) text none)
                  last_known_ip_key
                  (some text)
                  j)
  unfolding del has_address record_released text_eq
  del-by_id n text four six held under only fresh =
      let whole = release_by_id-only S L H conf.id text n held under only fresh in
      let after = (release S text n).1 in
      (
        rw (four, six, whole) refl,
        λ j.
            rw (four, six, whole, not_empty text under)
              (update_or_warn-contents S L H conf n last_known_ip_key text j after
                ∙ ap (λ (o : Option Text). if text_eq j last_known_ip_key then some text else o)
                    (release-ok S L text j n (release-of_some S L H text n (λ gone. cc)))),
      )

  -- Who holds the id after ADD.
  module _ (fuel : ℕ) (m : IpManager S) (text : Text)
      (gateway_under : has_prefix ip_prefix (show_ip conf.ipv4_gateway) ≡ true)
      (other : conf.id ≢ gateway_value) where
    given-only :
        (j : Text)
        → text_eq j last_known_ip_key ≡ false
        → contents S L m j ≢ some conf.id
        → given S L H fuel conf m text j ≡ some conf.id
        → j ≡ text
    given-only j unmarked fresh at = elim (Bool-cases (text_eq j text)) [
      | inl same ↦ (text_eq_iff j text).0 same
      | inr apart ↦ elim (Bool-cases (text_eq j (show_ip conf.ipv4_gateway))) [
        | inl gw ↦
            let marked : some gateway_value ≡ some conf.id = rw (unmarked, apart, gw) at at in
            absurd (other cc)
        | inr neither ↦ absurd (fresh (rw (unmarked, apart, neither) at at))
      ]
    ]

    -- DEL over a manager of the contents that ADD left.
    del-given :
        (n : IpManager S)
        → is_nil conf.ipv4_address.ip ≡ true
        → is_nil conf.ipv6_address.ip ≡ true
        → has_prefix ip_prefix text ≡ true
        → ((k : Text) → has_prefix ip_prefix k ≡ true → contents S L m k ≢ some conf.id)
        → ((k : Text) → has_prefix ip_prefix_v6 k ≡ true → contents S L m k ≢ some conf.id)
        → with_gateway S L H fuel conf m text ≡ none
        → ((j : Text) → contents S L n j ≡ given S L H fuel conf m text j)
        → ((del S conf n).0 ≡ ok tt)
          × ((j : Text)
              → contents S L (del S conf n).1 j
                ≡ with_key S L (with_gateway S L H fuel conf m) last_known_ip_key (some text) j)
    del-given n four six under fresh fresh_v6 free before =
        let (done, after) =
          del-by_id n text four six (before text ∙ given-held S L H fuel conf m text under) under
            (λ j p at. given-only j (marks-IsHidden j p) (fresh j p) (sym (before j) ∙ at))
            λ j p at.
              let same = given-only j (marks-IsHiddenV6 j p) (fresh_v6 j p) (sym (before j) ∙ at) in
              different
                (sym (one_family text under) ∙ ap (has_prefix ip_prefix_v6) (sym same) ∙ p) in
        (
          done,
          λ j.
              after j
              ∙ ap
                  (λ (o : Option Text).
                    if text_eq j last_known_ip_key
                    then some text
                    else if text_eq j text
                    then none
                    else o)
                  (before j)
              ∙ given-released S L H fuel conf m text j free,
        )

module _ (S : Store) (L : IsLawful S) (H : IsHealthy S) where
  -- On a lawful store that does not fail, for a configuration that names no address, has no IPv6
  -- subnet, and has an IPv4 subnet whose network address does not start with a zero byte and whose
  -- addresses and gateway have texts that start with IPPrefix, the last known address being absent
  -- or one of the subnet, and an id that is neither empty nor the gateway's value and that no key
  -- under IPPrefix or IPPrefixV6 has: if a run of ADD of the IPAM plugin succeeds, then the run of
  -- DEL with the same arguments that follows it succeeds, and there is an address of the subnet
  -- other than its first and its last, which has no entry before, such that after both runs the
  -- gateway's key holds the gateway's value, the last known address is that address, and every
  -- other key has the value that it had before the two runs.
  pub run_del-run_add_by_id :
      (env : Environment) (fuel : ℕ) (args : CmdArgs) (s : S.State) (conf : IpamConfig)
      (cni_version : Text) (base : ℕ) (v : IsIpv4Subnet conf.ipv4_subnet base)
      → load_ipam_config env.next_ip env.unmarshal args.stdin_data ≡ ok (conf, cni_version)
      → has_ipv4 conf ≡ true
      → has_ipv6 conf ≡ false
      → is_nil conf.ipv4_address.ip ≡ true
      → is_nil conf.ipv6_address.ip ≡ true
      → text_eq conf.id [] ≡ false
      → conf.id ≢ gateway_value
      → has_prefix ip_prefix (show_ip conf.ipv4_gateway) ≡ true
      → ((o : ℕ)
          → o < size4 conf.ipv4_subnet
          → has_prefix ip_prefix (text_at S L H conf base v o) ≡ true)
      → ((k : Text) → has_prefix ip_prefix k ≡ true → L.at s k ≢ some conf.id)
      → ((k : Text) → has_prefix ip_prefix_v6 k ≡ true → L.at s k ≢ some conf.id)
      → IsMarked S L H conf base v (L.at s last_known_ip_key)
      → (run_add S env fuel args s).0 ≡ ok tt
      → ((run_del S env args (run_add S env fuel args s).1).0 ≡ ok tt)
        × ((o : ℕ) × (1 ≤ o)
            × (o + 1 < size4 conf.ipv4_subnet)
            × (L.at s (text_at S L H conf base v o) ≡ none)
            × ((j : Text)
                → L.at (run_del S env args (run_add S env fuel args s).1).1 j
                  ≡ with_key S L
                      (with_key S L (L.at s) (show_ip conf.ipv4_gateway) (some gateway_value))
                      last_known_ip_key
                      (some (text_at S L H conf base v o))
                      j))
  unfolding new_ip_allocator_dual_stack
  run_del-run_add_by_id env fuel args s conf cni_version base v q four six unnamed unnamed_v6 named
        other gateway_under under fresh fresh_v6 at_mark h =
      let db = run_add-IsOpened S env args conf cni_version q fuel s h in
      let s' = (run_add S env fuel args s).1 in
      let m = opened S conf s in
      let (o, low, high, free, all) =
        run_add-searches S L H env fuel args s conf cni_version base v q four six unnamed
          gateway_under at_mark h in
      let text = text_at S L H conf base v o in
      let second =
        run_del-opened S env args conf cni_version q s' (validate_del_configuration-id conf named)
          db in
      let (done, after) =
        del-given S L H conf fuel m text gateway_under other (opened S conf s') unnamed unnamed_v6
          (under o (omega (arith, high))) fresh fresh_v6 free all in
      (
        ap (λ r. r.0) second ∙ done,
        (
          o,
          low,
          high,
          free_before (L.at s) (show_ip conf.ipv4_gateway) text free,
          λ j. ap (λ r. L.at r.1 j) second ∙ after j,
        ),
      )
