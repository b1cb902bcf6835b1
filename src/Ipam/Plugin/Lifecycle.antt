-- ===== src/Ipam/Plugin/Lifecycle.antt =====
-- A run of ADD of the IPAM plugin for a named IPv4 address, and the run of DEL that follows it.
use amazon_ecs_cni_plugins.Base.{
  ℕ, ◌≡◌, ◌≢◌, ◌∙◌, ap, sym, refl, arith, inl, inr, Bool-cases, Text, text_eq, text_eq_iff, true,
  false, Option, none, some, [], Result, ok, if◌then◌else◌,
}
use amazon_ecs_cni_plugins.Net.{IpNet, nil, is_nil}
use amazon_ecs_cni_plugins.Net.Format.{show_ip, parse_ip}
use amazon_ecs_cni_plugins.Net.Format.Roundtrip.{parse_ip-empty}
use amazon_ecs_cni_plugins.IpStore.Db.{Store, IsLawful, IsHealthy}
use amazon_ecs_cni_plugins.IpStore.Manager.{IpManager, new_ip_allocator_dual_stack}
use amazon_ecs_cni_plugins.IpStore.Manager.Effects.{contents, with_key}
use amazon_ecs_cni_plugins.IpStore.Allocate.Found.{release-of_some}
use amazon_ecs_cni_plugins.Cni.{CniResult, CmdArgs}
use amazon_ecs_cni_plugins.Ipam.Config.{IpamConfig, has_ipv4, has_ipv6, load_ipam_config}
use amazon_ecs_cni_plugins.Ipam.Commands.{
  last_known_ip_key, gateway_value, has_address, validate_del_configuration, add, del,
}
use amazon_ecs_cni_plugins.Ipam.Commands.Assigned.{with_gateway, given, add-effect}
use amazon_ecs_cni_plugins.Ipam.Commands.Release.{del-answers, del-releases}
use amazon_ecs_cni_plugins.Ipam.Plugin.Opened.{
  opened, run_add-IsOpened, run_add-opened, run_del-opened,
}
use amazon_ecs_cni_plugins.Ipam.Plugin.{Environment, run_add, run_del}

-- An address that survives printing and parsing has a text, and is not nil.
has_address-text : (a : IpNet) → has_address a ≡ true → text_eq (show_ip a.ip) [] ≡ false
unfolding has_address
has_address-text a h = elim (Bool-cases (text_eq (show_ip a.ip) [])) [
  | inr other ↦ other
  | inl same ↦
      let empty = (text_eq_iff (show_ip a.ip) []).0 same in
      let gone : parse_ip (show_ip a.ip) ≡ nil = ap parse_ip empty ∙ parse_ip-empty in ground arith
]

has_address-named : (a : IpNet) → has_address a ≡ true → is_nil a.ip ≡ false
unfolding has_address
has_address-named a h = ground arith

validate_del_configuration-named :
    (conf : IpamConfig)
    → has_address conf.ipv4_address ≡ true
    → validate_del_configuration conf ≡ ok tt
unfolding validate_del_configuration
validate_del_configuration-named conf h = ground arith

module _ (S : Store) (L : IsLawful S) (H : IsHealthy S) where
  module _ (fuel : ℕ) (conf : IpamConfig) (m : IpManager S) (text : Text) where
    -- DEL takes away what ADD gave.
    pub given-released :
        (j : Text)
        → with_gateway S L H fuel conf m text ≡ none
        → with_key S L
            (with_key S L (given S L H fuel conf m text) text none)
            last_known_ip_key
            (some text)
            j
          ≡ with_key S L (with_gateway S L H fuel conf m) last_known_ip_key (some text) j
    given-released j free = elim (Bool-cases (text_eq j last_known_ip_key)) [
      | inl mark ↦ rw mark refl
      | inr other ↦ elim (Bool-cases (text_eq j text)) [
        | inr different ↦ rw (other, different) refl
        | inl same ↦
            rw (other, same)
              (sym (ap (with_gateway S L H fuel conf m) ((text_eq_iff j text).0 same) ∙ free))
      ]
    ]

    given-taken : given S L H fuel conf m text text ≢ none
    given-taken e =
        let same = (text_eq_iff text text).1 refl in
        elim (Bool-cases (text_eq text last_known_ip_key)) [
          | inl mark ↦ ground arith
          | inr other ↦ ground arith
        ]

  -- DEL over a manager of the contents that ADD left.
  del-add :
      (print_result : CniResult → Text → Result (Unit {0})) (fuel : ℕ) (conf : IpamConfig)
      (cni_version : Text) (m n : IpManager S)
      → has_ipv4 conf ≡ true
      → has_ipv6 conf ≡ false
      → has_address conf.ipv4_address ≡ true
      → has_address conf.ipv6_address ≡ false
      → (add S fuel print_result conf cni_version m).0 ≡ ok tt
      → n.client ≡ (add S fuel print_result conf cni_version m).1.client
      → ((del S conf n).0 ≡ ok tt)
        × ((j : Text)
            → contents S L (del S conf n).1 j
              ≡ with_key S L
                  (with_gateway S L H fuel conf m)
                  last_known_ip_key
                  (some (show_ip conf.ipv4_address.ip))
                  j)
  del-add print_result fuel conf cni_version m n four six named other h same =
      let text = show_ip conf.ipv4_address.ip in
      let some_text = has_address-text conf.ipv4_address named in
      let (free, all) =
        add-effect S L H fuel conf m print_result cni_version four six
          (has_address-named conf.ipv4_address named) h in
      let before : (j : Text) → contents S L n j ≡ given S L H fuel conf m text j =
        λ j. ap (λ (s : S.State). L.at s j) same ∙ all j in
      let taken : contents S L n text ≢ none =
        (λ gone. given-taken fuel conf m text (sym (before text) ∙ gone)) in
      let done = del-answers S L H conf n named other (release-of_some S L H text n taken) in
      let (_, after) = del-releases S L H conf n named other some_text done in
      (
        done,
        λ j.
            after j
            ∙ ap
                (λ (o : Option Text).
                  if text_eq j last_known_ip_key
                  then some text
                  else if text_eq j text
                  then none
                  else o)
                (before j)
            ∙ given-released fuel conf m text j free,
      )

  -- On a lawful store that does not fail, for a configuration with an IPv4 subnet, without an IPv6
  -- subnet, that names an IPv4 address and no IPv6 address, where each survives printing and
  -- parsing: if a run of ADD of the IPAM plugin succeeds, the run of DEL with the same arguments
  -- that follows it succeeds, and after both the gateway's key holds the gateway's value, the last
  -- known address is the address, and every other key has the value that it had before the two
  -- runs.
  pub run_del-run_add :
      (env : Environment) (fuel : ℕ) (args : CmdArgs) (s : S.State) (conf : IpamConfig)
      (cni_version : Text)
      → load_ipam_config env.next_ip env.unmarshal args.stdin_data ≡ ok (conf, cni_version)
      → has_ipv4 conf ≡ true
      → has_ipv6 conf ≡ false
      → has_address conf.ipv4_address ≡ true
      → has_address conf.ipv6_address ≡ false
      → (run_add S env fuel args s).0 ≡ ok tt
      → ((run_del S env args (run_add S env fuel args s).1).0 ≡ ok tt)
        × ((j : Text)
            → L.at (run_del S env args (run_add S env fuel args s).1).1 j
              ≡ with_key S L
                  (with_key S L (L.at s) (show_ip conf.ipv4_gateway) (some gateway_value))
                  last_known_ip_key
                  (some (show_ip conf.ipv4_address.ip))
                  j)
  unfolding new_ip_allocator_dual_stack
  run_del-run_add env fuel args s conf cni_version q four six named other h =
      let db = run_add-IsOpened S env args conf cni_version q fuel s h in
      let first = run_add-opened S env args conf cni_version q fuel s db in
      let s' = (run_add S env fuel args s).1 in
      let valid = validate_del_configuration-named conf named in
      let second = run_del-opened S env args conf cni_version q s' valid db in
      let (done, after) =
        del-add env.print_result fuel conf cni_version (opened S conf s) (opened S conf s') four six
          named other (sym (ap (λ r. r.0) first) ∙ h) (ap (λ r. r.1) first) in
      (ap (λ r. r.0) second ∙ done, λ j. ap (λ r. L.at r.1 j) second ∙ after j)
