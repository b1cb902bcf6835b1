-- ===== src/Ipam/Plugin/Searched.antt =====
-- A run of ADD of the IPAM plugin that takes an IPv4 address from the database.
use amazon_ecs_cni_plugins.Base.{text_eq_iff, if◌then◌else◌}
use amazon_ecs_cni_plugins.IpStore.Manager.{IpManager}
use amazon_ecs_cni_plugins.Base.{
  ℕ, ◌+◌, ◌≤◌, ◌<◌, ◌≡◌, ◌∙◌, ap, sym, refl, arith, Text, text_eq, has_prefix, true, false, Option,
  none, some, [], ◌∷◌, ok, if◌then◌else◌,
}
use amazon_ecs_cni_plugins.Net.{is_nil}
use amazon_ecs_cni_plugins.Net.Format.{show_ip}
use amazon_ecs_cni_plugins.IpStore.Db.{Store, IsLawful, IsHealthy}
use amazon_ecs_cni_plugins.IpStore.Manager.{ip_prefix, new_ip_allocator_dual_stack}
use amazon_ecs_cni_plugins.IpStore.Next.Cycle.{IsIpv4Subnet, size4}
use amazon_ecs_cni_plugins.Cni.{CmdArgs}
use amazon_ecs_cni_plugins.Ipam.Config.{IpamConfig, has_ipv4, has_ipv6, load_ipam_config}
use amazon_ecs_cni_plugins.Ipam.Commands.{last_known_ip_key, gateway_value}
use amazon_ecs_cni_plugins.Ipam.Commands.Assigned.{with_gateway, given}
use amazon_ecs_cni_plugins.Ipam.Commands.Searched.{text_at, IsMarked, add-searches}
use amazon_ecs_cni_plugins.Ipam.Plugin.{Environment, run_add}
use amazon_ecs_cni_plugins.Ipam.Plugin.Opened.{
  opened, opened-subnet, run_add-IsOpened, run_add-opened,
}

-- The mark of the last known address is under no prefix.
pub marks-IsHidden :
    (k : Text) → has_prefix ip_prefix k ≡ true → text_eq k last_known_ip_key ≡ false
unfolding has_prefix text_eq
marks-IsHidden [] p = cc
marks-IsHidden (c ∷ k) p = ground arith

unmarked_of : (k : Text) → has_prefix ip_prefix k ≡ true → text_eq last_known_ip_key k ≡ false
unfolding has_prefix text_eq
unmarked_of [] p = refl
unmarked_of (c ∷ k) p = ground arith

-- What is free once the gateway is marked was free before.
pub free_before :
    (c : Text → Option Text) (gw k : Text)
    → (if text_eq k gw then some gateway_value else c k) ≡ none
    → c k ≡ none
free_before c gw k h = ground arith

module _ (S : Store) (L : IsLawful S) (H : IsHealthy S) where
  pub given-held :
      (fuel : ℕ) (conf : IpamConfig) (m : IpManager S) (text : Text)
      → has_prefix ip_prefix text ≡ true
      → given S L H fuel conf m text text ≡ some conf.id
  given-held fuel conf m text under =
      rw (marks-IsHidden text under, (text_eq_iff text text).1 refl) refl

  -- A run of ADD that succeeds takes a usable address that is free once the gateway is marked.
  pub run_add-searches :
      (env : Environment) (fuel : ℕ) (args : CmdArgs) (s : S.State) (conf : IpamConfig)
      (cni_version : Text) (base : ℕ) (v : IsIpv4Subnet conf.ipv4_subnet base)
      → load_ipam_config env.next_ip env.unmarshal args.stdin_data ≡ ok (conf, cni_version)
      → has_ipv4 conf ≡ true
      → has_ipv6 conf ≡ false
      → is_nil conf.ipv4_address.ip ≡ true
      → has_prefix ip_prefix (show_ip conf.ipv4_gateway) ≡ true
      → IsMarked S L H conf base v (L.at s last_known_ip_key)
      → (run_add S env fuel args s).0 ≡ ok tt
      → (o : ℕ) × (1 ≤ o)
        × (o + 1 < size4 conf.ipv4_subnet)
        × (with_gateway S L H fuel conf (opened S conf s) (text_at S L H conf base v o) ≡ none)
        × ((j : Text)
            → L.at (run_add S env fuel args s).1 j
              ≡ given S L H fuel conf (opened S conf s) (text_at S L H conf base v o) j)
  unfolding new_ip_allocator_dual_stack
  run_add-searches env fuel args s conf cni_version base v q four six unnamed gateway_under at_mark
        h =
      let db = run_add-IsOpened S env args conf cni_version q fuel s h in
      let first = run_add-opened S env args conf cni_version q fuel s db in
      let m = opened S conf s in
      let unmarked = unmarked_of (show_ip conf.ipv4_gateway) gateway_under in
      let (o, low, high, free, all) =
        add-searches S L H conf base v fuel m env.print_result cni_version four six unnamed unmarked
          (opened-subnet S conf s four) at_mark (sym (ap (λ r. r.0) first) ∙ h) in
      (o, low, high, free, λ j. ap (λ r. L.at r.1 j) first ∙ all j)
