-- ===== src/Ipam/Plugin/Distinct.antt =====
-- Two runs of ADD of the IPAM plugin, one after the other.
use amazon_ecs_cni_plugins.Base.{
  ℕ, ◌+◌, ◌≤◌, ◌<◌, ◌≡◌, ◌≢◌, ◌∙◌, ap, sym, refl, arith, inr, Text, text_eq_iff, has_prefix, true,
  false, none, some, [], ◌∷◌, ok,
}
use amazon_ecs_cni_plugins.Net.{v4, is_nil}
use amazon_ecs_cni_plugins.IpStore.Next.Cycle.{network4}
use amazon_ecs_cni_plugins.Net.Format.{show_ip}
use amazon_ecs_cni_plugins.IpStore.Db.{Store, IsLawful, IsHealthy}
use amazon_ecs_cni_plugins.IpStore.Manager.{ip_prefix, new_ip_allocator_dual_stack}
use amazon_ecs_cni_plugins.IpStore.Next.Cycle.{IsIpv4Subnet, size4}
use amazon_ecs_cni_plugins.Cni.{CmdArgs}
use amazon_ecs_cni_plugins.Ipam.Config.{IpamConfig, has_ipv4, has_ipv6, load_ipam_config}
use amazon_ecs_cni_plugins.Ipam.Commands.{last_known_ip_key}
use amazon_ecs_cni_plugins.Ipam.Commands.Searched.{text_at, IsMarked}
use amazon_ecs_cni_plugins.Ipam.Plugin.{Environment, run_add}
use amazon_ecs_cni_plugins.Ipam.Plugin.Opened.{opened}
use amazon_ecs_cni_plugins.IpStore.Leases.{is_mark}
use amazon_ecs_cni_plugins.Ipam.Plugin.Runs.{run_add-keeps}
use amazon_ecs_cni_plugins.Ipam.Plugin.Searched.{given-held, free_before, run_add-searches}
use amazon_ecs_cni_plugins.Base.{subst}

addresses-unmarked : (k : Text) → has_prefix ip_prefix k ≡ true → is_mark k ≡ false
unfolding has_prefix
addresses-unmarked [] p = refl
addresses-unmarked (c ∷ k) p = ground arith

module _ (S : Store) (L : IsLawful S) (H : IsHealthy S) where
  -- On a lawful store that does not fail, for two configurations with the same IPv4 subnet, whose
  -- network address does not start with a zero byte, with no IPv6 subnet and no IPv4 address
  -- named, whose gateways and the addresses of the subnet have texts that start with IPPrefix, the
  -- last known address being absent or one of the subnet: if a run of ADD of the IPAM plugin for
  -- the first and then a run of ADD for the second succeed, there are two different addresses of
  -- the subnet, each neither its first nor its last, such that after both runs the first has the
  -- id of the first configuration and the second the id of the second.
  pub run_add-distinct :
      (env env' : Environment) (fuel fuel' : ℕ) (args args' : CmdArgs) (s : S.State)
      (conf conf' : IpamConfig) (cni_version cni_version' : Text) (base : ℕ)
      (v : IsIpv4Subnet conf.ipv4_subnet base) (v' : IsIpv4Subnet conf'.ipv4_subnet base)
      → load_ipam_config env.next_ip env.unmarshal args.stdin_data ≡ ok (conf, cni_version)
      → load_ipam_config env'.next_ip env'.unmarshal args'.stdin_data ≡ ok (conf', cni_version')
      → conf.ipv4_subnet ≡ conf'.ipv4_subnet
      → (has_ipv4 conf ≡ true) × (has_ipv4 conf' ≡ true)
      → (has_ipv6 conf ≡ false) × (has_ipv6 conf' ≡ false)
      → (is_nil conf.ipv4_address.ip ≡ true) × (is_nil conf'.ipv4_address.ip ≡ true)
      → (has_prefix ip_prefix (show_ip conf.ipv4_gateway) ≡ true)
        × (has_prefix ip_prefix (show_ip conf'.ipv4_gateway) ≡ true)
      → ((o : ℕ)
          → o < size4 conf.ipv4_subnet
          → has_prefix ip_prefix (text_at S L H conf base v o) ≡ true)
      → IsMarked S L H conf base v (L.at s last_known_ip_key)
      → let s' = (run_add S env fuel args s).1 in
        (run_add S env fuel args s).0 ≡ ok tt
        → (run_add S env' fuel' args' s').0 ≡ ok tt
        → (o : ℕ) × (p : ℕ) × (o ≢ p)
          × (1 ≤ o)
          × (o + 1 < size4 conf.ipv4_subnet)
          × (1 ≤ p)
          × (p + 1 < size4 conf.ipv4_subnet)
          × (L.at (run_add S env' fuel' args' s').1 (text_at S L H conf base v o) ≡ some conf.id)
          × (L.at (run_add S env' fuel' args' s').1 (text_at S L H conf base v p) ≡ some conf'.id)
  unfolding new_ip_allocator_dual_stack
  run_add-distinct env env' fuel fuel' args args' s conf conf' cni_version cni_version' base v v' q
        q' same (four, four') (six, six') (unnamed, unnamed') (gateway, gateway') under at_mark h
        h' =
      let s' = (run_add S env fuel args s).1 in
      let (o, low, high, free, all) =
        run_add-searches S L H env fuel args s conf cni_version base v q four six unnamed gateway
          at_mark h in
      let text = text_at S L H conf base v o in
      let here = under o (omega (arith, high)) in
      let again : (n : ℕ) → text_at S L H conf base v n ≡ text_at S L H conf' base v' n =
        λ n. ap (λ subnet. show_ip (v4 (network4 subnet base + n))) same in
      let mark' : IsMarked S L H conf' base v' (L.at s' last_known_ip_key) = inr (
        o,
        subst (λ subnet. o < size4 subnet) same (omega (arith, high)),
        all last_known_ip_key
            ∙ rw ((text_eq_iff last_known_ip_key last_known_ip_key).1 refl) (ap some (again o)),
      ) in
      let (p, low', high', free', all') =
        run_add-searches S L H env' fuel' args' s' conf' cni_version' base v' q' four' six' unnamed'
          gateway' mark' h' in
      let inside : p + 1 < size4 conf.ipv4_subnet =
        subst (λ subnet. p + 1 < size4 subnet) (sym same) high' in
      let text' = text_at S L H conf' base v' p in
      let there : has_prefix ip_prefix text' ≡ true =
        ap (has_prefix ip_prefix) (sym (again p)) ∙ under p (omega (arith, inside)) in
      let held = all text ∙ given-held S L H fuel conf (opened S conf s) text here in
      let missing : L.at s' text' ≡ none =
        free_before (L.at s') (show_ip conf'.ipv4_gateway) text' free' in
      (
        o,
        p,
        λ e.
            let gone : L.at s' text ≡ none =
              ap (L.at s') (ap (text_at S L H conf base v) e ∙ again p) ∙ missing in
            cc,
        low,
        high,
        low',
        inside,
        run_add-keeps S L env' fuel' args' s' text conf.id (addresses-unmarked text here) held,
        ap (L.at (run_add S env' fuel' args' s').1) (again p)
            ∙ all' text'
            ∙ given-held S L H fuel' conf' (opened S conf' s') text' there,
      )
