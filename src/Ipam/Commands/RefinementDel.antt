-- ===== src/Ipam/Commands/RefinementDel.antt =====
-- DEL of the IPAM plugin as changes of the leases.
use amazon_ecs_cni_plugins.IpStore.Leases.Facts.{Steps-trans}
use amazon_ecs_cni_plugins.Base.{
  ◌≡◌, ◌++◌, Bool-cases, inl, inr, if◌then◌else◌, Text, text_eq, Bool, true, false, ◌||◌, [], ok,
}
use amazon_ecs_cni_plugins.Base.Exec.{Exec, pure, ◌>>=◌, ◌>>◌}
use amazon_ecs_cni_plugins.Net.Format.{show_ip}
use amazon_ecs_cni_plugins.IpStore.Db.{Store, IsLawful}
use amazon_ecs_cni_plugins.IpStore.Manager.{IpManager, release, ip_prefix_v6, last_known_ipv6_key}
use amazon_ecs_cni_plugins.IpStore.Allocate.{release_by_id}
use amazon_ecs_cni_plugins.IpStore.Leases.{is_mark, Freeing, recall, same}
use amazon_ecs_cni_plugins.IpStore.Leases.Rules.{Moves, Refines, Refines-then, Refines-if}
use amazon_ecs_cni_plugins.IpStore.Leases.Operations.{release-Refines, update-Refines}
use amazon_ecs_cni_plugins.IpStore.Leases.Searches.{release_by_id-Refines}
use amazon_ecs_cni_plugins.Ipam.Config.{IpamConfig}
use amazon_ecs_cni_plugins.Ipam.Commands.{
  last_known_ip_key, has_address, update_or_warn, release_addresses, record_released, del,
}
use amazon_ecs_cni_plugins.Ipam.Commands.Refinement.{ip_mark, ipv6_mark}

module _ (S : Store) (L : IsLawful S) where
  record_released-Moves :
      (k v : Text) (m : IpManager S)
      → is_mark k ≡ true
      → Moves S L Freeing m (record_released S k v m)
  unfolding record_released update_or_warn
  record_released-Moves k v m p = elim (Bool-cases (text_eq v [])) [
    | inl no_address ↦ rw no_address same
    | inr address ↦ rw address (update-Refines S L Freeing (λ f j w q. recall j w q) k v p m)
  ]

  -- The release of one address that the configuration names, if it names one.
  abbrev release_if : Bool → Text → Text → Exec (IpManager S) Text
  release_if named key text = if named then (do release S key; pure text) else pure []

  release_if-Refines :
      (named : Bool) (key text : Text) → Refines S L Freeing (release_if named key text)
  release_if-Refines true key text =
      Refines-then S L Freeing (release S key) (λ _. pure text) (release-Refines S L key)
        λ _ m. same
  release_if-Refines false key text = λ m. same

  release_addresses-Refines : (conf : IpamConfig) → Refines S L Freeing (release_addresses S conf)
  unfolding release_addresses
  release_addresses-Refines conf =
      let v4_text = show_ip conf.ipv4_address.ip in
      let v6_text = show_ip conf.ipv6_address.ip in
      let first = release_if (has_address conf.ipv4_address) v4_text v4_text in
      let second = release_if (has_address conf.ipv6_address) (ip_prefix_v6 ++ v6_text) v6_text in
      Refines-then S L Freeing first (λ v4. second >>= λ v6. pure (v4, v6))
        (release_if-Refines (has_address conf.ipv4_address) v4_text v4_text)
        λ v4.
          Refines-then S L Freeing second (λ v6. pure (v4, v6))
            (release_if-Refines (has_address conf.ipv6_address) (ip_prefix_v6 ++ v6_text) v6_text)
            λ v6 m. same

  -- DEL over an open manager changes the database only by removing keys and setting marks.
  pub del-Refines : (conf : IpamConfig) → Refines S L Freeing (del S conf)
  unfolding del
  del-Refines conf =
      Refines-then S L Freeing
        (if has_address conf.ipv4_address || has_address conf.ipv6_address
          then release_addresses S conf
          else release_by_id S conf.id)
        record_both
        (Refines-if S L Freeing (has_address conf.ipv4_address || has_address conf.ipv6_address)
          (release_addresses S conf) (release_by_id S conf.id) (release_addresses-Refines conf)
          (release_by_id-Refines S L conf.id))
        λ (v4, v6) m. Steps-trans (record_released-Moves last_known_ip_key v4 m ip_mark) (
          record_released-Moves last_known_ipv6_key v6 (record_released S last_known_ip_key v4 m)
            ipv6_mark)
    where
      record_both : Text × Text → Exec (IpManager S) (Unit {0})
      record_both (v4, v6) m = (
        ok tt,
        record_released S last_known_ipv6_key v6 (record_released S last_known_ip_key v4 m),
      )
