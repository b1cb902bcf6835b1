-- ===== src/IpStore/Leases/Operations.antt =====
-- The operations of the IP manager as changes of the leases.
use amazon_ecs_cni_plugins.Base.{◌++◌}
use amazon_ecs_cni_plugins.Base.{
  ◌≡◌, inl, inr, refl, Result-cases, Text, has_prefix, true, false, none, some,
}
use amazon_ecs_cni_plugins.IpStore.Db.{Store, IsLawful}
use amazon_ecs_cni_plugins.IpStore.Manager.{
  assign, assign_ipv6, release, release_ipv6, update, ip_prefix, ip_prefix_v6,
}
use amazon_ecs_cni_plugins.IpStore.Manager.Effects.{
  contents, assign-free, assign-ok, assign_unique, assign-err, release-taken, release-ok,
  release-err, release_ipv6-taken, release_ipv6-ok, release_ipv6-err,
}
use amazon_ecs_cni_plugins.IpStore.Manager.EffectsV6.{
  assign_ipv6-free, assign_ipv6-ok, assign_ipv6-err,
}
use amazon_ecs_cni_plugins.IpStore.Leases.{Leases, updated, is_mark, Leasing, lease, Freeing, free}
use amazon_ecs_cni_plugins.IpStore.Leases.Rules.{Refines, Moves-of_eq, Moves-of_step}

pub not_ipv4_key : (s : Text) → has_prefix ip_prefix (ip_prefix_v6 ++ s) ≡ false
unfolding has_prefix
not_ipv4_key s = refl

module _ (S : Store) (L : IsLawful S) where
  pub assign-Refines : (ip id : Text) → Refines S L Leasing (assign S ip id)
  assign-Refines ip id m = elim (Result-cases (assign S ip id m).0) [
    | inl (u, q) ↦
        Moves-of_step S L Leasing m (assign S ip id m).1 ip (some id)
          (lease ip id (assign-free S L ip id m q) (λ p n j pj. assign_unique S L ip id j m q n pj))
          (λ j. assign-ok S L ip id j m q)
    | inr (e, q) ↦
        Moves-of_eq S L Leasing m (assign S ip id m).1 (λ j. assign-err S L ip id j m e q)
  ]

  pub assign_ipv6-Refines :
      (key id : Text)
      → has_prefix ip_prefix key ≡ false
      → Refines S L Leasing (assign_ipv6 S key id)
  assign_ipv6-Refines key id n m = elim (Result-cases (assign_ipv6 S key id m).0) [
    | inl (u, q) ↦
        Moves-of_step S L Leasing m (assign_ipv6 S key id m).1 key (some id)
          (lease key id (assign_ipv6-free S L key id m q) (λ p. cc))
          (λ j. assign_ipv6-ok S L key id m j q)
    | inr (e, q) ↦
        Moves-of_eq S L Leasing m (assign_ipv6 S key id m).1
          (λ j. assign_ipv6-err S L key id m j e q)
  ]

  pub release-Refines : (ip : Text) → Refines S L Freeing (release S ip)
  release-Refines ip m = elim (Result-cases (release S ip m).0) [
    | inl (u, q) ↦
        Moves-of_step S L Freeing m (release S ip m).1 ip none (free ip (release-taken S L ip m q))
          (λ j. release-ok S L ip j m q)
    | inr (e, q) ↦ Moves-of_eq S L Freeing m (release S ip m).1 (λ j. release-err S L ip j m e q)
  ]

  pub release_ipv6-Refines : (key : Text) → Refines S L Freeing (release_ipv6 S key)
  release_ipv6-Refines key m = elim (Result-cases (release_ipv6 S key m).0) [
    | inl (u, q) ↦
        Moves-of_step S L Freeing m (release_ipv6 S key m).1 key none
          (free key (release_ipv6-taken S L key m q)) (λ j. release_ipv6-ok S L key j m q)
    | inr (e, q) ↦
        Moves-of_eq S L Freeing m (release_ipv6 S key m).1 (λ j. release_ipv6-err S L key j m e q)
  ]

  -- An update of a mark, for a relation that may set marks.
  pub update-Refines :
      (R : Leases → Leases → Type 0)
      → ((f : Leases) (k v : Text) → is_mark k ≡ true → R f (updated f k (some v)))
      → (k v : Text) → is_mark k ≡ true
      → Refines S L R (update S k v)
  unfolding update
  update-Refines R sets k v p m = elim (Result-cases (S.put m.client k v).0) [
    | inl (u, q) ↦
        Moves-of_step S L R m (update S k v m).1 k (some v) (sets (contents S L m) k v p)
          (λ j. L.put_ok m.client k v j q)
    | inr (e, q) ↦ Moves-of_eq S L R m (update S k v m).1 (λ j. L.put_err m.client k v j e q)
  ]
