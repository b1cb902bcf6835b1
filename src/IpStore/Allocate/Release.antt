-- ===== src/IpStore/Allocate/Release.antt =====
-- What ReleaseByID removes.
use amazon_ecs_cni_plugins.Base.{
  ◌≡◌, ◌≢◌, refl, ◌∙◌, sym, ap, inl, inr, Bool-cases, Option-cases, Result-cases, Text, text_eq,
  text_eq_iff, arith,
}
use amazon_ecs_cni_plugins.Base.{none, some}
use amazon_ecs_cni_plugins.IpStore.Db.{Store, IsLawful}
use amazon_ecs_cni_plugins.IpStore.Manager.{
  IpManager, find_key, release, release_ipv6, ip_prefix, ip_prefix_v6,
}
use amazon_ecs_cni_plugins.IpStore.Manager.Effects.{
  contents, with_key, release-ok, release-err, release_ipv6-ok, release_ipv6-err,
}
use amazon_ecs_cni_plugins.IpStore.Allocate.Found.{find_key_sound}
use amazon_ecs_cni_plugins.IpStore.Allocate.{release_v4_of, release_v6_of, release_by_id}

module _ (S : Store) (L : IsLawful S) where
  -- Removing a key of the id leaves a key that does not hold it.
  with_key-other :
      (id key j : Text) (m : IpManager S)
      → contents S L m key ≡ some id
      → contents S L m j ≢ some id
      → with_key S L (contents S L m) key none j ≡ contents S L m j
  with_key-other id key j m h n = elim (Bool-cases (text_eq j key)) [
    | inl same ↦ absurd (n (ap (contents S L m) ((text_eq_iff j key).0 same) ∙ h))
    | inr other ↦ rw other refl
  ]

  release-other :
      (id key j : Text) (m : IpManager S)
      → contents S L m key ≡ some id
      → contents S L m j ≢ some id
      → contents S L (release S key m).1 j ≡ contents S L m j
  release-other id key j m h n = elim (Result-cases (release S key m).0) [
    | inl (u, q) ↦ release-ok S L key j m q ∙ with_key-other id key j m h n
    | inr (e, q) ↦ release-err S L key j m e q
  ]

  release_ipv6-other :
      (id key j : Text) (m : IpManager S)
      → contents S L m key ≡ some id
      → contents S L m j ≢ some id
      → contents S L (release_ipv6 S key m).1 j ≡ contents S L m j
  release_ipv6-other id key j m h n = elim (Result-cases (release_ipv6 S key m).0) [
    | inl (u, q) ↦ release_ipv6-ok S L key j m q ∙ with_key-other id key j m h n
    | inr (e, q) ↦ release_ipv6-err S L key j m e q
  ]

  release_v4_of-other :
      (id j : Text) (m : IpManager S)
      → contents S L m j ≢ some id
      → contents S L (release_v4_of S id m).1 j ≡ contents S L m j
  unfolding release_v4_of
  release_v4_of-other id j m n = elim (Result-cases (S.list m.client ip_prefix)) [
    | inr (e, q) ↦ ground arith
    | inl (kvs, q) ↦ elim (Option-cases (find_key id kvs)) [
      | inl f ↦ ground arith
      | inr (key, f) ↦
          let holds =
            (find_key_sound S L id key ip_prefix m kvs (L.list_sound m.client ip_prefix kvs q)
              f).0 in
          ground (arith, release-other id key j m holds n)
    ]
  ]

  release_v6_of-other :
      (id j : Text) (m : IpManager S)
      → contents S L m j ≢ some id
      → contents S L (release_v6_of S id m).1 j ≡ contents S L m j
  unfolding release_v6_of
  release_v6_of-other id j m n = elim (Result-cases (S.list m.client ip_prefix_v6)) [
    | inr (e, q) ↦ ground arith
    | inl (kvs, q) ↦ elim (Option-cases (find_key id kvs)) [
      | inl f ↦ ground arith
      | inr (key, f) ↦
          let holds =
            (find_key_sound S L id key ip_prefix_v6 m kvs (L.list_sound m.client ip_prefix_v6 kvs q)
              f).0 in
          ground (arith, release_ipv6-other id key j m holds n)
    ]
  ]

  -- On a lawful store, ReleaseByID leaves every key whose value is not the id as it was, whatever
  -- it returns.
  pub release_by_id-other :
      (id j : Text) (m : IpManager S)
      → contents S L m j ≢ some id
      → contents S L (release_by_id S id m).1 j ≡ contents S L m j
  unfolding release_by_id
  release_by_id-other id j m n =
      let first = release_v4_of-other id j m n in
      let still : contents S L (release_v4_of S id m).1 j ≢ some id = λ h. n (sym first ∙ h) in
      let second = release_v6_of-other id j (release_v4_of S id m).1 still in
      elim (Result-cases (release_v4_of S id m).0) [
        | inr (e, q) ↦ ground arith
        | inl (v, q) ↦ elim (Result-cases (release_v6_of S id (release_v4_of S id m).1).0) [
          | inr (e, r) ↦ ground arith
          | inl (w, r) ↦ ground arith
        ]
      ]
