-- ===== src/IpStore/Manager/EffectsV6.antt =====
-- What assignIPv6 does to the contents of the database. Its keys have the prefix of IPv6.
use amazon_ecs_cni_plugins.Base.{
  ◌≡◌, ◌≢◌, refl, ◌∙◌, ap, inl, inr, arith, Result-cases, Text, text_eq, true, false, none, some,
  List, [], ◌∷◌, All, has_prefix, text_eq_iff, Bool-cases,
}
use amazon_ecs_cni_plugins.Base.{Error, key_exists, ok, err}
use amazon_ecs_cni_plugins.IpStore.Db.{KvPair, Store, IsLawful, IsHealthy}
use amazon_ecs_cni_plugins.IpStore.Manager.{
  IpManager, unique_id_v6, has_value, ip_prefix_v6, put_ipv6, assign_ipv6,
}
use amazon_ecs_cni_plugins.IpStore.Manager.Effects.{contents, with_key, exists-false}
use amazon_ecs_cni_plugins.IpStore.Manager.Healthy.{exists-of_none, exists-of_some}

module _ (S : Store) (L : IsLawful S) (key id : Text) (m : IpManager S) where
  put_ipv6-client : (put_ipv6 S key id m).1.client ≡ (S.put m.client key id).1
  unfolding put_ipv6
  put_ipv6-client = ground arith

  put_ipv6-ok :
      (j : Text)
      → (put_ipv6 S key id m).0 ≡ ok tt
      → contents S L (put_ipv6 S key id m).1 j ≡ with_key S L (contents S L m) key (some id) j
  unfolding put_ipv6
  put_ipv6-ok j h =
      ap (λ (c : S.State). L.at c j) put_ipv6-client ∙ L.put_ok m.client key id j (ground arith)

  put_ipv6-err :
      (j : Text) (e : Error)
      → (put_ipv6 S key id m).0 ≡ err e
      → contents S L (put_ipv6 S key id m).1 j ≡ contents S L m j
  unfolding put_ipv6
  put_ipv6-err j e h = elim (Result-cases (S.put m.client key id).0) [
    | inl (u, q) ↦ ground arith
    | inr (x, q) ↦ ap (λ (c : S.State). L.at c j) put_ipv6-client ∙ L.put_err m.client key id j x q
  ]

  pub assign_ipv6-free : (assign_ipv6 S key id m).0 ≡ ok tt → contents S L m key ≡ none
  unfolding assign_ipv6
  assign_ipv6-free h = exists-false S L key m (ground arith)

  pub assign_ipv6-ok :
      (j : Text)
      → (assign_ipv6 S key id m).0 ≡ ok tt
      → contents S L (assign_ipv6 S key id m).1 j ≡ with_key S L (contents S L m) key (some id) j
  unfolding assign_ipv6
  assign_ipv6-ok j h = ground (arith, put_ipv6-ok j)

  pub assign_ipv6-err :
      (j : Text) (e : Error)
      → (assign_ipv6 S key id m).0 ≡ err e
      → contents S L (assign_ipv6 S key id m).1 j ≡ contents S L m j
  unfolding assign_ipv6
  assign_ipv6-err j e h = ground (arith, put_ipv6-err j e)

  -- A key in use is refused with ErrKeyExists and nothing changes.
  pub assign_ipv6-key_exists :
      (assign_ipv6 S key id m).0 ≡ err key_exists → assign_ipv6 S key id m ≡ (err key_exists, m)
  unfolding assign_ipv6 put_ipv6
  assign_ipv6-key_exists h = ground arith

  pub assign_ipv6-taken :
      IsHealthy S → contents S L m key ≢ none → assign_ipv6 S key id m ≡ (err key_exists, m)
  unfolding assign_ipv6
  assign_ipv6-taken H h = ground (arith, exists-of_some S L H key m h)

module _ (S : Store) (L : IsLawful S) (H : IsHealthy S) where
  -- An id that no key under the prefix of IPv6 has.
  abbrev pub IsFreshV6 : Text → IpManager S → Type 0
  IsFreshV6 id m = (k : Text) → has_prefix ip_prefix_v6 k ≡ true → contents S L m k ≢ some id

  IsFreshV6-has_value :
      (id : Text) (m : IpManager S) (kvs : List KvPair)
      → IsFreshV6 id m
      → All
          (λ (kv : KvPair).
            (contents S L m kv.0 ≡ some kv.1) × (has_prefix ip_prefix_v6 kv.0 ≡ true))
          kvs
      → has_value id kvs ≡ false
  unfolding has_value
  IsFreshV6-has_value id m [] f a = refl
  IsFreshV6-has_value id m ((k, v) ∷ kvs) f ((e, p), a) = elim (Bool-cases (text_eq v id)) [
    | inl same ↦ absurd (f k p (e ∙ ap some ((text_eq_iff v id).0 same)))
    | inr other ↦ rw other (IsFreshV6-has_value id m kvs f a)
  ]

  unique_id_v6-IsFreshV6 :
      (id : Text) (m : IpManager S) → IsFreshV6 id m → unique_id_v6 S id m ≡ ok true
  unfolding unique_id_v6
  unique_id_v6-IsFreshV6 id m f = elim (Result-cases (S.list m.client ip_prefix_v6)) [
    | inl (kvs, q) ↦
        ground (arith, IsFreshV6-has_value id m kvs f (L.list_sound m.client ip_prefix_v6 kvs q))
    | inr (e, q) ↦ ground (arith, H.list_answers m.client ip_prefix_v6 e q)
  ]

  put_ipv6-answers : (key id : Text) (m : IpManager S) → (put_ipv6 S key id m).0 ≡ ok tt
  unfolding put_ipv6
  put_ipv6-answers key id m = ground (arith, H.put_answers m.client key id)

  -- A free key is given to an id that no key of IPv6 has.
  pub assign_ipv6-of_free :
      (key id : Text) (m : IpManager S)
      → contents S L m key ≡ none
      → IsFreshV6 id m
      → (assign_ipv6 S key id m).0 ≡ ok tt
  unfolding assign_ipv6
  assign_ipv6-of_free key id m e f = ground (
    arith,
    exists-of_none S L H key m e,
    unique_id_v6-IsFreshV6 id m f,
    put_ipv6-answers key id m,
  )
