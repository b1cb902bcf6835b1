-- ===== src/IpStore/Manager/Healthy.antt =====
-- What the methods of the IP manager do on a store that does not fail.
use amazon_ecs_cni_plugins.Base.{
  ◌≡◌, ◌≢◌, refl, ◌∙◌, ap, inl, inr, Bool-cases, Result-cases, Text, text_eq, text_eq_iff, true,
  false, arith,
}
use amazon_ecs_cni_plugins.Base.{none, some, List, [], ◌∷◌, All, has_prefix}
use amazon_ecs_cni_plugins.Base.{key_exists, ok, err}
use amazon_ecs_cni_plugins.IpStore.Db.{Store, IsLawful, IsHealthy, KvPair}
use amazon_ecs_cni_plugins.IpStore.Manager.{
  IpManager, exists, unique_id, has_value, put_ip, assign, ip_prefix,
}
use amazon_ecs_cni_plugins.IpStore.Manager.Effects.{contents}

module _ (S : Store) (L : IsLawful S) (H : IsHealthy S) where
  pub exists-of_none :
      (k : Text) (m : IpManager S) → contents S L m k ≡ none → exists S k m ≡ ok false
  unfolding exists
  exists-of_none k m e =
      let (b, q) = H.exists_answers m.client k in
      elim (Bool-cases b) [
        | inl t ↦ absurd (L.exists_true m.client k (q ∙ ap ok t) e)
        | inr f ↦ ground arith
      ]

  pub exists-of_some :
      (k : Text) (m : IpManager S) → contents S L m k ≢ none → exists S k m ≡ ok true
  unfolding exists
  exists-of_some k m e =
      let (b, q) = H.exists_answers m.client k in
      elim (Bool-cases b) [
        | inl t ↦ ground arith
        | inr f ↦ absurd (e (L.exists_false m.client k (q ∙ ap ok f)))
      ]

  pub assign-taken :
      (ip id : Text) (m : IpManager S)
      → contents S L m ip ≢ none
      → assign S ip id m ≡ (err key_exists, m)
  unfolding assign
  assign-taken ip id m h = ground (arith, exists-of_some ip m h)

  -- An id that no address key has, or none at all.
  abbrev pub IsFresh : Text → IpManager S → Type 0
  IsFresh id m = (k : Text) → has_prefix ip_prefix k ≡ true → contents S L m k ≢ some id

  IsFresh-has_value :
      (id : Text) (m : IpManager S) (kvs : List KvPair)
      → IsFresh id m
      → All
          (λ (kv : KvPair). (contents S L m kv.0 ≡ some kv.1) × (has_prefix ip_prefix kv.0 ≡ true))
          kvs
      → has_value id kvs ≡ false
  unfolding has_value
  IsFresh-has_value id m [] f a = refl
  IsFresh-has_value id m ((k, v) ∷ kvs) f ((e, p), a) = elim (Bool-cases (text_eq v id)) [
    | inl same ↦ absurd (f k p (e ∙ ap some ((text_eq_iff v id).0 same)))
    | inr other ↦ rw other (IsFresh-has_value id m kvs f a)
  ]

  unique_id-IsFresh : (id : Text) (m : IpManager S) → IsFresh id m → unique_id S id m ≡ ok true
  unfolding unique_id
  unique_id-IsFresh id m f = elim (Result-cases (S.list m.client ip_prefix)) [
    | inl (kvs, q) ↦
        ground (arith, IsFresh-has_value id m kvs f (L.list_sound m.client ip_prefix kvs q))
    | inr (e, q) ↦ ground (arith, H.list_answers m.client ip_prefix e q)
  ]

  put_ip-answers : (ip id : Text) (m : IpManager S) → (put_ip S ip id m).0 ≡ ok tt
  unfolding put_ip
  put_ip-answers ip id m = ground (arith, H.put_answers m.client ip id)

  -- A free address is assigned to an id that no address has.
  pub assign-of_free :
      (ip id : Text) (m : IpManager S)
      → contents S L m ip ≡ none
      → IsFresh id m
      → (assign S ip id m).0 ≡ ok tt
  unfolding assign
  assign-of_free ip id m e f =
      ground (arith, exists-of_none ip m e, unique_id-IsFresh id m f, put_ip-answers ip id m)
