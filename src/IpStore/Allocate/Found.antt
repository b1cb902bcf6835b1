-- ===== src/IpStore/Allocate/Found.antt =====
-- What ReleaseByID finds: the key under a prefix that holds the id.
use amazon_ecs_cni_plugins.Base.{
  ◌≡◌, ◌≢◌, refl, ◌∙◌, sym, ap, arith, inl, inr, Bool-cases, Option-cases, Result-cases, Text,
  text_eq, text_eq_iff, true, false, has_prefix, Option, none, some, List, [], ◌∷◌, All, Error,
  message, ok, err,
}
use amazon_ecs_cni_plugins.IpStore.Db.{Store, KvPair, IsLawful, IsHealthy, lookup}
use amazon_ecs_cni_plugins.IpStore.Manager.{IpManager, find_key, release, ip_prefix, ip_prefix_v6}
use amazon_ecs_cni_plugins.IpStore.Manager.Effects.{contents, with_key, release-ok}
use amazon_ecs_cni_plugins.IpStore.Manager.Healthy.{exists-of_some, IsFresh}
use amazon_ecs_cni_plugins.IpStore.Manager.EffectsV6.{IsFreshV6}
use amazon_ecs_cni_plugins.IpStore.Allocate.{release_v4_of, release_v6_of, release_by_id}

abbrev pub none_message : Error
none_message = message "release ipstore: no ip address associated with the given id: %s"

pub find_key-lookup :
    (id k : Text) (kvs : List KvPair) → lookup k kvs ≡ some id → find_key id kvs ≢ none
unfolding find_key lookup
find_key-lookup id k [] h e = cc
find_key-lookup id k ((j, v) ∷ kvs) h e = ground (arith, text_eq_iff v id, find_key-lookup id k kvs)

-- The prefixes of the two families exclude each other.
pub one_family : (k : Text) → has_prefix ip_prefix k ≡ true → has_prefix ip_prefix_v6 k ≡ false
unfolding has_prefix
one_family [] p = refl
one_family (c ∷ k) p = ground arith

pub not_empty : (k : Text) → has_prefix ip_prefix k ≡ true → text_eq k [] ≡ false
unfolding has_prefix text_eq
not_empty [] p = cc
not_empty (c ∷ k) p = refl

pub different : false ≢ true
different e = cc

module _ (S : Store) (L : IsLawful S) where
  -- The key that the loop stops at holds the id and is under the prefix.
  pub find_key_sound :
      (id key p : Text) (m : IpManager S) (kvs : List KvPair)
      → All (λ (kv : KvPair). (contents S L m kv.0 ≡ some kv.1) × (has_prefix p kv.0 ≡ true)) kvs
      → find_key id kvs ≡ some key
      → (contents S L m key ≡ some id) × (has_prefix p key ≡ true)
  unfolding find_key
  find_key_sound id key p m [] a h = cc
  find_key_sound id key p m ((k, v) ∷ kvs) ((e, q), a) h = elim (Bool-cases (text_eq v id)) [
    | inl same ↦
        let found : some k ≡ some key = rw same at h in
        let value = (text_eq_iff v id).0 same in (cc, ground arith)
    | inr other ↦ find_key_sound id key p m kvs a (rw other at h)
  ]

  -- After one key was given to an id, what else holds it held it before.
  pub with_key-given :
      (k id : Text) (c c' : Text → Option Text)
      → ((j : Text) → c' j ≡ with_key S L c k (some id) j)
      → (j : Text) → c j ≢ some id
      → c' j ≡ some id
      → j ≡ k
  with_key-given k id c c' now j n at = elim (Bool-cases (text_eq j k)) [
    | inl same ↦ (text_eq_iff j k).0 same
    | inr other ↦ absurd (n (rw other at (sym (now j) ∙ at)))
  ]

  pub with_key-held :
      (k id : Text) (c c' : Text → Option Text)
      → ((j : Text) → c' j ≡ with_key S L c k (some id) j)
      → c' k ≡ some id
  with_key-held k id c c' now = now k ∙ rw ((text_eq_iff k k).1 refl) refl

  -- Taking a new key away again restores the contents.
  pub with_key-undone :
      (k id : Text) (c c' : Text → Option Text)
      → ((j : Text) → c' j ≡ with_key S L c k (some id) j)
      → c k ≡ none
      → (j : Text) → with_key S L c' k none j ≡ c j
  with_key-undone k id c c' now free j = elim (Bool-cases (text_eq j k)) [
    | inl same ↦ rw same (sym (ap c ((text_eq_iff j k).0 same) ∙ free))
    | inr other ↦ rw other (now j ∙ rw other refl)
  ]

  module _ (H : IsHealthy S) where
    pub release-of_some :
        (k : Text) (m : IpManager S) → contents S L m k ≢ none → (release S k m).0 ≡ ok tt
    unfolding release
    release-of_some k m h = ground (arith, exists-of_some S L H k m h, H.delete_answers m.client k)

    -- ReleaseByID's first half removes the one key under IPPrefix that holds the id.
    release_v4_of-only :
        (id k : Text) (m : IpManager S)
        → contents S L m k ≡ some id
        → has_prefix ip_prefix k ≡ true
        → ((j : Text) → has_prefix ip_prefix j ≡ true → contents S L m j ≡ some id → j ≡ k)
        → release_v4_of S id m ≡ (ok k, (release S k m).1)
    unfolding release_v4_of
    release_v4_of-only id k m h p only = elim (Result-cases (S.list m.client ip_prefix)) [
      | inr (e, q) ↦
          let missing =
            L.list_missing m.client ip_prefix k (q ∙ ap err (H.list_answers m.client ip_prefix e q))
              p in
          cc
      | inl (kvs, q) ↦ elim (Option-cases (find_key id kvs)) [
        | inl f ↦
            absurd (find_key-lookup id k kvs (L.list_complete m.client ip_prefix kvs k id q h p) f)
        | inr (key, f) ↦
            let (holds, under) =
              find_key_sound id key ip_prefix m kvs (L.list_sound m.client ip_prefix kvs q) f in
            let same : key ≡ k = only key under holds in
            let done = release-of_some k m (λ gone. cc) in
            rw (q, release_v4_of, f ∙ ap some same, done) refl
      ]
    ]

    pub release_v6_of-none :
        (id : Text) (m : IpManager S) → IsFreshV6 S L H id m → release_v6_of S id m ≡ (ok [], m)
    unfolding release_v6_of
    release_v6_of-none id m f = elim (Result-cases (S.list m.client ip_prefix_v6)) [
      | inr (e, q) ↦ ground (arith, H.list_answers m.client ip_prefix_v6 e q)
      | inl (kvs, q) ↦ elim (Option-cases (find_key id kvs)) [
        | inl n ↦ ground arith
        | inr (key, n) ↦
            let (holds, under) =
              find_key_sound id key ip_prefix_v6 m kvs (L.list_sound m.client ip_prefix_v6 kvs q)
                n in
            absurd (f key under holds)
      ]
    ]

    pub release_v4_of-none :
        (id : Text) (m : IpManager S) → IsFresh S L H id m → release_v4_of S id m ≡ (ok [], m)
    unfolding release_v4_of
    release_v4_of-none id m f = elim (Result-cases (S.list m.client ip_prefix)) [
      | inr (e, q) ↦ ground (arith, H.list_answers m.client ip_prefix e q)
      | inl (kvs, q) ↦ elim (Option-cases (find_key id kvs)) [
        | inl n ↦ ground arith
        | inr (key, n) ↦
            let (holds, under) =
              find_key_sound id key ip_prefix m kvs (L.list_sound m.client ip_prefix kvs q) n in
            absurd (f key under holds)
      ]
    ]

    pub release_by_id-none :
        (id : Text) (m : IpManager S)
        → IsFresh S L H id m
        → IsFreshV6 S L H id m
        → release_by_id S id m ≡ (err none_message, m)
    unfolding release_by_id text_eq
    release_by_id-none id m f f6 =
        rw (release_v4_of-none id m f, release_by_id, release_v6_of-none id m f6) refl

    -- ReleaseByID removes the one IPv4 key that holds the id, if no IPv6 key holds it.
    pub release_by_id-only :
        (id k : Text) (m : IpManager S)
        → contents S L m k ≡ some id
        → has_prefix ip_prefix k ≡ true
        → ((j : Text) → has_prefix ip_prefix j ≡ true → contents S L m j ≡ some id → j ≡ k)
        → IsFreshV6 S L H id m
        → release_by_id S id m ≡ (ok (k, []), (release S k m).1)
    unfolding release_by_id
    release_by_id-only id k m h p only f =
        let done = release-of_some k m (λ gone. cc) in
        let still : IsFreshV6 S L H id (release S k m).1 = λ j under holds.
          let left : with_key S L (contents S L m) k none j ≡ some id =
            sym (release-ok S L k j m done) ∙ holds in
          f j under (ground arith) in
        rw
          (
            release_v4_of-only id k m h p only,
            release_by_id,
            release_v6_of-none id (release S k m).1 still,
            not_empty k p,
          )
          refl
