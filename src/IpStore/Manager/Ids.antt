-- ===== src/IpStore/Manager/Ids.antt =====
-- Who holds which key: the outcomes of Assign and Release, and the keys of an id.
use amazon_ecs_cni_plugins.Base.{
  ◌≡◌, ◌≢◌, ◌⊎◌, ◌↔◌, ◌∙◌, sym, ap, inl, inr, Bool-cases, Result-cases, Text, text_eq, text_eq_iff,
  true, false, has_prefix, arith,
}
use amazon_ecs_cni_plugins.Base.{Option, none, some, [], Error, ok, err}
use amazon_ecs_cni_plugins.IpStore.Db.{Store, IsLawful, IsHealthy}
use amazon_ecs_cni_plugins.IpStore.Manager.{IpManager, assign, release, ip_prefix}
use amazon_ecs_cni_plugins.IpStore.Manager.Effects.{
  contents, with_key, assign-free, assign-ok, assign_unique, assign-err, release-taken, release-ok,
  release-err,
}
use amazon_ecs_cni_plugins.IpStore.Manager.Healthy.{assign-of_free, IsFresh}

module _ (S : Store) (L : IsLawful S) where
  -- No id but the empty one is the value of two keys under IPPrefix.
  abbrev pub HasUniqueIds : IpManager S → Type 0
  HasUniqueIds m =
      (j k id : Text)
      → text_eq id [] ≡ false
      → has_prefix ip_prefix j ≡ true
      → has_prefix ip_prefix k ≡ true
      → contents S L m j ≡ some id
      → contents S L m k ≡ some id
      → j ≡ k

  -- On a lawful store, Assign either succeeds, and then the key had no entry and holds the id
  -- after while all other keys are as before, or fails, and then all keys are as before.
  pub assign-outcome :
      (ip id : Text) (m : IpManager S)
      → (((assign S ip id m).0 ≡ ok tt)
          × (contents S L m ip ≡ none)
          × ((j : Text)
              → contents S L (assign S ip id m).1 j ≡ with_key S L (contents S L m) ip (some id) j))
        ⊎ ((e : Error) × ((assign S ip id m).0 ≡ err e)
            × ((j : Text) → contents S L (assign S ip id m).1 j ≡ contents S L m j))
  assign-outcome ip id m = elim (Result-cases (assign S ip id m).0) [
    | inl (u, q) ↦ inl (q, assign-free S L ip id m q, λ j. assign-ok S L ip id j m q)
    | inr (e, q) ↦ inr (e, q, λ j. assign-err S L ip id j m e q)
  ]

  -- On a lawful store, Release either succeeds, and then the key had an entry and has none after
  -- while all other keys are as before, or fails, and then all keys are as before.
  pub release-outcome :
      (ip : Text) (m : IpManager S)
      → (((release S ip m).0 ≡ ok tt)
          × (contents S L m ip ≢ none)
          × ((j : Text)
              → contents S L (release S ip m).1 j ≡ with_key S L (contents S L m) ip none j))
        ⊎ ((e : Error) × ((release S ip m).0 ≡ err e)
            × ((j : Text) → contents S L (release S ip m).1 j ≡ contents S L m j))
  release-outcome ip m = elim (Result-cases (release S ip m).0) [
    | inl (u, q) ↦ inl (q, release-taken S L ip m q, λ j. release-ok S L ip j m q)
    | inr (e, q) ↦ inr (e, q, λ j. release-err S L ip j m e q)
  ]

  -- A key that holds an id after a key was set held it before, or is that key.
  with_key-some :
      (c : Text → Option Text) (ip id j i : Text)
      → with_key S L c ip (some id) j ≡ some i
      → ((j ≡ ip) × (i ≡ id)) ⊎ (c j ≡ some i)
  with_key-some c ip id j i h = elim (Bool-cases (text_eq j ip)) [
    | inl same ↦ let e : some id ≡ some i = rw same at h in inl ((text_eq_iff j ip).0 same, cc)
    | inr other ↦ inr (rw other at h)
  ]

  with_key-none :
      (c : Text → Option Text) (ip j i : Text) → with_key S L c ip none j ≡ some i → c j ≡ some i
  with_key-none c ip j i h = ground arith

  -- On a lawful store, if no id but the empty one is the value of two keys under IPPrefix, then
  -- the same holds after Assign, whether it succeeds or fails.
  pub assign-HasUniqueIds :
      (ip id : Text) (m : IpManager S) → HasUniqueIds m → HasUniqueIds (assign S ip id m).1
  assign-HasUniqueIds ip id m u j k i n p q hj hk = elim (Result-cases (assign S ip id m).0) [
    | inr (e, f) ↦
        u j k i n p q (sym (assign-err S L ip id j m e f) ∙ hj)
          (sym (assign-err S L ip id k m e f) ∙ hk)
    | inl (t, s) ↦
        let cj = with_key-some (contents S L m) ip id j i (sym (assign-ok S L ip id j m s) ∙ hj) in
        let ck = with_key-some (contents S L m) ip id k i (sym (assign-ok S L ip id k m s) ∙ hk) in
        let fresh : (l : Text)
            → i ≡ id
            → has_prefix ip_prefix l ≡ true
            → contents S L m l ≢ some i =
          λ l e r c.
            assign_unique S L ip id l m s (ap (λ x. text_eq x []) (sym e) ∙ n) r (c ∙ ap some e) in
        elim cj [
          | inl (ej, ei) ↦ elim ck [ inl (ek, _) ↦ ej ∙ sym ek | inr c ↦ absurd (fresh k ei q c) ]
          | inr c ↦ elim ck [ inl (_, ei) ↦ absurd (fresh j ei p c) | inr d ↦ u j k i n p q c d ]
        ]
  ]

  -- On a lawful store, if no id but the empty one is the value of two keys under IPPrefix, then
  -- the same holds after Release, whether it succeeds or fails.
  pub release-HasUniqueIds :
      (ip : Text) (m : IpManager S) → HasUniqueIds m → HasUniqueIds (release S ip m).1
  release-HasUniqueIds ip m u j k i n p q hj hk = elim (Result-cases (release S ip m).0) [
    | inr (e, f) ↦
        u j k i n p q (sym (release-err S L ip j m e f) ∙ hj)
          (sym (release-err S L ip k m e f) ∙ hk)
    | inl (t, s) ↦
        u j k i n p q (with_key-none (contents S L m) ip j i (sym (release-ok S L ip j m s) ∙ hj))
          (with_key-none (contents S L m) ip k i (sym (release-ok S L ip k m s) ∙ hk))
  ]

  module _ (H : IsHealthy S) where
    -- On a lawful store that does not fail, Assign of an id that is not empty succeeds exactly if
    -- the key has no entry and no key under IPPrefix has the id.
    pub assign_iff :
        (ip id : Text) (m : IpManager S)
        → text_eq id [] ≡ false
        → ((assign S ip id m).0 ≡ ok tt) ↔ ((contents S L m ip ≡ none) × IsFresh S L H id m)
    assign_iff ip id m n = (
      λ s. (assign-free S L ip id m s, λ k p. assign_unique S L ip id k m s n p),
      λ (e, f). assign-of_free S L H ip id m e f,
    )
