-- ===== src/IpStore/Manager/Effects.antt =====
-- What the methods of the IP manager do to the contents of the database.
use amazon_ecs_cni_plugins.Base.{
  ◌≡◌, ◌≢◌, refl, ◌∙◌, ap, inl, inr, Result-cases, if◌then◌else◌, Text, text_eq, text_eq_iff, true,
  false, arith,
}
use amazon_ecs_cni_plugins.Base.{Option, none, some, List, [], ◌∷◌, has_prefix}
use amazon_ecs_cni_plugins.Base.{Error, key_exists, key_not_found, is_key_not_found, ok, err}
use amazon_ecs_cni_plugins.IpStore.Db.{Store, IsLawful, KvPair, lookup}
use amazon_ecs_cni_plugins.IpStore.Manager.{
  IpManager, exists, unique_id, has_value, put_ip, assign, release, release_ipv6, ip_prefix,
}

-- If the loop does not meet the id, no key has it.
has_value-lookup :
    (id k : Text) (kvs : List KvPair) → has_value id kvs ≡ false → lookup k kvs ≢ some id
unfolding has_value lookup
has_value-lookup id k [] h e = cc
has_value-lookup id k ((j, v) ∷ kvs) h e =
    ground (arith, text_eq_iff v id, has_value-lookup id k kvs)

missing-error : (e : Error) → is_key_not_found e ≡ true → e ≡ key_not_found
missing-error key_not_found h = refl
missing-error _ h = cc

module _ (S : Store) (L : IsLawful S) where
  -- The contents of the manager's database.
  abbrev pub contents : IpManager S → Text → Option Text
  contents m = L.at m.client

  -- The contents with one key set.
  abbrev pub with_key : (Text → Option Text) → Text → Option Text → Text → Option Text
  with_key c k v j = if text_eq j k then v else c j

  pub exists-false : (k : Text) (m : IpManager S) → exists S k m ≡ ok false → contents m k ≡ none
  unfolding exists
  exists-false k m h = ground (arith, L.exists_false m.client k, L.exists_missing m.client k)

  pub exists-true : (k : Text) (m : IpManager S) → exists S k m ≡ ok true → contents m k ≢ none
  unfolding exists
  exists-true k m h = L.exists_true m.client k (ground arith)

  pub unique_id-ok :
      (id k : Text) (m : IpManager S)
      → unique_id S id m ≡ ok true
      → has_prefix ip_prefix k ≡ true
      → contents m k ≢ some id
  unfolding unique_id
  unique_id-ok id k m h p e = elim (Result-cases (S.list m.client ip_prefix)) [
    | inl (kvs, q) ↦
        has_value-lookup id k kvs (ground arith) (L.list_complete m.client ip_prefix kvs k id q e p)
    | inr (x, q) ↦
        let missing : x ≡ key_not_found = missing-error x (ground arith) in
        cc (L.list_missing m.client ip_prefix k (q ∙ ap err missing) p)
  ]

  put_ip-client :
      (ip id : Text) (m : IpManager S) → (put_ip S ip id m).1.client ≡ (S.put m.client ip id).1
  unfolding put_ip
  put_ip-client ip id m = ground arith

  put_ip-result :
      (ip id : Text) (m : IpManager S)
      → (put_ip S ip id m).0 ≡ ok tt
      → (S.put m.client ip id).0 ≡ ok tt
  unfolding put_ip
  put_ip-result ip id m h = ground arith

  put_ip-ok :
      (ip id j : Text) (m : IpManager S)
      → (put_ip S ip id m).0 ≡ ok tt
      → contents (put_ip S ip id m).1 j ≡ with_key (contents m) ip (some id) j
  put_ip-ok ip id j m h =
      ap (λ (c : S.State). L.at c j) (put_ip-client ip id m)
      ∙ L.put_ok m.client ip id j (put_ip-result ip id m h)

  put_ip-err :
      (ip id j : Text) (m : IpManager S) (e : Error)
      → (put_ip S ip id m).0 ≡ err e
      → contents (put_ip S ip id m).1 j ≡ contents m j
  unfolding put_ip
  put_ip-err ip id j m e h = elim (Result-cases (S.put m.client ip id).0) [
    | inl (u, q) ↦ ground arith
    | inr (x, q) ↦
        ap (λ (c : S.State). L.at c j) (put_ip-client ip id m) ∙ L.put_err m.client ip id j x q
  ]

  -- What a successful Assign has found and has done.
  pub assign-free :
      (ip id : Text) (m : IpManager S) → (assign S ip id m).0 ≡ ok tt → contents m ip ≡ none
  unfolding assign
  assign-free ip id m h = exists-false ip m (ground arith)

  pub assign-ok :
      (ip id j : Text) (m : IpManager S)
      → (assign S ip id m).0 ≡ ok tt
      → contents (assign S ip id m).1 j ≡ with_key (contents m) ip (some id) j
  unfolding assign
  assign-ok ip id j m h = ground (arith, put_ip-ok ip id j m)

  pub assign_unique :
      (ip id k : Text) (m : IpManager S)
      → (assign S ip id m).0 ≡ ok tt
      → text_eq id [] ≡ false
      → has_prefix ip_prefix k ≡ true
      → contents m k ≢ some id
  unfolding assign
  assign_unique ip id k m h n p = unique_id-ok id k m (ground arith) p

  pub assign-err :
      (ip id j : Text) (m : IpManager S) (e : Error)
      → (assign S ip id m).0 ≡ err e
      → contents (assign S ip id m).1 j ≡ contents m j
  unfolding assign
  assign-err ip id j m e h = ground (arith, put_ip-err ip id j m e)

  pub release-taken :
      (ip : Text) (m : IpManager S) → (release S ip m).0 ≡ ok tt → contents m ip ≢ none
  unfolding release
  release-taken ip m h = exists-true ip m (ground arith)

  release-client :
      (ip : Text) (m : IpManager S)
      → exists S ip m ≡ ok true
      → (release S ip m).1.client ≡ (S.delete m.client ip).1
  unfolding release
  release-client ip m h = ground arith

  release-result :
      (ip : Text) (m : IpManager S)
      → (release S ip m).0 ≡ ok tt
      → (exists S ip m ≡ ok true) × ((S.delete m.client ip).0 ≡ ok tt)
  unfolding release
  release-result ip m h = (ground arith, ground arith)

  pub release-ok :
      (ip j : Text) (m : IpManager S)
      → (release S ip m).0 ≡ ok tt
      → contents (release S ip m).1 j ≡ with_key (contents m) ip none j
  release-ok ip j m h =
      let (found, done) = release-result ip m h in
      ap (λ (c : S.State). L.at c j) (release-client ip m found) ∙ L.delete_ok m.client ip j done

  pub release-err :
      (ip j : Text) (m : IpManager S) (e : Error)
      → (release S ip m).0 ≡ err e
      → contents (release S ip m).1 j ≡ contents m j
  unfolding release
  release-err ip j m e h = elim (Result-cases (S.delete m.client ip).0) [
    | inl (u, q) ↦ ground arith
    | inr (x, q) ↦ ground (arith, L.delete_err m.client ip j x q)
  ]

  pub release_ipv6-taken :
      (key : Text) (m : IpManager S) → (release_ipv6 S key m).0 ≡ ok tt → contents m key ≢ none
  unfolding release_ipv6
  release_ipv6-taken key m h = exists-true key m (ground arith)

  release_ipv6-client :
      (key : Text) (m : IpManager S)
      → exists S key m ≡ ok true
      → (release_ipv6 S key m).1.client ≡ (S.delete m.client key).1
  unfolding release_ipv6
  release_ipv6-client key m h = ground arith

  release_ipv6-result :
      (key : Text) (m : IpManager S)
      → (release_ipv6 S key m).0 ≡ ok tt
      → (exists S key m ≡ ok true) × ((S.delete m.client key).0 ≡ ok tt)
  unfolding release_ipv6
  release_ipv6-result key m h = (ground arith, ground arith)

  pub release_ipv6-ok :
      (key j : Text) (m : IpManager S)
      → (release_ipv6 S key m).0 ≡ ok tt
      → contents (release_ipv6 S key m).1 j ≡ with_key (contents m) key none j
  release_ipv6-ok key j m h =
      let (found, done) = release_ipv6-result key m h in
      ap (λ (c : S.State). L.at c j) (release_ipv6-client key m found)
      ∙ L.delete_ok m.client key j done

  pub release_ipv6-err :
      (key j : Text) (m : IpManager S) (e : Error)
      → (release_ipv6 S key m).0 ≡ err e
      → contents (release_ipv6 S key m).1 j ≡ contents m j
  unfolding release_ipv6
  release_ipv6-err key j m e h = elim (Result-cases (S.delete m.client key).0) [
    | inl (u, q) ↦ ground arith
    | inr (x, q) ↦ ground (arith, L.delete_err m.client key j x q)
  ]

  -- An address in use is refused with ErrKeyExists and nothing changes.
  pub assign-key_exists :
      (ip id : Text) (m : IpManager S)
      → (assign S ip id m).0 ≡ err key_exists
      → assign S ip id m ≡ (err key_exists, m)
  unfolding assign put_ip
  assign-key_exists ip id m h = ground arith
