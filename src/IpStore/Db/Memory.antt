-- ===== src/IpStore/Db/Memory.antt =====
-- A store in memory that meets the laws, so that they can be met.
use amazon_ecs_cni_plugins.Base.{
  Text, text_eq, text_eq_iff, text_eq_refl, ap, Option-cases, Bool-cases, inl, inr, has_prefix,
  Bool, true, false, Option, none, some,
}
use amazon_ecs_cni_plugins.Base.{List, [], ◌∷◌, All, ◌≡◌, refl, if◌then◌else◌, arith, ◌&&◌}
use amazon_ecs_cni_plugins.Base.{Error, key_not_found, Result, ok, err}
use amazon_ecs_cni_plugins.IpStore.Db.{KvPair, lookup, Store, IsLawful, IsHealthy}

abbrev is_some : Option Text → Bool
is_some none = false
is_some (some v) = true

unfoldable pub set : Text → Text → List KvPair → List KvPair
set k v [] = (k, v) ∷ []
set k v ((j, w) ∷ kvs) = if text_eq k j then (k, v) ∷ kvs else (j, w) ∷ set k v kvs

unfoldable pub without : Text → List KvPair → List KvPair
without k [] = []
without k ((j, w) ∷ kvs) = let rest = without k kvs in if text_eq k j then rest else (j, w) ∷ rest

holds : Option Text → Text → Bool
holds none w = false
holds (some v) w = text_eq v w

-- The pairs under a prefix that a lookup finds.
unfoldable pub under : Text → List KvPair → List KvPair → List KvPair
unfolding holds
under p all [] = []
under p all ((j, w) ∷ kvs) =
    let rest = under p all kvs in
    if has_prefix p j && holds (lookup j all) w then (j, w) ∷ rest else rest

module _ (k v j : Text) where
  pub lookup-set :
      (kvs : List KvPair) → lookup j (set k v kvs) ≡ (if text_eq j k then some v else lookup j kvs)
  unfolding lookup set
  lookup-set [] = refl
  lookup-set ((i, w) ∷ kvs) =
      ground (arith, text_eq_iff k i, text_eq_iff j i, text_eq_iff j k, lookup-set kvs)

pub lookup-without :
    (k j : Text) (kvs : List KvPair)
    → lookup j (without k kvs) ≡ (if text_eq j k then none else lookup j kvs)
unfolding lookup without
lookup-without k j [] = ground arith
lookup-without k j ((i, w) ∷ kvs) =
    ground (arith, text_eq_iff k i, text_eq_iff j i, text_eq_iff j k, lookup-without k j kvs)

abbrev Listed : Text → List KvPair → KvPair → Type 0
Listed p all kv = (lookup kv.0 all ≡ some kv.1) × (has_prefix p kv.0 ≡ true)

holds_sound : (o : Option Text) (w : Text) → holds o w ≡ true → o ≡ some w
unfolding holds
holds_sound none w h = cc
holds_sound (some v) w h = ap some ((text_eq_iff v w).0 h)

holds-some : (w : Text) → holds (some w) w ≡ true
unfolding holds
holds-some w = text_eq_refl w

pub under-Listed : (p : Text) (all kvs : List KvPair) → All (Listed p all) (under p all kvs)
unfolding under
under-Listed p all [] = tt
under-Listed p all ((j, w) ∷ kvs) = elim (Bool-cases (has_prefix p j && holds (lookup j all) w)) [
  | inl h ↦
      rw h ((holds_sound (lookup j all) w (ground arith), ground arith), under-Listed p all kvs)
  | inr h ↦ rw h (under-Listed p all kvs)
]

lookup-under :
    (p k v : Text) (all kvs : List KvPair)
    → lookup k all ≡ some v
    → has_prefix p k ≡ true
    → lookup k kvs ≡ some v
    → lookup k (under p all kvs) ≡ some v
unfolding under lookup
lookup-under p k v all [] h q e = cc
lookup-under p k v all ((j, w) ∷ kvs) h q e =
    ground (arith, text_eq_iff k j, holds-some v, lookup-under p k v all kvs h q)

abbrev pub present : List KvPair → Result (List KvPair)
present [] = err key_not_found
present (kv ∷ kvs) = ok (kv ∷ kvs)

abbrev pub memory : Store
memory = record {
  State = List KvPair;
  exists = λ s k. ok (is_some (lookup k s));
  get = λ s k. elim (lookup k s) [ none ↦ err key_not_found | some v ↦ ok v ];
  list = λ s p. present (under p s s);
  put = λ s k v. (ok tt, set k v s);
  delete = λ s k. (ok tt, without k s);
}

pub present-ok : (kvs l : List KvPair) → present kvs ≡ ok l → l ≡ kvs
present-ok [] l h = cc
present-ok (kv ∷ kvs) l h = cc

pub present-missing :
    (kvs : List KvPair) (e : Error) → present kvs ≡ err e → (kvs ≡ []) × (e ≡ key_not_found)
present-missing [] e h = (refl, cc)
present-missing (kv ∷ kvs) e h = (cc, cc)

pub list_complete :
    (s : List KvPair) (p : Text) (kvs : List KvPair) (k v : Text)
    → present (under p s s) ≡ ok kvs
    → lookup k s ≡ some v
    → has_prefix p k ≡ true
    → lookup k kvs ≡ some v
list_complete s p kvs k v h e q = rw (present-ok (under p s s) kvs h) (lookup-under p k v s s e q e)

pub list_missing :
    (s : List KvPair) (p k : Text)
    → present (under p s s) ≡ err key_not_found
    → has_prefix p k ≡ true
    → lookup k s ≡ none
unfolding lookup
list_missing s p k h q = elim (Option-cases (lookup k s)) [
  | inl e ↦ e
  | inr (v, e) ↦
      let found : lookup k [] ≡ some v =
        rw (present-missing (under p s s) key_not_found h).0 at (lookup-under p k v s s e q e) in
      cc
]

-- The store in memory meets the laws.
unfoldable pub memory-IsLawful : IsLawful memory
memory-IsLawful = record {
  at = λ s k. lookup k s;
  exists_true = λ s k h. ground arith;
  exists_false = λ s k h. ground arith;
  exists_missing = λ s k h. cc;
  get_ok = λ s k v h. ground arith;
  get_missing = λ s k h. ground arith;
  list_sound = λ s p kvs h. rw (present-ok (under p s s) kvs h) (under-Listed p s s);
  list_complete = list_complete;
  list_missing = list_missing;
  put_ok = λ s k v j h. lookup-set k v j s;
  put_err = λ s k v j e h. cc;
  delete_ok = λ s k j h. lookup-without k j s;
  delete_err = λ s k j e h. cc;
}

-- None of its operations fails.
pub memory-IsHealthy : IsHealthy memory
memory-IsHealthy = record {
  exists_answers = λ s k. (is_some (lookup k s), refl);
  list_answers = λ s p e h. (present-missing (under p s s) e h).1;
  put_answers = λ s k v. refl;
  get_answers = λ s k e h. ground arith;
  delete_answers = λ s k. refl;
}
