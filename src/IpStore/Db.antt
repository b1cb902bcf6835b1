-- ===== src/IpStore/Db.antt =====
-- The interface store.Store of libkv, which package ipstore calls, as far as it does so. The store
-- itself is third-party code: a state with five operations, of which `IsLawful` states what libkv
-- documents. An operation may fail at any time; a write that fails changes nothing.
pub mod Memory
use amazon_ecs_cni_plugins.Base.{Text, text_eq, has_prefix, Bool, true, false, Option, none, some}
use amazon_ecs_cni_plugins.Base.{List, [], ◌∷◌, All, ◌≡◌, ◌≢◌, if◌then◌else◌}
use amazon_ecs_cni_plugins.Base.{Error, key_not_found, Result, ok, err}

-- store.KVPair
abbrev pub KvPair : Type 0
KvPair = Text × Text

unfoldable pub lookup : Text → List KvPair → Option Text
lookup k [] = none
lookup k ((j, v) ∷ kvs) = if text_eq k j then some v else lookup k kvs

pub record Store : Type 1 where
  pub State : Type 0
  pub exists : State → Text → Result Bool
  pub get : State → Text → Result Text
  pub list : State → Text → Result (List KvPair)
  pub put : State → Text → Text → Result (Unit {0}) × State
  pub delete : State → Text → Result (Unit {0}) × State

pub record IsLawful (S : Store) : Type 0 where
  -- The value that a key has.
  pub at : S.State → Text → Option Text
  pub exists_true : (s : S.State) (k : Text) → S.exists s k ≡ ok true → at s k ≢ none
  pub exists_false : (s : S.State) (k : Text) → S.exists s k ≡ ok false → at s k ≡ none
  pub exists_missing : (s : S.State) (k : Text) → S.exists s k ≡ err key_not_found → at s k ≡ none
  pub get_ok : (s : S.State) (k v : Text) → S.get s k ≡ ok v → at s k ≡ some v
  pub get_missing : (s : S.State) (k : Text) → S.get s k ≡ err key_not_found → at s k ≡ none
  -- The pairs of a listing are pairs of the store under the prefix, and none is left out.
  pub list_sound :
      (s : S.State) (p : Text) (kvs : List KvPair)
      → S.list s p ≡ ok kvs
      → All (λ (kv : KvPair). (at s kv.0 ≡ some kv.1) × (has_prefix p kv.0 ≡ true)) kvs
  pub list_complete :
      (s : S.State) (p : Text) (kvs : List KvPair) (k v : Text)
      → S.list s p ≡ ok kvs
      → at s k ≡ some v
      → has_prefix p k ≡ true
      → lookup k kvs ≡ some v
  pub list_missing :
      (s : S.State) (p k : Text)
      → S.list s p ≡ err key_not_found
      → has_prefix p k ≡ true
      → at s k ≡ none
  pub put_ok :
      (s : S.State) (k v j : Text)
      → (S.put s k v).0 ≡ ok tt
      → at (S.put s k v).1 j ≡ (if text_eq j k then some v else at s j)
  pub put_err :
      (s : S.State) (k v j : Text) (e : Error)
      → (S.put s k v).0 ≡ err e
      → at (S.put s k v).1 j ≡ at s j
  pub delete_ok :
      (s : S.State) (k j : Text)
      → (S.delete s k).0 ≡ ok tt
      → at (S.delete s k).1 j ≡ (if text_eq j k then none else at s j)
  pub delete_err :
      (s : S.State) (k j : Text) (e : Error)
      → (S.delete s k).0 ≡ err e
      → at (S.delete s k).1 j ≡ at s j

-- A store none of whose operations fails for a reason of its own.
pub record IsHealthy (S : Store) : Type 0 where
  pub exists_answers : (s : S.State) (k : Text) → (b : Bool) × (S.exists s k ≡ ok b)
  pub list_answers : (s : S.State) (p : Text) (e : Error) → S.list s p ≡ err e → e ≡ key_not_found
  pub put_answers : (s : S.State) (k v : Text) → (S.put s k v).0 ≡ ok tt
  pub get_answers : (s : S.State) (k : Text) (e : Error) → S.get s k ≡ err e → e ≡ key_not_found
  pub delete_answers : (s : S.State) (k : Text) → (S.delete s k).0 ≡ ok tt
