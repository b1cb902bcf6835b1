-- ===== src/Eni/Metadata/Retries.antt =====
-- The retries of doesMACAddressMapToIPAddress.
use amazon_ecs_cni_plugins.Base.{
  ℕ, zero, suc, ◌≤◌, ◌≡◌, refl, arith, inl, inr, Result-cases, Text, ◌∷◌, Error, ok, err,
}
use amazon_ecs_cni_plugins.Host.{Host, History, get_metadata}
use amazon_ecs_cni_plugins.Eni.Metadata.{metadata, query_with_retries}

-- The history after `n` more queries of a path.
abbrev pub queried : ℕ → Text → History → History
queried zero path h = h
queried (suc n) path h = queried n path (get_metadata path ∷ h)

module _ (host : Host) where
  -- The retry loop makes at least one query and at most one more than the number of attempts left,
  -- all of the given path, and no other call.
  pub query_with_retries-calls :
      (left : ℕ) (path : Text) (h : History)
      → (n : ℕ) × (n ≤ left) × ((query_with_retries host left path h).1 ≡ queried (suc n) path h)
  unfolding query_with_retries metadata
  query_with_retries-calls zero path h = (0, omega arith, refl)
  query_with_retries-calls (suc left) path h = elim (Result-cases (host.metadata h path)) [
    | inl (text, q) ↦ (0, omega arith, ground arith)
    | inr (e, q) ↦
        let (n, le, same) = query_with_retries-calls left path (get_metadata path ∷ h) in
        (suc n, omega arith, ground (arith, same))
  ]

  -- If one of the attempts that the retry loop may make is answered and all attempts before it
  -- fail, the loop returns that answer.
  pub query_with_retries-answers :
      (n left : ℕ) (path text : Text) (h : History)
      → n ≤ left
      → ((k : ℕ) → suc k ≤ n → (e : Error) × (host.metadata (queried k path h) path ≡ err e))
      → host.metadata (queried n path h) path ≡ ok text
      → (query_with_retries host left path h).0 ≡ ok text
  unfolding query_with_retries metadata
  query_with_retries-answers zero zero path text h le f a = a
  query_with_retries-answers zero (suc left) path text h le f a = ground arith
  query_with_retries-answers (suc n) zero path text h le f a = absurd (omega arith)
  query_with_retries-answers (suc n) (suc left) path text h le f a =
      let (e, q) = f 0 (omega arith) in
      let later =
        query_with_retries-answers n left path text (get_metadata path ∷ h) (omega arith)
          (λ k l. f (suc k) (omega arith)) a in
      ground arith
