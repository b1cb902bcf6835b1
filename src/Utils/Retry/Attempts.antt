-- ===== src/Utils/Retry/Attempts.antt =====
-- What the retry loop returns, by the number of attempts that fail before.
use amazon_ecs_cni_plugins.Base.{
  ℕ, zero, suc, ◌<◌, ◌≡◌, ◌↔◌, ◌⊎◌, refl, ap, arith, inl, inr, true, false, Option, none, some,
  Error, subst, sym, ◌∙◌,
}
use amazon_ecs_cni_plugins.Utils.Retry.{
  Retriable, Failure, plain, retriable, is_final, World, returned, pause, retry_with_backoff_ctx,
}
use amazon_ecs_cni_plugins.Utils.Retry.Laws.{
  Returns, context_done, success, final_failure, retry, retry_with_backoff_ctx-Returns,
}

-- An error with the method Retry, which gives false.
abbrev pub IsRefused : Failure → Type 0
IsRefused f = (r : Retriable) × (e : Error) × (f ≡ retriable r e) × (r.may_retry ≡ false)

-- An error without the method Retry, or one whose method gives true.
abbrev pub IsRetried : Failure → Type 0
IsRetried f =
    ((e : Error) × (f ≡ plain e))
    ⊎ ((r : Retriable) × (e : Error) × (f ≡ retriable r e) × (r.may_retry ≡ true))

IsRefused-is_final : (f : Failure) → is_final f ≡ true → IsRefused f
unfolding is_final
IsRefused-is_final (plain e) h = cc
IsRefused-is_final (retriable r e) h = (r, e, refl, ground arith)

is_final-IsRefused : (f : Failure) → IsRefused f → is_final f ≡ true
unfolding is_final
is_final-IsRefused f (r, e, q, no_retry) = ap is_final q ∙ rw no_retry refl

IsRetried-is_final : (f : Failure) → is_final f ≡ false → IsRetried f
unfolding is_final
IsRetried-is_final (plain e) h = inl (e, refl)
IsRetried-is_final (retriable r e) h = inr (r, e, refl, ground arith)

is_final-IsRetried : (f : Failure) → IsRetried f → is_final f ≡ false
unfolding is_final
is_final-IsRetried f (inl (e, q)) = ap is_final q
is_final-IsRetried f (inr (r, e, q, may)) = ap is_final q ∙ rw may refl

module _ (W : World) where
  -- The state behind a call that failed and the pause after it: Duration is asked for a pause, and
  -- time.Sleep waits for as long.
  abbrev pub behind_failure : W.State → W.State
  behind_failure s = let (answer, t) = W.call s in let (d, u) = W.duration t in W.sleep d u

  -- The state before an attempt, by the number of attempts before it.
  pub before_attempt : ℕ → W.State → W.State
  before_attempt zero s = s
  before_attempt (suc n) s = before_attempt n (behind_failure s)

  -- The context is not done, and the call fails with an error that is retried.
  abbrev pub IsAttemptFailed : W.State → Type 0
  IsAttemptFailed s =
      (W.context_err s ≡ none) × ((f : Failure) × ((W.call s).0 ≡ some f) × IsRetried f)

  -- The last round: the context is done and gives its error, or the call is made and succeeds, or
  -- fails with an error that is not retried.
  abbrev pub IsLast : W.State → Option Failure → W.State → Type 0
  IsLast s r u =
      ((e : Failure) × (W.context_err s ≡ some e) × (r ≡ some e) × (u ≡ s))
      ⊎ ((W.context_err s ≡ none)
          × (W.call s ≡ (r, u))
          × ((r ≡ none) ⊎ ((f : Failure) × (r ≡ some f) × IsRefused f)))

  abbrev pub IsRun : W.State → Option Failure → W.State → Type 0
  IsRun s r u =
      (n : ℕ) × ((k : ℕ) → k < n → IsAttemptFailed (before_attempt k s))
      × IsLast (before_attempt n s) r u

  IsRun-last : (s : W.State) (r : Option Failure) (u : W.State) → IsLast s r u → IsRun s r u
  unfolding before_attempt
  IsRun-last s r u last = (0, λ k l. absurd (omega arith), last)

  IsRun-failed :
      (s : W.State) (r : Option Failure) (u : W.State)
      → IsAttemptFailed s
      → IsRun (behind_failure s) r u
      → IsRun s r u
  unfolding before_attempt
  IsRun-failed s r u failed (n, all, last) = (suc n, each, last)
    where
      each : (k : ℕ) → k < suc n → IsAttemptFailed (before_attempt k s)
      each zero l = failed
      each (suc k) l = all k (omega arith)

  Returns-IsRun : (s : W.State) (r : Option Failure) (u : W.State) → Returns W s r u → IsRun s r u
  unfolding pause
  Returns-IsRun s r u (context_done _ e c) = IsRun-last s (some e) s (inl (e, c, refl, refl))
  Returns-IsRun s r u (success _ t c q) = IsRun-last s none t (inr (c, q, inl refl))
  Returns-IsRun s r u (final_failure _ t f c q end) =
      IsRun-last s (some f) t (inr (c, q, inr (f, refl, IsRefused-is_final f end)))
  Returns-IsRun s r u (retry _ t f _ _ c q on rest) =
      IsRun-failed s r u (c, (f, ap (λ a. a.0) q, IsRetried-is_final f on))
        (subst (λ a. IsRun (W.sleep (W.duration a.1).0 (W.duration a.1).1) r u) (sym q)
          (Returns-IsRun (pause W t) r u rest))

  IsLast-Returns : (s : W.State) (r : Option Failure) (u : W.State) → IsLast s r u → Returns W s r u
  IsLast-Returns s r u (inl (e, c, p, q)) =
      subst (λ v. Returns W s r v) (sym q)
        (subst (λ a. Returns W s a s) (sym p) (context_done s e c))
  IsLast-Returns s r u (inr (c, q, inl p)) =
      subst (λ a. Returns W s a u) (sym p) (success s u c (q ∙ ap (λ a. (a, u)) p))
  IsLast-Returns s r u (inr (c, q, inr (f, p, refused))) =
      subst (λ a. Returns W s a u) (sym p)
        (final_failure s u f c (q ∙ ap (λ a. (a, u)) p) (is_final-IsRefused f refused))

  IsRun-Returns :
      (n : ℕ) (s : W.State) (r : Option Failure) (u : W.State)
      → ((k : ℕ) → k < n → IsAttemptFailed (before_attempt k s))
      → IsLast (before_attempt n s) r u
      → Returns W s r u
  unfolding before_attempt pause
  IsRun-Returns zero s r u all last = IsLast-Returns s r u last
  IsRun-Returns (suc n) s r u all last =
      let (c, (f, q, retried)) = all 0 (omega arith) in
      let t = (W.call s).1 in
      retry s t f r u c (ap (λ a. (a, t)) q) (is_final-IsRetried f retried)
        (IsRun-Returns n (behind_failure s) r u (λ k l. all (suc k) (omega arith)) last)

  -- With some fuel the retry loop returns a result and a state exactly if there is a number of
  -- attempts that are made while the context is not done and that fail with an error without the
  -- method Retry or one whose method gives true, each followed by a sleep for as long as the
  -- backoff's Duration says, after which either the context is done, with the result as its error
  -- and no further call, or the function is called and gives the result, which is no error or one
  -- whose method Retry gives false.
  pub retry_with_backoff_ctx_iff :
      (s : W.State) (r : Option Failure) (u : W.State)
      → ((fuel : ℕ) × (retry_with_backoff_ctx W fuel s ≡ returned r u)) ↔ IsRun s r u
  retry_with_backoff_ctx_iff s r u =
      let rounds = retry_with_backoff_ctx-Returns W s r u in
      (
        λ run. Returns-IsRun s r u (rounds.0 run),
        λ (n, all, last). rounds.1 (IsRun-Returns n s r u all last),
      )
