-- ===== src/Utils/Retry/Laws.antt =====
-- What the retry loop returns, by the rounds that it makes.
use amazon_ecs_cni_plugins.Base.{
  ℕ, zero, suc, ◌≡◌, ◌↔◌, refl, sym, ap, subst, ◌∙◌, arith, inl, inr, Bool-cases, Option-cases,
  if◌then◌else◌, true, false, Option, none, some, Error,
}
use amazon_ecs_cni_plugins.Utils.Retry.{
  Retriable, Failure, plain, retriable, is_final, World, Outcome, returned, running, pause,
  retry_with_backoff_ctx, background, retry_with_backoff,
}

-- The rounds of a retry from one state, its result and the state that it leaves.
pub data Returns (W : World) : W.State → Option Failure → W.State → Type 0 where
  context_done : (s : W.State) (e : Failure) → W.context_err s ≡ some e → Returns W s (some e) s
  success : (s t : W.State) → W.context_err s ≡ none → W.call s ≡ (none, t) → Returns W s none t
  final_failure :
      (s t : W.State) (f : Failure)
      → W.context_err s ≡ none
      → W.call s ≡ (some f, t)
      → is_final f ≡ true
      → Returns W s (some f) t
  retry :
      (s t : W.State) (f : Failure) (r : Option Failure) (u : W.State)
      → W.context_err s ≡ none
      → W.call s ≡ (some f, t)
      → is_final f ≡ false
      → Returns W (pause W t) r u
      → Returns W s r u

module _ (W : World) where
  -- What a round does, by the context and by the answer of the call.
  round-done :
      (fuel : ℕ) (s : W.State) (e : Failure)
      → W.context_err s ≡ some e
      → retry_with_backoff_ctx W (suc fuel) s ≡ returned (some e) s
  unfolding retry_with_backoff_ctx
  round-done fuel s e c = rw (c, retry_with_backoff_ctx) refl

  -- The outcome after an answer of the function.
  abbrev after_call : ℕ → Option Failure × W.State → Outcome W.State
  after_call fuel p = elim p.0 [
    | none ↦ returned none p.1
    | some f ↦
        if is_final f then returned (some f) p.1 else retry_with_backoff_ctx W fuel (pause W p.1)
  ]

  round-call :
      (fuel : ℕ) (s t : W.State) (a : Option Failure)
      → W.context_err s ≡ none
      → W.call s ≡ (a, t)
      → retry_with_backoff_ctx W (suc fuel) s ≡ after_call fuel (a, t)
  unfolding retry_with_backoff_ctx
  round-call fuel s t a c q = rw (c, retry_with_backoff_ctx) (ap (after_call fuel) q)

  -- An outcome that has returned is the one that the rounds end with.
  AsReturned : W.State → Outcome W.State → Type 0
  AsReturned s (returned r u) = Returns W s r u
  AsReturned s (running u) = Unit

  retry_with_backoff_ctx-AsReturned :
      (fuel : ℕ) (s : W.State) → AsReturned s (retry_with_backoff_ctx W fuel s)
  unfolding AsReturned retry_with_backoff_ctx
  retry_with_backoff_ctx-AsReturned zero s = tt
  retry_with_backoff_ctx-AsReturned (suc fuel) s = elim (Option-cases (W.context_err s)) [
    | inr (e, c) ↦ subst (AsReturned s) (sym (round-done fuel s e c)) (context_done s e c)
    | inl c ↦
        let t = (W.call s).1 in
        elim (Option-cases (W.call s).0) [
          | inl q ↦
              let answer : W.call s ≡ (none, t) = ap (λ a. (a, t)) q in
              subst (AsReturned s) (sym (round-call fuel s t none c answer)) (success s t c answer)
          | inr (f, q) ↦
              let answer : W.call s ≡ (some f, t) = ap (λ a. (a, t)) q in
              subst (AsReturned s) (sym (round-call fuel s t (some f) c answer))
                (elim (Bool-cases (is_final f)) [
                  | inl end ↦ rw end (final_failure s t f c answer end)
                  | inr on ↦ rw on (
                      after s t f c answer on (retry_with_backoff_ctx W fuel (pause W t))
                        (retry_with_backoff_ctx-AsReturned fuel (pause W t)))
                ])
        ]
  ]
    where
      after :
          (s t : W.State) (f : Failure)
          → W.context_err s ≡ none
          → W.call s ≡ (some f, t)
          → is_final f ≡ false
          → (o : Outcome W.State) → AsReturned (pause W t) o
          → AsReturned s o
      after s t f c q on (returned r u) h = retry s t f r u c q on h
      after s t f c q on (running u) h = tt

  -- As many rounds as the run has are enough.
  Returns-enough :
      (s : W.State) (r : Option Failure) (u : W.State)
      → Returns W s r u
      → (fuel : ℕ) × (retry_with_backoff_ctx W fuel s ≡ returned r u)
  Returns-enough s r u (context_done _ e c) = (1, round-done 0 s e c)
  Returns-enough s r u (success _ t c q) = (1, round-call 0 s t none c q)
  Returns-enough s r u (final_failure _ t f c q end) =
      (1, round-call 0 s t (some f) c q ∙ rw end refl)
  Returns-enough s r u (retry _ t f _ _ c q on rest) =
      let (fuel, h) = Returns-enough (pause W t) r u rest in
      (suc fuel, round-call fuel s t (some f) c q ∙ rw on h)

  pub retry_with_backoff_ctx-Returns :
      (s : W.State) (r : Option Failure) (u : W.State)
      → ((fuel : ℕ) × (retry_with_backoff_ctx W fuel s ≡ returned r u)) ↔ Returns W s r u
  unfolding AsReturned
  retry_with_backoff_ctx-Returns s r u = (
    λ (fuel, h). subst (AsReturned s) h (retry_with_backoff_ctx-AsReturned fuel s),
    λ run. Returns-enough s r u run,
  )

final-Retriable :
    (f : Failure)
    → is_final f ≡ true
    → (r : Retriable) × (e : Error) × (f ≡ retriable r e) × (r.may_retry ≡ false)
unfolding is_final
final-Retriable (plain e) h = cc
final-Retriable (retriable r e) h = (r, e, refl, ground arith)

-- If RetryWithBackoff returns an error, then that error has the method Retry, which gives false.
pub retry_with_backoff-final :
    (W : World) (fuel : ℕ) (s u : W.State) (f : Failure)
    → retry_with_backoff W fuel s ≡ returned (some f) u
    → (r : Retriable) × (e : Error) × (f ≡ retriable r e) × (r.may_retry ≡ false)
unfolding retry_with_backoff
retry_with_backoff-final W fuel s u f h = final-Retriable f (
    ends s (some f) u ((retry_with_backoff_ctx-Returns (background W) s (some f) u).0 (fuel, h)) f
      refl)
  where
    ends :
        (s : W.State) (r : Option Failure) (u : W.State)
        → Returns (background W) s r u
        → (f : Failure) → r ≡ some f
        → is_final f ≡ true
    ends s r u (context_done _ e c) f q = cc
    ends s r u (success _ t c a) f q = cc
    ends s r u (final_failure _ t g c a end) f q =
        let same : g ≡ f = cc in ap is_final (sym same) ∙ end
    ends s r u (retry _ t g _ _ c a on rest) f q = ends (pause (background W) t) r u rest f q
