-- ===== src/Utils/Retry.antt =====
-- pkg/utils/errors.go and RetryWithBackoff, RetryWithBackoffCtx of pkg/utils/utils.go. The context,
-- the function to retry, the backoff and the clock share a state, which is a parameter.
pub mod Laws
pub mod Attempts
use amazon_ecs_cni_plugins.Base.{
  ℕ, zero, suc, if◌then◌else◌, Bool, true, false, not, Option, none, some, Error,
}

-- DefaultRetriable
pub record Retriable : Type 0 where
  pub may_retry : Bool

-- NewRetriable
abbrev pub new_retriable : Bool → Retriable
new_retriable b = record { may_retry = b }

-- An error: one without the method Retry, or a DefaultRetriableError.
pub data Failure : Type 0 where
  plain : Error → Failure
  retriable : Retriable → Error → Failure

-- NewRetriableError
abbrev pub new_retriable_error : Retriable → Error → Failure
new_retriable_error r e = retriable r e

-- The test behind each call: the error has the method Retry, which gives false.
unfoldable pub is_final : Failure → Bool
is_final (plain e) = false
is_final (retriable r e) = not r.may_retry

-- What the loop works on: whether the context is done and with which error, the function, the
-- interface Backoff, and time.Sleep.
pub record World : Type 1 where
  pub State : Type 0
  pub context_err : State → Option Failure
  pub call : State → Option Failure × State
  pub reset : State → State
  pub duration : State → ℕ × State
  pub sleep : ℕ → State → State

-- The result of the loop, or that it goes on behind its fuel.
pub data Outcome (S : Type 0) : Type 0 where
  returned : Option Failure → S → Outcome S
  running : S → Outcome S

module _ (W : World) where
  -- time.Sleep(backoff.Duration())
  unfoldable pub pause : W.State → W.State
  pause s = let (d, t) = W.duration s in W.sleep d t

  -- RetryWithBackoffCtx
  unfoldable pub retry_with_backoff_ctx : ℕ → W.State → Outcome W.State
  retry_with_backoff_ctx zero s = running s
  retry_with_backoff_ctx (suc fuel) s = elim (W.context_err s) [
    | some e ↦ returned (some e) s
    | none ↦
        let (answer, t) = W.call s in
        elim answer [
          | none ↦ returned none t
          | some f ↦
              let rest = retry_with_backoff_ctx fuel (pause t) in
              if is_final f then returned (some f) t else rest
        ]
  ]

-- context.Background: it is never done.
abbrev pub background : World → World
background W = record W { context_err = λ s. none }

-- RetryWithBackoff
unfoldable pub retry_with_backoff : (W : World) → ℕ → W.State → Outcome W.State
retry_with_backoff W = retry_with_backoff_ctx (background W)
