-- ===== src/Tests/Retry.antt =====
-- The retry loop over a counter: a call succeeds at zero, and fails and counts down else.
use amazon_ecs_cni_plugins.Base.{ℕ, zero, suc, ◌≡◌, ◌↔◌, refl, false, Option, none, some, message}
use amazon_ecs_cni_plugins.Utils.Retry.{
  Failure, plain, new_retriable, new_retriable_error, is_final, World, returned, pause,
  retry_with_backoff_ctx, retry_with_backoff,
}
use amazon_ecs_cni_plugins.Utils.Retry.Attempts.{IsRun, retry_with_backoff_ctx_iff}

abbrev answer_at : Failure → ℕ → Option Failure × ℕ
answer_at f zero = (none, zero)
answer_at f (suc n) = (some f, n)

abbrev counter : Failure → World
counter f = record {
  State = ℕ;
  context_err = λ n. none;
  call = answer_at f;
  reset = λ n. n;
  duration = λ n. (10, n);
  sleep = λ d n. n;
}

abbrev failed : Failure
failed = plain (message "err")

abbrev refused : Failure
refused = new_retriable_error (new_retriable false) (message "can't retry")

retried : retry_with_backoff_ctx (counter failed) 4 3 ≡ returned none 0
unfolding retry_with_backoff_ctx is_final pause
retried = refl

retry_with_backoff_ctx_iff_example :
    ((fuel : ℕ) × (retry_with_backoff_ctx (counter failed) fuel 3 ≡ returned none 0))
    ↔ IsRun (counter failed) 3 none 0
retry_with_backoff_ctx_iff_example = retry_with_backoff_ctx_iff (counter failed) 3 none 0

refused_once : retry_with_backoff (counter refused) 1 3 ≡ returned (some refused) 2
unfolding retry_with_backoff retry_with_backoff_ctx is_final pause
refused_once = refl
