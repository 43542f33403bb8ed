-- ===== src/Gateway/RateLimit/Answered.antt =====
-- A limiter that ends a request answers it.
use stellarmesh_sdk.Base.{◌≡◌, refl, Bool, true, false, Option, none, some, ℤ}
use stellarmesh_sdk.Gateway.Types.{panics, abort_handler, RateLimitRequest, RateLimitScope}
use stellarmesh_sdk.Gateway.Respond.{ErrorResponder}
use stellarmesh_sdk.Gateway.Respond.Answered.{AnswersAll}
use stellarmesh_sdk.Gateway.Flow.Answered.{AnswersStage, after_call-Answered, refuse_with-Answered}
use stellarmesh_sdk.Gateway.RateLimit.{RateLimiter, limit_decision, apply_rate_limit}

module _ (Abort : Type 0) (responder : ErrorResponder) (answers : AnswersAll responder) where
  limit_decision-Answered :
      (scope : RateLimitScope) (allowed : Bool) (retry : ℤ)
      → AnswersStage Abort (limit_decision responder scope allowed retry)
  unfolding limit_decision
  limit_decision-Answered scope true retry x = tt
  limit_decision-Answered scope false retry x = refuse_with-Answered Abort _ responder _ answers _

  pub apply_rate_limit-Answered :
      (limiter : Option RateLimiter) (q : RateLimitRequest)
      → ((l : RateLimiter) → limiter ≡ some l → l q ≡ panics abort_handler → Abort)
      → AnswersStage Abort (apply_rate_limit responder limiter q)
  unfolding apply_rate_limit
  apply_rate_limit-Answered none q aborts x = tt
  apply_rate_limit-Answered (some limiter) q aborts x =
      after_call-Answered Abort (limiter q) _ _ (aborts limiter refl)
        (λ d. limit_decision-Answered q.scope d.allowed d.retry_after)
        (λ e y. refuse_with-Answered Abort _ responder _ answers _) x
