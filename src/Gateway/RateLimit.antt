-- ===== src/Gateway/RateLimit.antt =====
-- sdk/go/gateway/rate_limit.go: one check of a configured limiter.
pub mod Admission
pub mod Answered
use stellarmesh_sdk.Base.{Bool, true, false, Option, none, some, ℤ, ◌≡◌}
use stellarmesh_sdk.Text.{Text, ascii}
use stellarmesh_sdk.Gateway.Types.{
  RateLimitScope, RateLimitRequest, RateLimitDecision, GatewayError, Call, returns,
}
use stellarmesh_sdk.Gateway.AccessLog.{set_rate_limit_result}
use stellarmesh_sdk.Gateway.Respond.{ErrorResponder, unavailable_error}
use stellarmesh_sdk.Gateway.Flow.{Stage, ◌>>◌, modify, refuse_with, after_call}

abbrev pub RateLimiter : Type 0
RateLimiter = RateLimitRequest → Call RateLimitDecision

abbrev pub limit_error : ℤ → GatewayError
limit_error retry_after = record {
  status = 429;
  code = ascii "rate_limit_exceeded";
  message = ascii "rate limit exceeded";
  retry_after = retry_after;
  cause = none;
}

abbrev pub mark : RateLimitScope → Text → Stage (Unit {0})
mark scope result = modify (λ x. set_rate_limit_result x scope result)

limit_decision : ErrorResponder → RateLimitScope → Bool → ℤ → Stage (Unit {0})
limit_decision responder scope true retry_after = mark scope (ascii "allowed")
limit_decision responder scope false retry_after = do
  mark scope (ascii "rejected")
  refuse_with responder (limit_error retry_after)

-- `applyRateLimit`.
unfoldable pub apply_rate_limit :
    ErrorResponder → Option RateLimiter → RateLimitRequest → Stage (Unit {0})
unfolding limit_decision
apply_rate_limit responder none q = mark q.scope (ascii "disabled")
apply_rate_limit responder (some limiter) q =
    after_call (limiter q) (λ d. limit_decision responder q.scope d.allowed d.retry_after)
      λ e. do
        mark q.scope (ascii "error")
        refuse_with responder (unavailable_error (ascii "rate_limiter_unavailable") e)

-- The limiter lets the request pass.
abbrev pub Admits : Option RateLimiter → RateLimitRequest → Type 0
Admits none q = Unit
Admits (some limiter) q = (d : RateLimitDecision) × (limiter q ≡ returns d) × (d.allowed ≡ true)
