-- ===== src/Gateway/RateLimit/Admission.antt =====
-- What a limiter's check has established when it lets a request go on.
use stellarmesh_sdk.Base.{◌≡◌, Bool, true, false, Option, none, some, ℤ, arith}
use stellarmesh_sdk.Gateway.Types.{RateLimitRequest, RateLimitScope}
use stellarmesh_sdk.Gateway.AccessLog.{Exchange, set_rate_limit_result}
use stellarmesh_sdk.Gateway.Respond.{ErrorResponder}
use stellarmesh_sdk.Gateway.Flow.{refuse_with, next, after_call-eq-next, Keeps}
use stellarmesh_sdk.Gateway.RateLimit.{RateLimiter, limit_decision, apply_rate_limit, Admits}

limit_decision-eq-next :
    (responder : ErrorResponder) (scope : RateLimitScope) (allowed : Bool) (retry : ℤ)
    (x y : Exchange)
    → limit_decision responder scope allowed retry x ≡ next tt y
    → (allowed ≡ true) × Keeps x y
unfolding limit_decision refuse_with set_rate_limit_result
limit_decision-eq-next responder scope true retry x y e = ground arith
limit_decision-eq-next responder scope false retry x y e = cc

pub apply_rate_limit-eq-next :
    (responder : ErrorResponder) (limiter : Option RateLimiter) (q : RateLimitRequest)
    (x y : Exchange)
    → apply_rate_limit responder limiter q x ≡ next tt y
    → Admits limiter q × Keeps x y
unfolding apply_rate_limit refuse_with set_rate_limit_result
apply_rate_limit-eq-next responder none q x y e = ground arith
apply_rate_limit-eq-next responder (some limiter) q x y e =
    let (d, c, e') = after_call-eq-next (limiter q) _ _ (λ err. cc) e in
    let (allowed, keeps) =
      limit_decision-eq-next responder q.scope d.allowed d.retry_after x y e' in
    ((d, c, allowed), keeps)
