-- ===== src/Gateway/Respond/Retry.antt =====
-- The `Retry-After` header of a rate limited answer.
use stellarmesh_sdk.Base.{ℕ, ◌+◌, ◌*◌, ◌≤◌, ◌<◌, arith}
use stellarmesh_sdk.Gateway.Respond.{second, retry_seconds}

-- The seconds of the Retry-After header cover the limiter's duration and exceed it by less than a
-- second.
pub retry_seconds_bounds :
    (nanoseconds : ℕ)
    → (nanoseconds ≤ retry_seconds nanoseconds * second)
      × (retry_seconds nanoseconds * second < nanoseconds + second)
unfolding retry_seconds
retry_seconds_bounds n = ground arith
