-- ===== src/Gateway/Pipeline/Aborts.antt =====
-- The components of a gateway that may panic with `http.ErrAbortHandler`.
use stellarmesh_sdk.Base.{◌≡◌, ◌⊎◌, some, ℤ}
use stellarmesh_sdk.Text.{Text}
use stellarmesh_sdk.Gateway.Types.{
  Request, RequestContext, RateLimitRequest, Route, Call, returns, panics, abort_handler,
}
use stellarmesh_sdk.Gateway.Health.{HealthPolicy, HealthResult}
use stellarmesh_sdk.Gateway.RateLimit.{RateLimiter}
use stellarmesh_sdk.Gateway.Policy.{Policy}
use stellarmesh_sdk.Gateway.Authenticate.{Authenticator}
use stellarmesh_sdk.Gateway.Pipeline.{Gateway, Handler}

-- A component of the gateway, or a handler that its upstreams give, does so at some call.
pub data Aborts (g : Gateway) : Type 0 where
  by_generator : g.request_id.generate ≡ panics abort_handler → Aborts g
  by_readiness :
      (p : HealthPolicy) (check : ℤ → Call (Unit {0})) (timeout : ℤ)
      → g.health ≡ some p
      → p.readiness ≡ some check
      → check timeout ≡ panics abort_handler
      → Aborts g
  by_health :
      (p : HealthPolicy) (r : Request) (h : HealthResult)
      → g.health ≡ some p
      → (p.responder r h).panic ≡ some abort_handler
      → Aborts g
  by_routes : (r : Request) → g.routes r ≡ panics abort_handler → Aborts g
  by_upstreams : (route : Route) → g.upstreams route ≡ panics abort_handler → Aborts g
  by_client_ip : (r : Request) → g.client_ip_resolver r ≡ panics abort_handler → Aborts g
  by_limiter :
      (l : RateLimiter) (q : RateLimitRequest)
      → (g.client_ip_limiter ≡ some l) ⊎ ((g.user_limiter ≡ some l) ⊎ (g.upstream_limiter ≡ some l))
      → l q ≡ panics abort_handler
      → Aborts g
  by_extractor : (r : Request) → g.credential_extractor r ≡ panics abort_handler → Aborts g
  by_authenticator :
      (a : Authenticator) (credential : Text)
      → g.authenticator ≡ some a
      → a credential ≡ panics abort_handler
      → Aborts g
  by_policy :
      (p : Policy) (r : Request) (c : RequestContext)
      → (g.authorizer ≡ some p) ⊎ (g.before_proxy ≡ some p)
      → p r c ≡ panics abort_handler
      → Aborts g
  by_handler :
      (route : Route) (h : Handler) (r : Request)
      → g.upstreams route ≡ returns (some h)
      → (h r).panic ≡ some abort_handler
      → Aborts g
