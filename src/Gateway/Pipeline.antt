-- ===== src/Gateway/Pipeline.antt =====
-- sdk/go/gateway/gateway.go: `Gateway.ServeHTTP`, the fixed order of the checks of a request.
-- Each component that a project configures is a function: it is called at most once for a request,
-- so a component with a state of its own answers each request as some function does.
pub mod Admission
pub mod Authorized
pub mod Admitted
pub mod Aborts
pub mod Answered
pub mod Served
pub mod Forwarded
use stellarmesh_sdk.Base.{
  ℕ, Bool, ◌&&◌, List, [], ◌∷◌, Option, none, some, is_positive, ltℤ, if◌then◌else◌, Result, ok,
  err,
}
use stellarmesh_sdk.Text.{Text, ascii, trim_space}
use stellarmesh_sdk.Gateway.Header.{set}
use stellarmesh_sdk.Gateway.Types.{
  Route, Identity, RequestContext, RateLimitScope, client_ip, user_id, upstream, RateLimitRequest,
  Error, failure, Request, Call,
}
use stellarmesh_sdk.Gateway.Recorder.{Writer, Reply, new_recorder, run_calls, set_header}
use stellarmesh_sdk.Gateway.AccessLog.{Exchange, with_log, new_access_log_state}
use stellarmesh_sdk.Gateway.Respond.{ErrorResponder, on_recorder, unavailable_error, rejection}
use stellarmesh_sdk.Gateway.RequestId.{RequestIdConfig, resolve_request_id}
use stellarmesh_sdk.Gateway.Route.{RouteError, is_empty, normalize_resolved_route}
use stellarmesh_sdk.Gateway.Flow.{
  Flow, next, done, panicked, Stage, ◌>>=◌, ◌>>◌, pure, modify, refuse_with, run_reply, after_call,
  with_context,
}
use stellarmesh_sdk.Gateway.RateLimit.{RateLimiter, apply_rate_limit}
use stellarmesh_sdk.Gateway.Policy.{Policy, apply_authorizer, apply_before_proxy}
use stellarmesh_sdk.Gateway.Authenticate.{
  Authenticator, CredentialExtractor, authenticate, strip_and_inject_identity,
}
use stellarmesh_sdk.Gateway.Cors.{CorsPolicy}
use stellarmesh_sdk.Gateway.Cors.Handle.{handle_cors}
use stellarmesh_sdk.Gateway.Health.{HealthPolicy, handle_health}
use stellarmesh_sdk.Gateway.Finish.{Event, AccessLogger, finish_request, recover_panic}

-- `http.Handler`: what it writes, and whether it panics.
abbrev pub Handler : Type 0
Handler = Request → Reply

-- `upstreams` returns `none` for a nil handler.
pub record Gateway : Type 0 where
  pub routes : Request → Call (Option Route)
  pub upstreams : Route → Call (Option Handler)
  pub authenticator : Option Authenticator
  pub credential_extractor : CredentialExtractor
  pub authorizer : Option Policy
  pub before_proxy : Option Policy
  pub client_ip_resolver : Request → Call Text
  pub client_ip_limiter : Option RateLimiter
  pub user_limiter : Option RateLimiter
  pub upstream_limiter : Option RateLimiter
  pub error_responder : ErrorResponder
  pub request_id : RequestIdConfig
  pub cors : Option CorsPolicy
  pub access_logger : Option AccessLogger
  pub observer : Bool
  pub health : Option HealthPolicy

module _ (g : Gateway) where
  abbrev unavailable {ℓ} : {A : Type ℓ} → Text → Error → Stage A
  unavailable code e = refuse_with g.error_responder (unavailable_error code e)

  adopt_request_id : Text → Exchange → Exchange
  adopt_request_id id x =
      let x' = on_recorder x (run_calls (set_header g.request_id.header id ∷ [])) in
      record x' {
        request = record (x.request) {
          header = set x.request.header g.request_id.header id;
          context = record (x.request.context) { request_id = some id };
        };
        log = record (x.log) { entry = record (x.log.entry) { request_id = id } };
      }

  assigned : Text → Stage Text
  unfolding adopt_request_id
  assigned id = do modify (adopt_request_id id); pure id

  -- From `resolveRequestID` to the context's request ID.
  unfoldable pub assign_request_id : Stage Text
  unfolding assigned
  assign_request_id x =
      let (request, id) = resolve_request_id g.request_id x.request in
      after_call id assigned (unavailable (ascii "request_id_unavailable"))
        (record x { request = request })

  cors_stage : Option CorsPolicy → Stage (Unit {0})
  cors_stage none x = next tt x
  cors_stage (some p) x = handle_cors g.error_responder p x

  unfoldable pub check_cors : Stage (Unit {0})
  unfolding cors_stage
  check_cors = cors_stage g.cors

  health_stage : Option HealthPolicy → Stage (Unit {0})
  health_stage none x = next tt x
  health_stage (some p) x = handle_health g.error_responder p x

  unfoldable pub check_health : Stage (Unit {0})
  unfolding health_stage
  check_health = health_stage g.health

  adopt_route : Route → Exchange → Exchange
  adopt_route route x =
      with_context
        (with_log x (λ log. record log { route = route.name; upstream = route.upstream }))
        (λ c. record c { route = some route })

  normalized : Result RouteError Route → Stage Route
  unfolding adopt_route
  normalized (err e) =
      unavailable (ascii "invalid_resolved_route") (failure (ascii "invalid resolved route"))
  normalized (ok route) = do modify (adopt_route route); pure route

  found_route : Option Route → Stage Route
  unfolding normalized
  found_route none =
      refuse_with g.error_responder
        (rejection 404 (ascii "route_not_found") (ascii "route not found"))
  found_route (some raw) = normalized (normalize_resolved_route raw)

  -- From `routes.Resolve` to the context's route.
  unfoldable pub select_route : Stage Route
  unfolding found_route
  select_route x =
      after_call (g.routes x.request) found_route (unavailable (ascii "route_resolution_failed")) x

  found_upstream : Option Handler → Stage Handler
  found_upstream none =
      unavailable (ascii "upstream_resolution_failed")
        (failure (ascii "gateway upstream handler is nil"))
  found_upstream (some h) = pure h

  unfoldable pub select_upstream : Route → Stage Handler
  unfolding found_upstream
  select_upstream route =
      after_call (g.upstreams route) found_upstream
        (unavailable (ascii "upstream_resolution_failed"))

  adopt_client_ip : Text → Exchange → Exchange
  adopt_client_ip ip x =
      with_context (with_log x (λ log. record log { client_ip = ip }))
        (λ c. record c { client_ip = some ip })

  found_client_ip : Text → Stage Text
  unfolding adopt_client_ip
  found_client_ip ip =
      if is_empty (trim_space ip)
      then unavailable (ascii "client_ip_resolution_failed")
          (failure (ascii "gateway client IP is empty"))
      else (do modify (adopt_client_ip ip); pure ip)

  -- From `clientIPResolver.Resolve` to the context's address.
  unfoldable pub identify_client : Stage Text
  unfolding found_client_ip
  identify_client x =
      after_call (g.client_ip_resolver x.request) found_client_ip
        (unavailable (ascii "client_ip_resolution_failed")) x

  abbrev pub limit_request : RateLimitScope → Text → Route → RateLimitRequest
  limit_request scope key route = record {
    scope = scope;
    key = key;
    route = route.name;
    upstream = route.upstream;
  }

  -- The context's identity, and the limit of the user that it names.
  unfoldable pub check_user : Route → Option Identity → Stage (Unit {0})
  check_user route none = pure tt
  check_user route (some i) = do
    modify (λ x. with_context x (λ c. record c { identity = some i }))
    apply_rate_limit g.error_responder g.user_limiter (limit_request user_id i.user_id route)

  limited_body : Route → Exchange → Exchange
  limited_body route x = record x {
    request = record (x.request) { body_limit = some route.max_body_bytes };
  }

  -- The bound of the route on the request's body.
  unfoldable pub check_body : Route → Stage (Unit {0})
  unfolding limited_body
  check_body route x =
      if is_positive route.max_body_bytes && x.request.has_body
      then if ltℤ route.max_body_bytes x.request.content_length
        then refuse_with g.error_responder
            (rejection 413 (ascii "request_body_too_large") (ascii "request body too large")) x
        else next tt (limited_body route x)
      else next tt x

  with_identity_headers : Option Identity → Exchange → Exchange
  with_identity_headers i x = record x {
    request = record (x.request) { header = strip_and_inject_identity x.request.header i };
  }

  abbrev pub request_context : Text → Text → Route → Option Identity → RequestContext
  request_context id ip route i = record {
    request_id = id;
    client_ip = ip;
    route = route;
    identity = i;
  }

  -- The stages from `applyRateLimit` of the client to the call of the upstream.
  prepare : Route → Option Identity → Stage (Unit {0})
  unfolding with_identity_headers
  prepare route i = do modify (with_identity_headers i); check_body route

  limit_upstream : Route → Option Identity → Stage (Unit {0})
  unfolding prepare
  limit_upstream route i = do
    apply_rate_limit g.error_responder g.upstream_limiter
        (limit_request upstream route.upstream route)
    prepare route i

  consult_policies : RequestContext → Route → Option Identity → Stage (Unit {0})
  unfolding limit_upstream
  consult_policies c route i = do
    apply_authorizer g.error_responder g.authorizer c
    apply_before_proxy g.error_responder g.before_proxy c
    limit_upstream route i

  unfoldable pub authorize_request : Text → Text → Route → Stage (Unit {0})
  unfolding consult_policies
  authorize_request id ip route = do
    apply_rate_limit g.error_responder g.client_ip_limiter (limit_request client_ip ip route)
    i ← authenticate g.error_responder g.authenticator g.credential_extractor route
    check_user route i
    consult_policies (request_context id ip route i) route i

  -- The stages from `routes.Resolve`.
  dispatch : Text → Stage Handler
  dispatch id = do
    route ← select_route
    handler ← select_upstream route
    ip ← identify_client
    authorize_request id ip route
    pure handler

  -- `ServeHTTP` up to the call of the upstream: the handler that may serve the request.
  unfoldable pub admit : Stage Handler
  unfolding dispatch
  admit = do id ← assign_request_id; check_cors; check_health; dispatch id

  -- `upstream.ServeHTTP`.
  unfoldable pub forward : Handler → Stage (Unit {0})
  forward h x = run_reply (h x.request) x

  -- The deferred `recoverPanic`.
  unfoldable pub settle : Flow (Unit {0}) → Exchange
  settle (next _ x) = x
  settle (done x) = x
  settle (panicked p x) = recover_panic g.error_responder p x

  unfoldable pub arrival : Writer → Request → ℕ → Exchange
  arrival w r now = record {
    request = r;
    recorder = new_recorder w;
    log = new_access_log_state r now;
  }

  -- `ServeHTTP`: the exchange at its end, and what was logged and observed.
  unfoldable pub serve_http : Writer → Request → (started finished : ℕ) → Exchange × List Event
  serve_http w r started finished =
      let x = settle ((admit >>= forward) (arrival w r started)) in
      (x, finish_request g.access_logger g.observer x finished)
