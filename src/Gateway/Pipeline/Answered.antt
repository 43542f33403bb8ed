-- ===== src/Gateway/Pipeline/Answered.antt =====
-- Every request is answered, unless its upstream aborts the stream.
use stellarmesh_sdk.Base.{
  ◌≡◌, refl, inl, inr, Option, none, some, ok, err, Result, arith, Bool-cases,
}
use stellarmesh_sdk.Text.{Text, ascii, trim_space}
use stellarmesh_sdk.Gateway.Types.{
  abort_handler, Route, Identity, RequestContext, Error, client_ip, upstream, user_id,
}
use stellarmesh_sdk.Gateway.RequestId.{resolve_request_id}
use stellarmesh_sdk.Gateway.RequestId.Panics.{resolve_request_id-panics}
use stellarmesh_sdk.Gateway.Respond.{rejection}
use stellarmesh_sdk.Gateway.Respond.Answered.{AnswersAll}
use stellarmesh_sdk.Gateway.Route.{RouteError, is_empty, normalize_resolved_route}
use stellarmesh_sdk.Gateway.Flow.{Stage, ◌>>=◌, ◌>>◌, pure}
use stellarmesh_sdk.Gateway.Flow.Answered.{
  AnswersStage, and_then-Answered, after_call-Answered, refuse_with-Answered,
}
use stellarmesh_sdk.Gateway.RateLimit.{apply_rate_limit}
use stellarmesh_sdk.Gateway.Policy.{apply_authorizer, apply_before_proxy}
use stellarmesh_sdk.Gateway.Authenticate.{authenticate}
use stellarmesh_sdk.Gateway.RateLimit.Answered.{apply_rate_limit-Answered}
use stellarmesh_sdk.Gateway.Policy.Answered.{apply_authorizer-Answered, apply_before_proxy-Answered}
use stellarmesh_sdk.Gateway.Authenticate.Answered.{authenticate-Answered}
use stellarmesh_sdk.Gateway.Cors.{CorsPolicy}
use stellarmesh_sdk.Gateway.Cors.Handle.Answered.{handle_cors-Answered}
use stellarmesh_sdk.Gateway.Health.{HealthPolicy}
use stellarmesh_sdk.Gateway.Health.Answered.{AnswersHealth, handle_health-Answered}
use stellarmesh_sdk.Gateway.Pipeline.{
  Gateway, Handler, unavailable, assigned, assign_request_id, cors_stage, check_cors, health_stage,
  check_health, normalized, found_route, select_route, found_upstream, select_upstream,
  found_client_ip, identify_client, limit_request, check_user, check_body, with_identity_headers,
  request_context, prepare, limit_upstream, consult_policies, authorize_request, dispatch, admit,
}
use stellarmesh_sdk.Gateway.Pipeline.Aborts.{
  Aborts, by_generator, by_readiness, by_health, by_routes, by_upstreams, by_client_ip, by_limiter,
  by_extractor, by_authenticator, by_policy,
}

abbrev pub AnswersAnyHealth : Option HealthPolicy → Type 0
AnswersAnyHealth none = Unit
AnswersAnyHealth (some p) = AnswersHealth p

module _ (g : Gateway) (answers : AnswersAll g.error_responder) where
  refused :
      (A : Type 0) (code : Text) (e : Error)
      → AnswersStage (Aborts g) (unavailable g {A = A} code e)
  refused A code e = refuse_with-Answered (Aborts g) A g.error_responder _ answers

  assign_request_id-Answered : AnswersStage (Aborts g) (assign_request_id g)
  unfolding assign_request_id assigned
  assign_request_id-Answered x =
      after_call-Answered (Aborts g) (resolve_request_id g.request_id x.request).1 _ _
        (λ e. by_generator (resolve_request_id-panics g.request_id x.request abort_handler e))
        (λ id y. tt) (refused Text _) _

  cors_stage-Answered : (p : Option CorsPolicy) → AnswersStage (Aborts g) (cors_stage g p)
  unfolding cors_stage
  cors_stage-Answered none x = tt
  cors_stage-Answered (some p) x = handle_cors-Answered (Aborts g) g.error_responder p answers x

  health_stage-Answered :
      (p : Option HealthPolicy)
      → g.health ≡ p
      → AnswersAnyHealth p
      → AnswersStage (Aborts g) (health_stage g p)
  unfolding health_stage
  health_stage-Answered none e h x = tt
  health_stage-Answered (some p) e h x =
      handle_health-Answered (Aborts g) g.error_responder answers p h
        (λ check timeout found. by_readiness p check timeout e found)
        (λ r result. by_health p r result e) x

  normalized-Answered : (r : Result RouteError Route) → AnswersStage (Aborts g) (normalized g r)
  unfolding normalized
  normalized-Answered (err e) x = refused Route _ _ x
  normalized-Answered (ok route) x = tt

  found_route-Answered : (found : Option Route) → AnswersStage (Aborts g) (found_route g found)
  unfolding found_route
  found_route-Answered none = refuse_with-Answered (Aborts g) Route g.error_responder _ answers
  found_route-Answered (some raw) = normalized-Answered (normalize_resolved_route raw)

  select_route-Answered : AnswersStage (Aborts g) (select_route g)
  unfolding select_route
  select_route-Answered x =
      after_call-Answered (Aborts g) (g.routes x.request) _ _ (by_routes x.request)
        found_route-Answered (refused Route _) x

  found_upstream-Answered :
      (found : Option Handler) → AnswersStage (Aborts g) (found_upstream g found)
  unfolding found_upstream
  found_upstream-Answered none x = refused Handler _ _ x
  found_upstream-Answered (some h) x = tt

  select_upstream-Answered : (route : Route) → AnswersStage (Aborts g) (select_upstream g route)
  unfolding select_upstream
  select_upstream-Answered route =
      after_call-Answered (Aborts g) (g.upstreams route) _ _ (by_upstreams route)
        found_upstream-Answered (refused Handler _)

  found_client_ip-Answered : (ip : Text) → AnswersStage (Aborts g) (found_client_ip g ip)
  unfolding found_client_ip
  found_client_ip-Answered ip x = elim (Bool-cases (is_empty (trim_space ip))) [
    | inl blank ↦ rw (blank, found_client_ip) (refused Text _ _ x)
    | inr given ↦ rw (given, found_client_ip) tt
  ]

  identify_client-Answered : AnswersStage (Aborts g) (identify_client g)
  unfolding identify_client
  identify_client-Answered x =
      after_call-Answered (Aborts g) (g.client_ip_resolver x.request) _ _ (by_client_ip x.request)
        found_client_ip-Answered (refused Text _) x

  check_user-Answered :
      (route : Route) (i : Option Identity) → AnswersStage (Aborts g) (check_user g route i)
  unfolding check_user
  check_user-Answered route none x = tt
  check_user-Answered route (some i) x =
      apply_rate_limit-Answered (Aborts g) g.error_responder answers g.user_limiter
        (limit_request g user_id i.user_id route) (λ l e. by_limiter l _ (inr (inl e))) _

  check_body-Answered : (route : Route) → AnswersStage (Aborts g) (check_body g route)
  unfolding check_body
  check_body-Answered route x = ground (
    arith,
    refuse_with-Answered (Aborts g) (Unit {0}) g.error_responder
        (rejection 413 (ascii "request_body_too_large") (ascii "request body too large")) answers x,
  )

  prepare-Answered :
      (route : Route) (i : Option Identity) → AnswersStage (Aborts g) (prepare g route i)
  unfolding prepare
  prepare-Answered route i x = check_body-Answered route (with_identity_headers g i x)

  limit_upstream-Answered :
      (route : Route) (i : Option Identity) → AnswersStage (Aborts g) (limit_upstream g route i)
  unfolding limit_upstream
  limit_upstream-Answered route i x =
      and_then-Answered (Aborts g)
        (apply_rate_limit g.error_responder g.upstream_limiter
          (limit_request g upstream route.upstream route) x)
        (λ _. prepare g route i)
        (apply_rate_limit-Answered (Aborts g) g.error_responder answers g.upstream_limiter _
          (λ l e. by_limiter l _ (inr (inr e))) x)
        (λ _. prepare-Answered route i)

  consult_policies-Answered :
      (c : RequestContext) (route : Route) (i : Option Identity)
      → AnswersStage (Aborts g) (consult_policies g c route i)
  unfolding consult_policies
  consult_policies-Answered c route i x =
      and_then-Answered (Aborts g) (apply_authorizer g.error_responder g.authorizer c x)
        (λ _. apply_before_proxy g.error_responder g.before_proxy c >> limit_upstream g route i)
        (apply_authorizer-Answered (Aborts g) g.error_responder answers g.authorizer c
          (λ p r e. by_policy p r c (inl e)) x)
        λ _ y.
          and_then-Answered (Aborts g) (apply_before_proxy g.error_responder g.before_proxy c y)
            (λ _. limit_upstream g route i)
            (apply_before_proxy-Answered (Aborts g) g.error_responder answers g.before_proxy c
              (λ p r e. by_policy p r c (inr e)) y)
            (λ _. limit_upstream-Answered route i)

  -- The checks that follow authentication.
  established : Text → Text → Route → Option Identity → Stage (Unit {0})
  established id ip route i = do
    check_user g route i
    consult_policies g (request_context g id ip route i) route i

  established-Answered :
      (id ip : Text) (route : Route) (i : Option Identity)
      → AnswersStage (Aborts g) (established id ip route i)
  unfolding established
  established-Answered id ip route i x =
      and_then-Answered (Aborts g) (check_user g route i x)
        (λ _. consult_policies g (request_context g id ip route i) route i)
        (check_user-Answered route i x)
        (λ _. consult_policies-Answered (request_context g id ip route i) route i)

  authorize_request-Answered :
      (id ip : Text) (route : Route) → AnswersStage (Aborts g) (authorize_request g id ip route)
  unfolding authorize_request established
  authorize_request-Answered id ip route x =
      and_then-Answered (Aborts g)
        (apply_rate_limit g.error_responder g.client_ip_limiter (limit_request g client_ip ip route)
          x)
        (λ _. authenticate g.error_responder g.authenticator g.credential_extractor route >>= λ i.
          established id ip route i)
        (apply_rate_limit-Answered (Aborts g) g.error_responder answers g.client_ip_limiter _
          (λ l e. by_limiter l _ (inl e)) x)
        λ _ y.
          and_then-Answered (Aborts g)
            (authenticate g.error_responder g.authenticator g.credential_extractor route y)
            (λ i. established id ip route i)
            (authenticate-Answered (Aborts g) g.error_responder answers g.authenticator
              g.credential_extractor route by_authenticator by_extractor y)
            (λ i. established-Answered id ip route i)

  -- The stages of `dispatch` after the route, and after the upstream.
  from_client : Text → Route → Handler → Stage Handler
  from_client id route handler = do
    ip ← identify_client g
    authorize_request g id ip route
    pure handler

  from_client-Answered :
      (id : Text) (route : Route) (h : Handler) → AnswersStage (Aborts g) (from_client id route h)
  unfolding from_client
  from_client-Answered id route h x =
      and_then-Answered (Aborts g) (identify_client g x)
        (λ ip. authorize_request g id ip route >> pure h) (identify_client-Answered x)
        λ ip y.
          and_then-Answered (Aborts g) (authorize_request g id ip route y) (λ _. pure h)
            (authorize_request-Answered id ip route y) (λ _ z. tt)

  dispatch-Answered : (id : Text) → AnswersStage (Aborts g) (dispatch g id)
  unfolding dispatch from_client
  dispatch-Answered id x =
      and_then-Answered (Aborts g) (select_route g x)
        (λ route. select_upstream g route >>= λ h. from_client id route h) (select_route-Answered x)
        λ route y.
          and_then-Answered (Aborts g) (select_upstream g route y) (λ h. from_client id route h)
            (select_upstream-Answered route y) (λ h. from_client-Answered id route h)

  pub admit-Answered : AnswersAnyHealth g.health → AnswersStage (Aborts g) (admit g)
  unfolding admit check_cors check_health
  admit-Answered health x =
      and_then-Answered (Aborts g) (assign_request_id g x)
        (λ id. check_cors g >> (check_health g >> dispatch g id)) (assign_request_id-Answered x)
        λ id y.
          and_then-Answered (Aborts g) (check_cors g y) (λ _. check_health g >> dispatch g id)
            (cors_stage-Answered g.cors y)
            λ _ z.
              and_then-Answered (Aborts g) (check_health g z) (λ _. dispatch g id)
                (health_stage-Answered g.health refl health z) (λ _. dispatch-Answered id)
