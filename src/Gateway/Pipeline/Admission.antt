-- ===== src/Gateway/Pipeline/Admission.antt =====
-- What each stage of the pipeline has established when it lets a request go on.
use stellarmesh_sdk.Base.{
  true, is_positive, ltℤ, ◌&&◌, if◌then◌else◌, ◌≡◌, ◌≢◌, refl, true, false, [], Option, none, some,
  ok, err, Result, arith, is_positive, ltℤ,
}
use stellarmesh_sdk.Text.{Text, ascii, trim_space}
use stellarmesh_sdk.Gateway.Header.{set, del}
use stellarmesh_sdk.Gateway.Types.{user_id, Route, Identity, Request, returns}
use stellarmesh_sdk.Gateway.AccessLog.{Exchange}
use stellarmesh_sdk.Gateway.RequestId.{resolve_request_id}
use stellarmesh_sdk.Gateway.Route.{RouteError, normalize_resolved_route}
use stellarmesh_sdk.Gateway.Flow.{next, refuse_with, after_call-eq-next}
use stellarmesh_sdk.Gateway.RateLimit.{Admits}
use stellarmesh_sdk.Gateway.RateLimit.Admission.{apply_rate_limit-eq-next}
use stellarmesh_sdk.Gateway.Cors.Admission.{CorsPasses, handle_cors-eq-next}
use stellarmesh_sdk.Gateway.Health.{HealthPolicy}
use stellarmesh_sdk.Gateway.Health.Admission.{handle_health-eq-next}
use stellarmesh_sdk.Gateway.Cors.{CorsPolicy}
use stellarmesh_sdk.Gateway.Pipeline.{
  Gateway, Handler, assign_request_id, assigned, cors_stage, check_cors, health_stage, check_health,
  normalized, found_route, select_route, found_upstream, select_upstream, found_client_ip,
  identify_client, unavailable, limit_request, check_user, check_body,
}

-- The request as the stages change it.
abbrev pub identified : Gateway → Text → Request → Request
identified g id r = record r {
  header = set (del r.header g.request_id.header) g.request_id.header id;
  context = record (r.context) { request_id = some id };
}

abbrev pub routed : Route → Request → Request
routed route r = record r { context = record (r.context) { route = some route } }

abbrev pub located : Text → Request → Request
located ip r = record r { context = record (r.context) { client_ip = some ip } }

abbrev pub known : Option Identity → Request → Request
known none r = r
known (some i) r = record r { context = record (r.context) { identity = some i } }

-- A declared length does not exceed the route's bound.
abbrev pub Fits : Route → Request → Type 0
Fits route r =
    is_positive route.max_body_bytes ≡ true
    → r.has_body ≡ true
    → ltℤ route.max_body_bytes r.content_length ≡ false

-- The request with its body bounded, where the route bounds it.
abbrev pub bounded : Route → Request → Request
bounded route r =
    if is_positive route.max_body_bytes && r.has_body
    then record r { body_limit = some route.max_body_bytes }
    else r

-- The cross-origin check let the request pass, if it is configured.
abbrev pub PassesCors : Option CorsPolicy → Request → Type 0
PassesCors none r = Unit
PassesCors (some p) r = CorsPasses p r

-- The user's limiter admits a request with an identity.
abbrev pub AdmitsUser : Gateway → Route → Option Identity → Type 0
AdmitsUser g route none = Unit
AdmitsUser g route (some i) = Admits g.user_limiter (limit_request g user_id i.user_id route)

module _ (g : Gateway) (x y : Exchange) where
  pub assign_request_id-eq-next :
      (id : Text)
      → assign_request_id g x ≡ next id y
      → ((resolve_request_id g.request_id x.request).1 ≡ returns id)
        × (y.request ≡ identified g id x.request)
  unfolding assign_request_id assigned resolve_request_id refuse_with
  assign_request_id-eq-next id e =
      let (v, r, e') =
        after_call-eq-next (resolve_request_id g.request_id x.request).1 (assigned g)
          (λ err. unavailable g (ascii "request_id_unavailable") err) (λ err h. cc h) e in
      (ground arith, ground arith)

  pub check_cors-eq-next :
      check_cors g x ≡ next tt y → PassesCors g.cors x.request × (y.request ≡ x.request)
  unfolding check_cors
  check_cors-eq-next = go g.cors
    where
      go :
          (p : Option CorsPolicy)
          → cors_stage g p x ≡ next tt y
          → PassesCors p x.request × (y.request ≡ x.request)
      go none e = ground arith
      go (some p) e =
          let (passes, same, _) = handle_cors-eq-next g.error_responder p x y e in (passes, same)

  pub check_health-eq-next : check_health g x ≡ next tt y → y ≡ x
  unfolding check_health
  check_health-eq-next = go g.health
    where
      go : (p : Option HealthPolicy) → health_stage g p x ≡ next tt y → y ≡ x
      go none e = ground arith
      go (some p) e = (handle_health-eq-next g.error_responder p x y e).2

  normalized-eq-next :
      (r : Result RouteError Route) (route : Route)
      → normalized g r x ≡ next route y
      → (r ≡ ok route) × (y.request ≡ routed route x.request)
  unfolding normalized refuse_with
  normalized-eq-next (err e) route h = cc
  normalized-eq-next (ok r) route h = ground arith

  found_route-eq-next :
      (found : Option Route) (route : Route)
      → found_route g found x ≡ next route y
      → (raw : Route) × (found ≡ some raw)
        × (normalize_resolved_route raw ≡ ok route)
        × (y.request ≡ routed route x.request)
  unfolding found_route refuse_with
  found_route-eq-next none route h = cc
  found_route-eq-next (some raw) route h =
      let (normal, request) = normalized-eq-next (normalize_resolved_route raw) route h in
      (raw, refl, normal, request)

  pub select_route-eq-next :
      (route : Route)
      → select_route g x ≡ next route y
      → (raw : Route) × (g.routes x.request ≡ returns (some raw))
        × (normalize_resolved_route raw ≡ ok route)
        × (y.request ≡ routed route x.request)
  unfolding select_route refuse_with
  select_route-eq-next route e =
      let (found, c, e') =
        after_call-eq-next (g.routes x.request) (found_route g)
          (λ err. unavailable g (ascii "route_resolution_failed") err) (λ err h. cc h) e in
      let (raw, same, normal, request) = found_route-eq-next found route e' in
      (raw, cc, normal, request)

  pub select_upstream-eq-next :
      (route : Route) (h : Handler)
      → select_upstream g route x ≡ next h y
      → (g.upstreams route ≡ returns (some h)) × (y ≡ x)
  unfolding select_upstream refuse_with
  select_upstream-eq-next route h e =
      let (found, c, e') =
        after_call-eq-next (g.upstreams route) (found_upstream g)
          (λ err. unavailable g (ascii "upstream_resolution_failed") err) (λ err h. cc h) e in
      let (same, kept) = go found e' in (cc, kept)
    where
      go :
          (found : Option Handler)
          → found_upstream g found x ≡ next h y
          → (found ≡ some h) × (y ≡ x)
      go none e = cc
      go (some h') e = (cc, cc)

  found_client_ip-eq-next :
      (found ip : Text)
      → found_client_ip g found x ≡ next ip y
      → (found ≡ ip) × (trim_space ip ≢ []) × (y.request ≡ located ip x.request)
  unfolding found_client_ip refuse_with
  found_client_ip-eq-next found ip e = ground arith

  pub identify_client-eq-next :
      (ip : Text)
      → identify_client g x ≡ next ip y
      → (g.client_ip_resolver x.request ≡ returns ip)
        × (trim_space ip ≢ [])
        × (y.request ≡ located ip x.request)
  unfolding identify_client refuse_with
  identify_client-eq-next ip e =
      let (found, c, e') =
        after_call-eq-next (g.client_ip_resolver x.request) (found_client_ip g)
          (λ err. unavailable g (ascii "client_ip_resolution_failed") err) (λ err h. cc h) e in
      let (same, present, request) = found_client_ip-eq-next found ip e' in (cc, present, request)

  pub check_user-eq-next :
      (route : Route) (i : Option Identity)
      → check_user g route i x ≡ next tt y
      → AdmitsUser g route i × (y.request ≡ known i x.request)
  unfolding check_user
  check_user-eq-next route none e = ground arith
  check_user-eq-next route (some i) e =
      let (admits, kept) =
        apply_rate_limit-eq-next g.error_responder g.user_limiter
          (limit_request g user_id i.user_id route) _ y e in
      (admits, kept.0)

  pub check_body-eq-next :
      (route : Route)
      → check_body g route x ≡ next tt y
      → Fits route x.request × (y.request ≡ bounded route x.request)
  unfolding check_body refuse_with
  check_body-eq-next route e = (λ limited body. ground arith, ground arith)
