-- ===== src/Gateway/Assembly/Checked.antt =====
-- What start-up guarantees of a gateway.
use stellarmesh_sdk.Base.{
  subst, sym, ◌∙◌, ◌≡◌, ◌≢◌, refl, Bool, true, false, not, ◌&&◌, List, [], ◌∷◌, Option, none, some,
  Result, ok, err, ◌>>◌, refuse, >>=-eq-ok, All, arith,
}
use stellarmesh_sdk.Text.{Text}
use stellarmesh_sdk.Gateway.Types.{access_protected, Route, Call, returns, fails, panics}
use stellarmesh_sdk.Gateway.Respond.{default_error_responder}
use stellarmesh_sdk.Gateway.RequestId.{RequestIdConfig, normalize_request_id_config}
use stellarmesh_sdk.Gateway.Route.{
  RouteError, CompiledRoute, compile_route, contains_protected_route,
}
use stellarmesh_sdk.Gateway.Cors.{ParseUrl, CorsPolicy}
use stellarmesh_sdk.Gateway.Health.{HealthPolicy}
use stellarmesh_sdk.Gateway.ClientIp.{Netip}
use stellarmesh_sdk.Gateway.Authenticate.{Authenticator}
use stellarmesh_sdk.Gateway.Finish.{AccessLogger}
use stellarmesh_sdk.Gateway.Pipeline.{Gateway, Handler}
use stellarmesh_sdk.Gateway.Options.{
  RouteResolver, UpstreamResolver, GatewayConfig, NewError, route_error, authenticator_required,
  upstreams_exclusive,
}
use stellarmesh_sdk.Gateway.Assembly.{
  is_some, has_items, or_else, ReverseProxy, choose_routes, normalized_id, choose_cors,
  choose_health, resolved, validate_static_upstreams, choose_upstreams, assembled, finish_gateway,
  new_gateway,
}

-- The route compiles, and its upstream is known.
abbrev pub Served : UpstreamResolver → Route → Type 0
Served upstreams r =
    (c : CompiledRoute) × (h : Option Handler) × (compile_route r ≡ ok c)
    × (upstreams c.route ≡ returns h)

resolved-eq-ok :
    (r : Route) (m : Call (Option Handler))
    → resolved r m ≡ ok tt
    → (h : Option Handler) × (m ≡ returns h)
unfolding resolved
resolved-eq-ok r (returns h) e = (h, refl)
resolved-eq-ok r (fails x) e = cc
resolved-eq-ok r (panics p) e = cc

module _ (upstreams : UpstreamResolver) (r : Route) (rs : List Route) where
  -- What `validate_static_upstreams` does with a compiled route.
  validated : Result RouteError CompiledRoute → Result NewError (Unit {0})
  validated (err e) = err (route_error e)
  validated (ok c) = resolved r (upstreams c.route) >> validate_static_upstreams rs upstreams

  validated-Served :
      (m : Result RouteError CompiledRoute)
      → compile_route r ≡ m
      → validated m ≡ ok tt
      → (validate_static_upstreams rs upstreams ≡ ok tt → All (Served upstreams) rs)
      → All (Served upstreams) (r ∷ rs)
  unfolding validated
  validated-Served (err x) compiled e next = cc
  validated-Served (ok c) compiled e next =
      let (_, known, rest) = >>=-eq-ok _ _ e in
      let (h, found) = resolved-eq-ok r (upstreams c.route) known in
      ((c, h, compiled, found), next rest)

  validated-eq :
      (m : Result RouteError CompiledRoute)
      → elim m [
        | err e ↦ err (route_error e)
        | ok c ↦ resolved r (upstreams c.route) >> validate_static_upstreams rs upstreams
      ]
        ≡ validated m
  unfolding validated
  validated-eq (err e) = refl
  validated-eq (ok c) = refl

validate-Served :
    (rs : List Route) (upstreams : UpstreamResolver)
    → validate_static_upstreams rs upstreams ≡ ok tt
    → All (Served upstreams) rs
unfolding validate_static_upstreams
validate-Served [] upstreams e = tt
validate-Served (r ∷ rs) upstreams e =
    validated-Served upstreams r rs (compile_route r) refl
      (sym (validated-eq upstreams r rs (compile_route r)) ∙ e) (validate-Served rs upstreams)

-- Every protected static route has an authenticator, and every static route an upstream.
pub record IsChecked (c : GatewayConfig) (g : Gateway) : Type 0 where
  pub protected : g.authenticator ≡ none → All (λ r. r.access ≢ access_protected) c.static_routes
  pub served : All (Served g.upstreams) c.static_routes
  pub authenticator : g.authenticator ≡ c.authenticator

refuse-eq-ok : (b : Bool) (e : NewError) → refuse b e ≡ ok tt → b ≡ false
refuse-eq-ok true e h = cc
refuse-eq-ok false e h = refl

missing : {a : Option Authenticator} → a ≡ none → is_some a ≡ false
missing {a = none} e = refl
missing {a = some a} e = cc

unprotected :
    (rs : List Route)
    → contains_protected_route rs ≡ false
    → All (λ r. r.access ≢ access_protected) rs
unfolding contains_protected_route
unprotected [] h = tt
unprotected (r ∷ rs) h = ((λ e. ground arith), unprotected rs (ground arith))

module _ (n : Netip) (parse : ParseUrl) (proxy : ReverseProxy) (generate : Call Text)
    (logger : AccessLogger) (c : GatewayConfig) (g : Gateway) where
  finish_gateway-IsChecked :
      (routes : RouteResolver) (upstreams : UpstreamResolver) (request_id : RequestIdConfig)
      → finish_gateway n parse proxy generate logger c routes upstreams request_id ≡ ok g
      → IsChecked c g
  unfolding finish_gateway assembled
  finish_gateway-IsChecked routes upstreams request_id e =
      let build : Option CorsPolicy → Option HealthPolicy → Gateway = λ cors health.
        assembled n parse proxy generate logger c routes upstreams request_id cors health in
      let (_, allowed, e1) =
        >>=-eq-ok
          (refuse (not (is_some c.authenticator) && contains_protected_route c.static_routes)
            authenticator_required)
          _ e in
      let (cors, _, e2) = >>=-eq-ok (choose_cors parse c.cors) _ e1 in
      let (health, _, e3) = >>=-eq-ok (choose_health c.health) _ e2 in
      let (_, known, e4) = >>=-eq-ok (validate_static_upstreams c.static_routes upstreams) _ e3 in
      let same : build cors health ≡ g = cc in
      let checked : not (is_some c.authenticator) && contains_protected_route c.static_routes
          ≡ false =
        refuse-eq-ok _ authenticator_required allowed in
      subst (IsChecked c) same (record {
        protected = λ e. unprotected c.static_routes (ground (arith, missing e));
        served = validate-Served c.static_routes upstreams known;
        authenticator = refl;
      })

-- A gateway that New makes has the configured authenticator; if it has none, no static route has
-- protected access; and every static route compiles and its upstream is resolved without an error.
pub new_gateway-IsChecked :
    (n : Netip) (parse : ParseUrl) (proxy : ReverseProxy) (generate : Call Text)
    (logger : AccessLogger) (c : GatewayConfig) (g : Gateway)
    → new_gateway n parse proxy generate logger c ≡ ok g
    → IsChecked c g
unfolding new_gateway
new_gateway-IsChecked n parse proxy generate logger c g e =
    let responder = or_else c.error_responder default_error_responder in
    let finish = finish_gateway n parse proxy generate logger c in
    let (routes, _, e1) = >>=-eq-ok (choose_routes c) _ e in
    let (_, _, e2) =
      >>=-eq-ok
        (refuse (has_items c.upstream_specs && is_some c.upstream_resolver) upstreams_exclusive) _
        e1 in
    let (request_id, _, e3) =
      >>=-eq-ok (normalized_id (normalize_request_id_config generate c.request_id)) _ e2 in
    let (upstreams, _, e4) =
      >>=-eq-ok (choose_upstreams n parse proxy generate logger c responder request_id.header) _
        e3 in
    finish_gateway-IsChecked n parse proxy generate logger c g routes upstreams request_id e4
