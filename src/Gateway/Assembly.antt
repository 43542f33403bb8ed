-- ===== src/Gateway/Assembly.antt =====
-- sdk/go/gateway/gateway.go: `New`, and the fixed upstreams of sdk/go/gateway/proxy.go. The handler
-- that `newReverseProxy` makes is httputil's, and a parameter, as are `url.Parse`, the random
-- generator and the default logger.
pub mod Checked
use stellarmesh_sdk.Base.{
  ℕ, suc, Bool, true, false, not, ◌&&◌, ◌||◌, List, [], ◌∷◌, Option, none, some, if◌then◌else◌,
  Result, ok, err, ◌>>=◌, ◌>>◌, refuse,
}
use stellarmesh_sdk.Text.{Text, ascii, ◌==◌, trim_space}
use stellarmesh_sdk.Gateway.Types.{Route, Request, Error, Call, returns, fails, panics, failure}
use stellarmesh_sdk.Gateway.Respond.{ErrorResponder, default_error_responder}
use stellarmesh_sdk.Gateway.RequestId.{RequestIdConfig, normalize_request_id_config}
use stellarmesh_sdk.Gateway.Route.{
  RouteError, TableError, is_empty, compile_route, new_static_route_resolver, resolve_route,
  contains_protected_route,
}
use stellarmesh_sdk.Gateway.Cors.{
  ParseUrl, ParsedUrl, CorsConfig, CorsPolicy, CorsError, new_cors_policy,
}
use stellarmesh_sdk.Gateway.Health.{HealthConfig, HealthPolicy, new_health_policy}
use stellarmesh_sdk.Gateway.ClientIp.{Netip, resolve_remote_addr}
use stellarmesh_sdk.Gateway.Finish.{AccessLogger}
use stellarmesh_sdk.Gateway.Pipeline.{Gateway, Handler}
use stellarmesh_sdk.Gateway.Options.{
  Upstream, RouteResolver, UpstreamResolver, ClientIpResolver, RoundTripper, GatewayConfig,
  NewError, nil_option, routes_exclusive, route_resolver_required, upstreams_exclusive, table_error,
  request_id_invalid, upstream_name_required, upstream_duplicate, upstream_url_invalid,
  transport_without_upstreams, upstream_resolver_required, authenticator_required, cors_error,
  health_invalid, route_error, upstream_missing, address_call,
}

abbrev is_some {ℓ} : {A : Type ℓ} → Option A → Bool
is_some none = false
is_some (some a) = true

abbrev has_items {ℓ} : {A : Type ℓ} → List A → Bool
has_items [] = false
has_items (a ∷ rest) = true

abbrev or_else {ℓ} : {A : Type ℓ} → Option A → A → A
or_else none default = default
or_else (some a) default = a

-- The parameters of `newReverseProxy`: the target, the transport if one is configured, the error
-- responder and the header of the request ID.
abbrev pub ReverseProxy : Type 0
ReverseProxy = ParsedUrl → Option RoundTripper → ErrorResponder → Text → Handler

unfoldable pub find_proxy : List (Text × Handler) → Text → Option Handler
find_proxy [] name = none
find_proxy ((other, h) ∷ proxies) name = if other == name then some h else find_proxy proxies name

is_target : Option ParsedUrl → Option ParsedUrl
is_target none = none
is_target (some u) =
    if (u.scheme == ascii "http" || u.scheme == ascii "https") && not (is_empty u.host)
    then some u
    else none

table_resolver : Result TableError RouteResolver → Result NewError RouteResolver
table_resolver (ok resolver) = ok resolver
table_resolver (err e) = err (table_error e)

-- The route resolver, from the static routes if there are any.
unfoldable pub choose_routes : GatewayConfig → Result NewError RouteResolver
unfolding table_resolver
choose_routes c = do
  refuse (has_items c.static_routes && is_some c.route_resolver) routes_exclusive
  elim c.static_routes [
    | r ∷ rs ↦
        table_resolver
          (new_static_route_resolver (r ∷ rs) >>= λ t. ok (λ q. returns (resolve_route t q)))
    | [] ↦ elim c.route_resolver [
      | none ↦ err route_resolver_required
      | some resolver ↦ ok resolver
    ]
  ]

unfoldable pub normalized_id : Option RequestIdConfig → Result NewError RequestIdConfig
normalized_id none = err request_id_invalid
normalized_id (some c) = ok c

unfoldable pub choose_cors : ParseUrl → Option CorsConfig → Result NewError (Option CorsPolicy)
choose_cors parse none = ok none
choose_cors parse (some c) = elim (new_cors_policy parse c) [
  | ok p ↦ ok (some p)
  | err e ↦ err (cors_error e)
]

unfoldable pub choose_health : Option HealthConfig → Result NewError (Option HealthPolicy)
choose_health none = ok none
choose_health (some c) = elim (new_health_policy c) [
  | some p ↦ ok (some p)
  | none ↦ err health_invalid
]

-- `reverseProxyResolver.ResolveUpstream`.
unfoldable pub resolve_fixed_upstream : List (Text × Handler) → UpstreamResolver
resolve_fixed_upstream proxies route = elim (find_proxy proxies route.upstream) [
  | some h ↦ returns (some h)
  | none ↦ fails (failure (ascii "gateway upstream is not configured"))
]

resolved : Route → Call (Option Handler) → Result NewError (Unit {0})
resolved route (returns h) = ok tt
resolved route (fails e) = err (upstream_missing route.name)
resolved route (panics p) = err (upstream_missing route.name)

-- `validateStaticUpstreams`. A panic of the project's resolver, which would end the program, is an
-- error here.
unfoldable pub validate_static_upstreams :
    List Route → UpstreamResolver → Result NewError (Unit {0})
unfolding resolved
validate_static_upstreams [] resolver = ok tt
validate_static_upstreams (r ∷ rs) resolver =
    let rest = validate_static_upstreams rs resolver in
    elim (compile_route r) [
      | err e ↦ err (route_error e)
      | ok c ↦ resolved r (resolver c.route) >> rest
    ]

module _ (n : Netip) (parse : ParseUrl) (proxy : ReverseProxy) (generate : Call Text)
    (default_logger : AccessLogger) where
  -- The loop of `newReverseProxyResolver`, with the proxies so far.
  unfoldable pub compile_upstreams :
      GatewayConfig
      → ErrorResponder
      → Text
      → List Upstream
      → List (Text × Handler)
      → Result NewError (List (Text × Handler))
  unfolding is_target
  compile_upstreams c responder header [] proxies = ok proxies
  compile_upstreams c responder header (u ∷ us) proxies = do
    let name = trim_space u.name
    refuse (is_empty name) upstream_name_required
    refuse (is_some (find_proxy proxies name)) (upstream_duplicate name)
    elim (is_target (parse (trim_space u.url))) [
      | none ↦ err (upstream_url_invalid name)
      | some target ↦
          compile_upstreams c responder header us
            ((name, proxy target c.transport responder header) ∷ proxies)
    ]

  -- The upstream resolver, from the fixed upstreams if there are any.
  unfoldable pub choose_upstreams :
      GatewayConfig → ErrorResponder → Text → Result NewError UpstreamResolver
  choose_upstreams c responder header = elim c.upstream_specs [
    | u ∷ us ↦ compile_upstreams c responder header (u ∷ us) [] >>= λ proxies.
        ok (resolve_fixed_upstream proxies)
    | [] ↦ elim c.transport [
      | some t ↦ err transport_without_upstreams
      | none ↦ elim c.upstream_resolver [ none ↦ err upstream_resolver_required | some r ↦ ok r ]
    ]
  ]

  choose_logger : GatewayConfig → Option AccessLogger
  choose_logger c =
      if not (is_some c.access_logger) && not c.access_log_disabled
      then some default_logger
      else c.access_logger

  assembled :
      GatewayConfig
      → RouteResolver
      → UpstreamResolver
      → RequestIdConfig
      → Option CorsPolicy
      → Option HealthPolicy
      → Gateway
  unfolding choose_logger
  assembled c routes upstreams request_id cors health = record {
    routes = routes;
    upstreams = upstreams;
    authenticator = c.authenticator;
    credential_extractor = c.credential_extractor;
    authorizer = c.authorizer;
    before_proxy = c.before_proxy;
    client_ip_resolver = or_else c.client_ip_resolver (λ r. address_call (resolve_remote_addr n r));
    client_ip_limiter = c.client_ip_limiter;
    user_limiter = c.user_limiter;
    upstream_limiter = c.upstream_limiter;
    error_responder = or_else c.error_responder default_error_responder;
    request_id = request_id;
    cors = cors;
    access_logger = choose_logger c;
    observer = c.observer;
    health = health;
  }

  -- The checks of `New` from the authenticator on.
  finish_gateway :
      GatewayConfig → RouteResolver → UpstreamResolver → RequestIdConfig → Result NewError Gateway
  unfolding assembled
  finish_gateway c routes upstreams request_id = do
    refuse (not (is_some c.authenticator) && contains_protected_route c.static_routes)
        authenticator_required
    cors ← choose_cors parse c.cors
    health ← choose_health c.health
    validate_static_upstreams c.static_routes upstreams
    ok (assembled c routes upstreams request_id cors health)

  -- `New`, once the options are applied. The responder of the gateway is the configured one, which
  -- `respond` wraps as `protocolErrorResponder` does.
  unfoldable pub new_gateway : GatewayConfig → Result NewError Gateway
  unfolding finish_gateway
  new_gateway c = do
    routes ← choose_routes c
    refuse (has_items c.upstream_specs && is_some c.upstream_resolver) upstreams_exclusive
    request_id ← normalized_id (normalize_request_id_config generate c.request_id)
    upstreams ←
        choose_upstreams c (or_else c.error_responder default_error_responder) request_id.header
    finish_gateway c routes upstreams request_id
