-- ===== src/Gateway/Pipeline/Admitted.antt =====
-- What the pipeline as a whole has established when the upstream is called.
use stellarmesh_sdk.Base.{◌≡◌, ◌≢◌, ◌⊎◌, ap, ◌∙◌, Option, none, some, ok, []}
use stellarmesh_sdk.Text.{Text, trim_space}
use stellarmesh_sdk.Gateway.Types.{
  access_public, Route, Identity, Request, client_ip, upstream, returns,
}
use stellarmesh_sdk.Gateway.AccessLog.{Exchange}
use stellarmesh_sdk.Gateway.RequestId.{resolve_request_id}
use stellarmesh_sdk.Gateway.Route.{normalize_resolved_route}
use stellarmesh_sdk.Gateway.Flow.{next, and_then-eq-next}
use stellarmesh_sdk.Gateway.RateLimit.{Admits}
use stellarmesh_sdk.Gateway.Policy.{Permits}
use stellarmesh_sdk.Gateway.Authenticate.{Vouches}
use stellarmesh_sdk.Gateway.Pipeline.{
  Gateway, Handler, assign_request_id, check_cors, check_health, select_route, select_upstream,
  identify_client, limit_request, request_context, authorize_request, dispatch, admit,
}
use stellarmesh_sdk.Gateway.Pipeline.Admission.{
  identified, routed, located, known, Fits, bounded, PassesCors, AdmitsUser,
  assign_request_id-eq-next, check_cors-eq-next, check_health-eq-next, select_route-eq-next,
  select_upstream-eq-next, identify_client-eq-next,
}
use stellarmesh_sdk.Gateway.Pipeline.Authorized.{stamped, authorize_request-eq-next}

-- What holds of an admitted request `r`, which the handler is given as `out`.
pub record Admitted (g : Gateway) (r : Request) (h : Handler) (out : Request) : Type 0 where
  pub id : Text
  pub raw : Route
  pub route : Route
  pub ip : Text
  pub identity : Option Identity
  pub named : (resolve_request_id g.request_id r).1 ≡ returns id
  pub cors : PassesCors g.cors (identified g id r)
  pub found : g.routes (identified g id r) ≡ returns (some raw)
  pub normal : normalize_resolved_route raw ≡ ok route
  pub served_by : g.upstreams route ≡ returns (some h)
  pub from : g.client_ip_resolver (routed route (identified g id r)) ≡ returns ip
  pub from_present : trim_space ip ≢ []
  pub client_admits : Admits g.client_ip_limiter (limit_request g client_ip ip route)
  pub vouched :
      ((route.access ≡ access_public) × (identity ≡ none))
      ⊎ Vouches g.authenticator g.credential_extractor
          (located ip (routed route (identified g id r)))
          identity
  pub user_admits : AdmitsUser g route identity
  pub authorized :
      Permits g.authorizer
        (known identity (located ip (routed route (identified g id r))))
        (request_context g id ip route identity)
  pub permitted :
      Permits g.before_proxy
        (known identity (located ip (routed route (identified g id r))))
        (request_context g id ip route identity)
  pub upstream_admits : Admits g.upstream_limiter (limit_request g upstream route.upstream route)
  pub fits : Fits route r
  pub forwarded :
      out
      ≡ bounded route
          (stamped identity (known identity (located ip (routed route (identified g id r)))))

known-Fits :
    (route : Route) (i : Option Identity) (r : Request) → Fits route (known i r) → Fits route r
known-Fits route none r f = f
known-Fits route (some i) r f = f

module _ (g : Gateway) (x y : Exchange) (h : Handler) where
  dispatch-eq-next :
      (id : Text)
      → dispatch g id x ≡ next h y
      → (raw : Route) × (route : Route) × (ip : Text) × (z : Exchange) × (g.routes x.request
          ≡ returns (some raw))
        × (normalize_resolved_route raw ≡ ok route)
        × (g.upstreams route ≡ returns (some h))
        × (g.client_ip_resolver (routed route x.request) ≡ returns ip)
        × (trim_space ip ≢ [])
        × (z.request ≡ located ip (routed route x.request))
        × (authorize_request g id ip route z ≡ next tt y)
  unfolding dispatch
  dispatch-eq-next id e =
      let (route, z, m, e') = and_then-eq-next (select_route g x) _ e in
      let (raw, found, normal, request) = select_route-eq-next g x z route m in
      let (handler, z', m', e'') = and_then-eq-next (select_upstream g route z) _ e' in
      let (served, same) = select_upstream-eq-next g z z' route handler m' in
      let (ip, w, m'', e3) = and_then-eq-next (identify_client g z') _ e'' in
      let (from, present, request') = identify_client-eq-next g z' w ip m'' in
      let (_, w', m3, last) = and_then-eq-next (authorize_request g id ip route w) _ e3 in
      let handler-eq : handler ≡ h = cc in
      let end : w' ≡ y = cc in
      let here : z'.request ≡ routed route x.request =
        ap (λ (v : Exchange). v.request) same ∙ request in
      (
        raw,
        route,
        ip,
        w,
        found,
        normal,
        rw handler-eq at served,
        rw here at from,
        present,
        request' ∙ ap (located ip) here,
        rw end at m3,
      )

-- The stages before the dispatch.
admit-eq-next :
    (g : Gateway) (x y : Exchange) (h : Handler)
    → admit g x ≡ next h y
    → (id : Text) × (z : Exchange) × ((resolve_request_id g.request_id x.request).1 ≡ returns id)
      × PassesCors g.cors (identified g id x.request)
      × (z.request ≡ identified g id x.request)
      × (dispatch g id z ≡ next h y)
unfolding admit
admit-eq-next g x y h e =
    let (id, x1, m1, e1) = and_then-eq-next (assign_request_id g x) _ e in
    let (named, request) = assign_request_id-eq-next g x x1 id m1 in
    let (_, x2, m2, e2) = and_then-eq-next (check_cors g x1) _ e1 in
    let (cors, kept) = check_cors-eq-next g x1 x2 m2 in
    let (_, z, m3, last) = and_then-eq-next (check_health g x2) _ e2 in
    let same = check_health-eq-next g x2 z m3 in
    (
      id,
      z,
      named,
      rw request at cors,
      ap (λ (v : Exchange). v.request) same ∙ (kept ∙ request),
      last,
    )

-- The pipeline reaches the upstream only if every configured component let the request pass, in
-- the form of a record: the request ID is the resolved one, the cross-origin policy accepts the
-- request, the route is the resolver's, normalised, and the handler is the one of its upstream,
-- the client address is not blank, each of the three limiters admits its key, a protected route
-- has an identity that the authenticator gave for the request's credential, both policies permit
-- the request, and the declared body fits the route's bound; the forwarded request is the incoming
-- one with exactly the gateway's changes.
pub admit-Admitted :
    (g : Gateway) (x y : Exchange) (h : Handler)
    → admit g x ≡ next h y
    → Admitted g x.request h y.request
admit-Admitted g x y h e =
    let (id, w, named, cors, q, e3) = admit-eq-next g x y h e in
    let (raw, route, ip, z, found, normal, served, from, present, at_z, e4) =
      dispatch-eq-next g w y h id e3 in
    let (i, client, vouched, user, authorized, permitted, last, fits, out) =
      authorize_request-eq-next g z y id ip route e4 in
    let qz : z.request ≡ located ip (routed route (identified g id x.request)) =
      at_z ∙ ap (λ r. located ip (routed route r)) q in
    record {
      id = id;
      raw = raw;
      route = route;
      ip = ip;
      identity = i;
      named = named;
      cors = cors;
      found = rw q at found;
      normal = normal;
      served_by = served;
      from = rw q at from;
      from_present = present;
      client_admits = client;
      vouched = rw qz at vouched;
      user_admits = user;
      authorized = rw qz at authorized;
      permitted = rw qz at permitted;
      upstream_admits = last;
      fits = known-Fits route i _ (rw qz at fits);
      forwarded = rw qz at out;
    }
