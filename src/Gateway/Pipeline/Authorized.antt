-- ===== src/Gateway/Pipeline/Authorized.antt =====
-- What the stages from the limit of the client to the check of the body have established.
use stellarmesh_sdk.Base.{◌≡◌, ◌⊎◌, ap, sym, ◌∙◌, Option, none}
use stellarmesh_sdk.Text.{Text}
use stellarmesh_sdk.Gateway.Types.{
  access_public, Route, Identity, Request, RequestContext, client_ip, upstream,
}
use stellarmesh_sdk.Gateway.AccessLog.{Exchange}
use stellarmesh_sdk.Gateway.Flow.{next, and_then-eq-next}
use stellarmesh_sdk.Gateway.RateLimit.{Admits}
use stellarmesh_sdk.Gateway.RateLimit.Admission.{apply_rate_limit-eq-next}
use stellarmesh_sdk.Gateway.Policy.{Permits}
use stellarmesh_sdk.Gateway.Policy.Admission.{apply_authorizer-eq-next, apply_before_proxy-eq-next}
use stellarmesh_sdk.Gateway.Authenticate.{Vouches, strip_and_inject_identity}
use stellarmesh_sdk.Gateway.Authenticate.Admission.{authenticate-eq-next}
use stellarmesh_sdk.Gateway.Pipeline.{
  Gateway, limit_request, request_context, check_user, with_identity_headers, prepare,
  limit_upstream, consult_policies, authorize_request,
}
use stellarmesh_sdk.Gateway.Pipeline.Admission.{
  known, Fits, bounded, AdmitsUser, check_user-eq-next, check_body-eq-next,
}

-- The request whose identity headers are the gateway's own.
abbrev pub stamped : Option Identity → Request → Request
stamped i r = record r { header = strip_and_inject_identity r.header i }

module _ (g : Gateway) (x y : Exchange) where
  prepare-eq-next :
      (route : Route) (i : Option Identity)
      → prepare g route i x ≡ next tt y
      → Fits route x.request × (y.request ≡ bounded route (stamped i x.request))
  unfolding prepare
  prepare-eq-next route i e = check_body-eq-next g (with_identity_headers g i x) y route e

module _ (g : Gateway) (x y : Exchange) where
  limit_upstream-eq-next :
      (route : Route) (i : Option Identity)
      → limit_upstream g route i x ≡ next tt y
      → Admits g.upstream_limiter (limit_request g upstream route.upstream route)
        × Fits route x.request
        × (y.request ≡ bounded route (stamped i x.request))
  unfolding limit_upstream
  limit_upstream-eq-next route i e =
      let (_, z, m, e') = and_then-eq-next _ _ e in
      let (admits, kept) = apply_rate_limit-eq-next _ _ _ x z m in
      let (fits, request) = prepare-eq-next g z y route i e' in
      (admits, rw kept.0 at fits, rw kept.0 at request)

module _ (g : Gateway) (x y : Exchange) where
  consult_policies-eq-next :
      (c : RequestContext) (route : Route) (i : Option Identity)
      → consult_policies g c route i x ≡ next tt y
      → Permits g.authorizer x.request c
        × Permits g.before_proxy x.request c
        × Admits g.upstream_limiter (limit_request g upstream route.upstream route)
        × Fits route x.request
        × (y.request ≡ bounded route (stamped i x.request))
  unfolding consult_policies
  consult_policies-eq-next c route i e =
      let (_, z, m, e') = and_then-eq-next _ _ e in
      let (authorized, same) = apply_authorizer-eq-next _ _ c x z m in
      let (_, z', m', e'') = and_then-eq-next _ _ e' in
      let (permitted, same') = apply_before_proxy-eq-next _ _ c z z' m' in
      let (admits, fits, request) = limit_upstream-eq-next g z' y route i e'' in
      let back : z' ≡ x = sym (same ∙ same') in
      (authorized, rw (← same) at permitted, admits, rw back at fits, rw back at request)

module _ (g : Gateway) (x y : Exchange) where
  pub authorize_request-eq-next :
      (id ip : Text) (route : Route)
      → authorize_request g id ip route x ≡ next tt y
      → (i : Option Identity) × Admits g.client_ip_limiter (limit_request g client_ip ip route)
        × (((route.access ≡ access_public) × (i ≡ none))
            ⊎ Vouches g.authenticator g.credential_extractor x.request i)
        × AdmitsUser g route i
        × Permits g.authorizer (known i x.request) (request_context g id ip route i)
        × Permits g.before_proxy (known i x.request) (request_context g id ip route i)
        × Admits g.upstream_limiter (limit_request g upstream route.upstream route)
        × Fits route (known i x.request)
        × (y.request ≡ bounded route (stamped i (known i x.request)))
  unfolding authorize_request
  authorize_request-eq-next id ip route e =
      let (_, z, m, e') = and_then-eq-next _ _ e in
      let (client, kept) = apply_rate_limit-eq-next _ _ _ x z m in
      let (i, z', m', e'') = and_then-eq-next _ _ e' in
      let (vouched, kept') = authenticate-eq-next _ z z' i _ _ route m' in
      let (_, w, m'', e3) = and_then-eq-next (check_user g route i z') _ e'' in
      let (user, request) = check_user-eq-next g z' w route i m'' in
      let (authorized, permitted, last, fits, out) =
        consult_policies-eq-next g w y (request_context g id ip route i) route i e3 in
      let now : w.request ≡ known i x.request = request ∙ ap (known i) (kept'.0 ∙ kept.0) in
      (
        i,
        client,
        rw kept.0 at vouched,
        user,
        rw now at authorized,
        rw now at permitted,
        last,
        rw now at fits,
        rw now at out,
      )
