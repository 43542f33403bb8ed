-- ===== src/Gateway/Authenticate.antt =====
-- sdk/go/gateway/authentication.go: who makes a request, and the headers that tell the upstream.
pub mod Admission
pub mod Headers
pub mod Answered
use stellarmesh_sdk.Base.{
  true, not, ◌||◌, List, [], ◌∷◌, Option, none, some, eqb, if◌then◌else◌, ◌≡◌, ◌≢◌,
}
use stellarmesh_sdk.Text.{Text, ascii, trim_space, join}
use stellarmesh_sdk.Gateway.Header.{Header, set, del}
use stellarmesh_sdk.Gateway.Types.{
  access_public, Route, Identity, AuthenticationDecision, Error, invalid_credential, failure,
  Request, Call, returns,
}
use stellarmesh_sdk.Gateway.AccessLog.{set_auth_result}
use stellarmesh_sdk.Gateway.Respond.{ErrorResponder, unavailable_error, rejection}
use stellarmesh_sdk.Gateway.Route.{is_empty}
use stellarmesh_sdk.Gateway.Flow.{Stage, ◌>>◌, pure, modify, refuse_with, after_call}

abbrev pub Authenticator : Type 0
Authenticator = Text → Call AuthenticationDecision

abbrev pub CredentialExtractor : Type 0
CredentialExtractor = Request → Call Text

abbrev pub result : Text → Option Identity → Stage (Unit {0})
result text identity = modify (λ x. set_auth_result x text identity)

-- A 401 answer; its code is the logged result, too.
deny : ErrorResponder → Text → Stage (Option Identity)
deny responder code = do
  result code none
  refuse_with responder (rejection 401 code (ascii "unauthorized"))

-- A 503 answer.
unavailable : ErrorResponder → Text → Error → Stage (Option Identity)
unavailable responder code e = do
  result (ascii "error") none
  refuse_with responder (unavailable_error code e)

extraction_error : ErrorResponder → Error → Stage (Option Identity)
unfolding deny unavailable
extraction_error responder invalid_credential = deny responder (ascii "invalid_credential")
extraction_error responder (failure m) =
    unavailable responder (ascii "credential_extraction_failed") (failure m)

identity_decision : ErrorResponder → AuthenticationDecision → Stage (Option Identity)
unfolding deny
identity_decision responder d =
    if not d.authenticated || is_empty (trim_space d.identity.user_id)
    then deny responder (ascii "invalid_credential")
    else (do result (ascii "success") (some d.identity); pure (some d.identity))

on_credential : ErrorResponder → Authenticator → Text → Stage (Option Identity)
unfolding deny unavailable identity_decision
on_credential responder authenticator [] = deny responder (ascii "missing_credential")
on_credential responder authenticator (c ∷ s) =
    after_call (authenticator (c ∷ s)) (identity_decision responder)
      (unavailable responder (ascii "authentication_failed"))

protected : ErrorResponder → Option Authenticator → CredentialExtractor → Stage (Option Identity)
unfolding on_credential extraction_error unavailable
protected responder none extractor x =
    unavailable responder (ascii "authenticator_unavailable")
      (failure (ascii "gateway authenticator is not configured")) x
protected responder (some authenticator) extractor x =
    after_call (extractor x.request) (on_credential responder authenticator)
      (extraction_error responder) x

-- `authenticate`: nobody on a public route, and else the identity that was established.
unfoldable pub authenticate :
    ErrorResponder → Option Authenticator → CredentialExtractor → Route → Stage (Option Identity)
unfolding protected
authenticate responder authenticator extractor route =
    if eqb route.access access_public
    then (do result (ascii "public") none; pure none)
    else protected responder authenticator extractor

add_roles : List Text → Header → Header
add_roles [] h = h
add_roles (r ∷ rs) h = set h (ascii "X-User-Roles") (join (r ∷ rs) b',')

-- `stripAndInjectIdentity`.
unfoldable pub strip_and_inject_identity : Header → Option Identity → Header
unfolding add_roles
strip_and_inject_identity h none = del (del h (ascii "X-User-ID")) (ascii "X-User-Roles")
strip_and_inject_identity h (some i) =
    add_roles i.roles
      (set (del (del h (ascii "X-User-ID")) (ascii "X-User-Roles")) (ascii "X-User-ID") i.user_id)

-- The identity that a request for a route is served under: nobody on a public route; on any other
-- the one that the configured authenticator gave for the request's credential.
abbrev pub Vouches : Option Authenticator → CredentialExtractor → Request → Option Identity → Type 0
Vouches none extractor r i = ⊥
Vouches (some authenticator) extractor r i =
    (credential : Text) × (d : AuthenticationDecision) × (extractor r ≡ returns credential)
    × (credential ≢ [])
    × (authenticator credential ≡ returns d)
    × (d.authenticated ≡ true)
    × (trim_space d.identity.user_id ≢ [])
    × (i ≡ some d.identity)
