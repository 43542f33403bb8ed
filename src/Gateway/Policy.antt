-- ===== src/Gateway/Policy.antt =====
-- sdk/go/gateway/policy.go: authorization, and the last decision before forwarding.
pub mod Admission
pub mod Answered
use stellarmesh_sdk.Base.{Bool, true, false, Option, none, some, ◌≡◌}
use stellarmesh_sdk.Text.{Text, ascii}
use stellarmesh_sdk.Gateway.Types.{PolicyDecision, RequestContext, Request, Call, returns}
use stellarmesh_sdk.Gateway.Respond.{ErrorResponder, unavailable_error, rejection}
use stellarmesh_sdk.Gateway.Flow.{next, Stage, pure, refuse_with, after_call}

-- `Authorizer` and `BeforeProxyPolicy` have one form.
abbrev pub Policy : Type 0
Policy = Request → RequestContext → Call PolicyDecision

on_policy : ErrorResponder → Text → Bool → Stage (Unit {0})
on_policy responder code true = pure tt
on_policy responder code false = refuse_with responder (rejection 403 code (ascii "forbidden"))

apply_policy :
    ErrorResponder → (rejected failed : Text) → Option Policy → RequestContext → Stage (Unit {0})
unfolding on_policy
apply_policy responder rejected failed none c x = next tt x
apply_policy responder rejected failed (some policy) c x =
    after_call (policy x.request c) (λ d. on_policy responder rejected d.allowed)
      (λ e. refuse_with responder (unavailable_error failed e)) x

-- `applyAuthorizer`.
unfoldable pub apply_authorizer : ErrorResponder → Option Policy → RequestContext → Stage (Unit {0})
unfolding apply_policy
apply_authorizer responder =
    apply_policy responder (ascii "forbidden") (ascii "authorization_failed")

-- `applyBeforeProxy`.
unfoldable pub apply_before_proxy :
    ErrorResponder → Option Policy → RequestContext → Stage (Unit {0})
unfolding apply_policy
apply_before_proxy responder =
    apply_policy responder (ascii "proxy_policy_rejected") (ascii "before_proxy_policy_failed")

-- The policy lets the request pass.
abbrev pub Permits : Option Policy → Request → RequestContext → Type 0
Permits none r c = Unit
Permits (some policy) r c = (d : PolicyDecision) × (policy r c ≡ returns d) × (d.allowed ≡ true)
