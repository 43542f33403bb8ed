-- ===== src/Gateway/Policy/Admission.antt =====
-- What a policy's check has established when it lets a request go on.
use stellarmesh_sdk.Base.{◌≡◌, Bool, true, false, Option, none, some, arith}
use stellarmesh_sdk.Text.{Text}
use stellarmesh_sdk.Gateway.Types.{RequestContext}
use stellarmesh_sdk.Gateway.AccessLog.{Exchange}
use stellarmesh_sdk.Gateway.Respond.{ErrorResponder}
use stellarmesh_sdk.Gateway.Flow.{refuse_with, next, after_call-eq-next}
use stellarmesh_sdk.Gateway.Policy.{
  Policy, on_policy, apply_policy, apply_authorizer, apply_before_proxy, Permits,
}

on_policy-eq-next :
    (responder : ErrorResponder) (code : Text) (allowed : Bool) (x y : Exchange)
    → on_policy responder code allowed x ≡ next tt y
    → (allowed ≡ true) × (x ≡ y)
unfolding on_policy refuse_with
on_policy-eq-next responder code true x y e = ground arith
on_policy-eq-next responder code false x y e = cc

apply_policy-eq-next :
    (responder : ErrorResponder) (rejected failed : Text) (policy : Option Policy)
    (c : RequestContext) (x y : Exchange)
    → apply_policy responder rejected failed policy c x ≡ next tt y
    → Permits policy x.request c × (x ≡ y)
unfolding apply_policy refuse_with
apply_policy-eq-next responder rejected failed none c x y e = (tt, ground arith)
apply_policy-eq-next responder rejected failed (some policy) c x y e =
    let (d, r, e') = after_call-eq-next (policy x.request c) _ _ (λ err. cc) e in
    let (allowed, same) = on_policy-eq-next responder rejected d.allowed x y e' in
    ((d, r, allowed), same)

module _ (responder : ErrorResponder) (policy : Option Policy) (c : RequestContext)
    (x y : Exchange) where
  pub apply_authorizer-eq-next :
      apply_authorizer responder policy c x ≡ next tt y → Permits policy x.request c × (x ≡ y)
  unfolding apply_authorizer refuse_with
  apply_authorizer-eq-next e = apply_policy-eq-next responder _ _ policy c x y e

  pub apply_before_proxy-eq-next :
      apply_before_proxy responder policy c x ≡ next tt y → Permits policy x.request c × (x ≡ y)
  unfolding apply_before_proxy refuse_with
  apply_before_proxy-eq-next e = apply_policy-eq-next responder _ _ policy c x y e
