-- ===== src/Gateway/Policy/Answered.antt =====
-- A policy that ends a request answers it.
use stellarmesh_sdk.Base.{◌≡◌, refl, Bool, true, false, Option, none, some}
use stellarmesh_sdk.Text.{Text}
use stellarmesh_sdk.Gateway.Types.{panics, abort_handler, Request, RequestContext}
use stellarmesh_sdk.Gateway.Respond.{ErrorResponder}
use stellarmesh_sdk.Gateway.Respond.Answered.{AnswersAll}
use stellarmesh_sdk.Gateway.Flow.Answered.{AnswersStage, after_call-Answered, refuse_with-Answered}
use stellarmesh_sdk.Gateway.Policy.{
  Policy, on_policy, apply_policy, apply_authorizer, apply_before_proxy,
}

module _ (Abort : Type 0) (responder : ErrorResponder) (answers : AnswersAll responder) where
  on_policy-Answered :
      (code : Text) (allowed : Bool) → AnswersStage Abort (on_policy responder code allowed)
  unfolding on_policy
  on_policy-Answered code true x = tt
  on_policy-Answered code false x = refuse_with-Answered Abort _ responder _ answers x

  apply_policy-Answered :
      (rejected failed : Text) (policy : Option Policy) (c : RequestContext)
      → ((p : Policy) (r : Request) → policy ≡ some p → p r c ≡ panics abort_handler → Abort)
      → AnswersStage Abort (apply_policy responder rejected failed policy c)
  unfolding apply_policy
  apply_policy-Answered rejected failed none c aborts x = tt
  apply_policy-Answered rejected failed (some policy) c aborts x =
      after_call-Answered Abort (policy x.request c) _ _ (aborts policy x.request refl)
        (λ d. on_policy-Answered rejected d.allowed)
        (λ e. refuse_with-Answered Abort _ responder _ answers) x

  pub apply_authorizer-Answered :
      (policy : Option Policy) (c : RequestContext)
      → ((p : Policy) (r : Request) → policy ≡ some p → p r c ≡ panics abort_handler → Abort)
      → AnswersStage Abort (apply_authorizer responder policy c)
  unfolding apply_authorizer
  apply_authorizer-Answered policy c aborts = apply_policy-Answered _ _ policy c aborts

  pub apply_before_proxy-Answered :
      (policy : Option Policy) (c : RequestContext)
      → ((p : Policy) (r : Request) → policy ≡ some p → p r c ≡ panics abort_handler → Abort)
      → AnswersStage Abort (apply_before_proxy responder policy c)
  unfolding apply_before_proxy
  apply_before_proxy-Answered policy c aborts = apply_policy-Answered _ _ policy c aborts
