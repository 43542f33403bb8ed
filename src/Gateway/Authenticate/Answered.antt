-- ===== src/Gateway/Authenticate/Answered.antt =====
-- An authentication that ends a request answers it.
use stellarmesh_sdk.Base.{
  ◌≡◌, refl, Option, none, some, [], ◌∷◌, inl, inr, Bool-cases, not, ◌||◌, eqb,
}
use stellarmesh_sdk.Text.{Text, trim_space}
use stellarmesh_sdk.Gateway.Types.{
  Request, panics, abort_handler, Route, AuthenticationDecision, Error, invalid_credential, failure,
  access_public,
}
use stellarmesh_sdk.Gateway.Respond.{ErrorResponder}
use stellarmesh_sdk.Gateway.Respond.Answered.{AnswersAll}
use stellarmesh_sdk.Gateway.Flow.Answered.{AnswersStage, after_call-Answered, refuse_with-Answered}
use stellarmesh_sdk.Gateway.Route.{is_empty}
use stellarmesh_sdk.Gateway.Authenticate.{
  Authenticator, CredentialExtractor, deny, unavailable, extraction_error, identity_decision,
  on_credential, protected, authenticate,
}

module _ (Abort : Type 0) (responder : ErrorResponder) (answers : AnswersAll responder) where
  deny-Answered : (code : Text) → AnswersStage Abort (deny responder code)
  unfolding deny
  deny-Answered code x = refuse_with-Answered Abort _ responder _ answers _

  unavailable-Answered :
      (code : Text) (e : Error) → AnswersStage Abort (unavailable responder code e)
  unfolding unavailable
  unavailable-Answered code e x = refuse_with-Answered Abort _ responder _ answers _

  extraction_error-Answered : (e : Error) → AnswersStage Abort (extraction_error responder e)
  unfolding extraction_error
  extraction_error-Answered invalid_credential = deny-Answered _
  extraction_error-Answered (failure m) = unavailable-Answered _ _

  identity_decision-Answered :
      (d : AuthenticationDecision) → AnswersStage Abort (identity_decision responder d)
  unfolding identity_decision
  identity_decision-Answered d x =
      elim (Bool-cases (not d.authenticated || is_empty (trim_space d.identity.user_id))) [
        | inl bad ↦ rw (bad, identity_decision) (deny-Answered _ x)
        | inr good ↦ rw (good, identity_decision) tt
      ]

  on_credential-Answered :
      (a : Authenticator) (credential : Text)
      → (a credential ≡ panics abort_handler → Abort)
      → AnswersStage Abort (on_credential responder a credential)
  unfolding on_credential
  on_credential-Answered a [] aborts = deny-Answered _
  on_credential-Answered a (c ∷ s) aborts =
      after_call-Answered Abort (a (c ∷ s)) _ _ aborts identity_decision-Answered
        (unavailable-Answered _)

  protected-Answered :
      (a : Option Authenticator) (extractor : CredentialExtractor)
      → ((b : Authenticator) (credential : Text)
          → a ≡ some b
          → b credential ≡ panics abort_handler
          → Abort)
      → ((r : Request) → extractor r ≡ panics abort_handler → Abort)
      → AnswersStage Abort (protected responder a extractor)
  unfolding protected
  protected-Answered none extractor ha he x = unavailable-Answered _ _ x
  protected-Answered (some a) extractor ha he x =
      after_call-Answered Abort (extractor x.request) _ _ (he x.request)
        (λ c. on_credential-Answered a c (ha a c refl)) extraction_error-Answered x

  pub authenticate-Answered :
      (a : Option Authenticator) (extractor : CredentialExtractor) (route : Route)
      → ((b : Authenticator) (credential : Text)
          → a ≡ some b
          → b credential ≡ panics abort_handler
          → Abort)
      → ((r : Request) → extractor r ≡ panics abort_handler → Abort)
      → AnswersStage Abort (authenticate responder a extractor route)
  unfolding authenticate
  authenticate-Answered a extractor route ha he x =
      elim (Bool-cases (eqb route.access access_public)) [
        | inl open_route ↦ rw (open_route, authenticate) tt
        | inr closed ↦ rw (closed, authenticate) (protected-Answered a extractor ha he x)
      ]
