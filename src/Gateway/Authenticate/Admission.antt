-- ===== src/Gateway/Authenticate/Admission.antt =====
-- What authentication has established when it lets a request go on.
use stellarmesh_sdk.Base.{
  ◌≡◌, ◌≢◌, ◌⊎◌, inl, inr, true, [], ◌∷◌, Option, none, some, arith, Bool-cases, eqb, eqb→eq,
}
use stellarmesh_sdk.Text.{Text, trim_space}
use stellarmesh_sdk.Gateway.Types.{
  access_public, Route, Identity, AuthenticationDecision, Error, invalid_credential, failure,
  returns,
}
use stellarmesh_sdk.Gateway.AccessLog.{Exchange, set_auth_result}
use stellarmesh_sdk.Gateway.Respond.{ErrorResponder}
use stellarmesh_sdk.Gateway.Flow.{refuse_with, next, after_call-eq-next, Keeps}
use stellarmesh_sdk.Gateway.Authenticate.{
  Authenticator, CredentialExtractor, extraction_error, identity_decision, on_credential, protected,
  authenticate, Vouches,
}

module _ (responder : ErrorResponder) (x y : Exchange) (i : Option Identity) where
  extraction_error-ne-next : (e : Error) → extraction_error responder e x ≢ next i y
  unfolding extraction_error refuse_with
  extraction_error-ne-next invalid_credential h = cc
  extraction_error-ne-next (failure m) h = cc

  identity_decision-eq-next :
      (d : AuthenticationDecision)
      → identity_decision responder d x ≡ next i y
      → (d.authenticated ≡ true)
        × (trim_space d.identity.user_id ≢ [])
        × (i ≡ some d.identity)
        × Keeps x y
  unfolding identity_decision refuse_with set_auth_result
  identity_decision-eq-next d e = ground arith

  on_credential-eq-next :
      (a : Authenticator) (credential : Text)
      → on_credential responder a credential x ≡ next i y
      → (d : AuthenticationDecision) × (credential ≢ [])
        × (a credential ≡ returns d)
        × (identity_decision responder d x ≡ next i y)
  unfolding on_credential refuse_with
  on_credential-eq-next a [] e = cc
  on_credential-eq-next a (c ∷ s) e =
      let (d, r, e') = after_call-eq-next (a (c ∷ s)) _ _ (λ err h. cc) e in (d, (λ h. cc), r, e')

  protected-eq-next :
      (a : Option Authenticator) (extractor : CredentialExtractor)
      → protected responder a extractor x ≡ next i y
      → Vouches a extractor x.request i × Keeps x y
  unfolding protected refuse_with
  protected-eq-next none extractor e = cc
  protected-eq-next (some a) extractor e =
      let (credential, r, e') =
        after_call-eq-next (extractor x.request) _ _ (λ err h. extraction_error-ne-next err h) e in
      let (d, present, r', e'') = on_credential-eq-next a credential e' in
      let (authenticated, named, same, keeps) = identity_decision-eq-next d e'' in
      ((credential, d, r, present, r', authenticated, named, same), keeps)

  -- Nobody on a public route; on any other an identity that the authenticator vouched for.
  pub authenticate-eq-next :
      (a : Option Authenticator) (extractor : CredentialExtractor) (route : Route)
      → authenticate responder a extractor route x ≡ next i y
      → (((route.access ≡ access_public) × (i ≡ none)) ⊎ Vouches a extractor x.request i)
        × Keeps x y
  unfolding authenticate refuse_with set_auth_result
  authenticate-eq-next a extractor route e = elim (Bool-cases (eqb route.access access_public)) [
    | inl open_route ↦ (inl (eqb→eq _ _ open_route, ground arith), ground arith)
    | inr closed ↦
        let (vouches, keeps) = protected-eq-next a extractor (rw closed at e) in
        (inr vouches, keeps)
  ]
