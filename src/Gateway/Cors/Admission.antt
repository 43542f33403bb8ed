-- ===== src/Gateway/Cors/Admission.antt =====
-- What the cross-origin check has established when it lets a request go on.
use stellarmesh_sdk.Base.{◌≡◌, refl, ◌⊎◌, inl, inr, true, false, [], ◌∷◌, arith, Bool-cases}
use stellarmesh_sdk.Text.{Text, ascii}
use stellarmesh_sdk.Text.Laws.{In, has_text→In}
use stellarmesh_sdk.Gateway.Types.{Request}
use stellarmesh_sdk.Gateway.AccessLog.{Exchange}
use stellarmesh_sdk.Gateway.Respond.{ErrorResponder}
use stellarmesh_sdk.Gateway.Route.{is_empty}
use stellarmesh_sdk.Gateway.Flow.{next, refuse_with}
use stellarmesh_sdk.Gateway.Cors.{CorsPolicy}
use stellarmesh_sdk.Gateway.Cors.Handle.{requested, is_preflight, requested_method, handle_cors}

-- The request names no origin, or it is no preflight, from an allowed origin by an allowed method.
abbrev pub CorsPasses : CorsPolicy → Request → Type 0
CorsPasses p r =
    (requested r (ascii "Origin") ≡ [])
    ⊎ (((p.wildcard ≡ true) ⊎ In (requested r (ascii "Origin")) p.origins)
        × In r.method p.methods
        × (is_preflight r ≡ false))

is_empty→eq : (t : Text) → is_empty t ≡ true → t ≡ []
is_empty→eq [] h = refl
is_empty→eq (c ∷ t) h = cc

pub handle_cors-eq-next :
    (responder : ErrorResponder) (p : CorsPolicy) (x y : Exchange)
    → handle_cors responder p x ≡ next tt y
    → CorsPasses p x.request × (y.request ≡ x.request) × (y.log ≡ x.log)
unfolding handle_cors requested_method refuse_with
handle_cors-eq-next responder p x y e =
    elim (Bool-cases (is_empty (requested x.request (ascii "Origin")))) [
      | inl missing ↦ (inl (is_empty→eq _ missing), ground arith, ground arith)
      | inr given ↦ (
        inr (
          ground (arith, has_text→In p.origins (requested x.request (ascii "Origin"))),
          ground (arith, has_text→In p.methods x.request.method),
          ground arith,
        ),
        ground arith,
        ground arith,
      )
    ]
