-- ===== src/Gateway/Cors/Handle/Answered.antt =====
-- A cross-origin check that ends a request answers it.
use stellarmesh_sdk.Base.{refl, Bool, true, false, arith, [], ◌∷◌}
use stellarmesh_sdk.Text.{Text, ascii}
use stellarmesh_sdk.Gateway.Recorder.{send_header, run_calls}
use stellarmesh_sdk.Gateway.Recorder.Final.{run_calls-started}
use stellarmesh_sdk.Gateway.Respond.{ErrorResponder}
use stellarmesh_sdk.Gateway.Respond.Answered.{AnswersAll}
use stellarmesh_sdk.Gateway.Flow.Answered.{AnswersStage, refuse_with-Answered}
use stellarmesh_sdk.Gateway.Cors.{CorsPolicy}
use stellarmesh_sdk.Gateway.Cors.Handle.{
  forbidden, accepted, cors_headers, handle_cors, requested, is_preflight,
}

module _ (Abort : Type 0) where
  accepted-Answered :
      (p : CorsPolicy) (origin : Text) (preflight : Bool)
      → AnswersStage Abort (accepted p origin preflight)
  unfolding accepted
  accepted-Answered p origin true x =
      run_calls-started (send_header 204 ∷ []) (run_calls (cors_headers p origin true) x.recorder)
        refl
  accepted-Answered p origin false x = tt

  forbidden-Answered :
      (responder : ErrorResponder) (code : Text)
      → AnswersAll responder
      → AnswersStage Abort (forbidden responder code)
  unfolding forbidden
  forbidden-Answered responder code answers = refuse_with-Answered Abort _ responder _ answers

  pub handle_cors-Answered :
      (responder : ErrorResponder) (p : CorsPolicy)
      → AnswersAll responder
      → AnswersStage Abort (handle_cors responder p)
  unfolding handle_cors
  handle_cors-Answered responder p answers x = ground (
    arith,
    forbidden-Answered responder (ascii "cors_origin_rejected") answers x,
    forbidden-Answered responder (ascii "cors_method_rejected") answers x,
    forbidden-Answered responder (ascii "cors_headers_rejected") answers x,
    accepted-Answered p (requested x.request (ascii "Origin")) (is_preflight x.request) x,
  )
