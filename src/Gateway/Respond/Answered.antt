-- ===== src/Gateway/Respond/Answered.antt =====
-- Every error is answered, also when the project's responder panics.
use stellarmesh_sdk.Base.{◌≡◌, ◌≢◌, refl, ◌⊎◌, inl, inr, true, Option, none, some, arith}
use stellarmesh_sdk.Text.{ascii}
use stellarmesh_sdk.Gateway.Types.{Request, GatewayError, Panic}
use stellarmesh_sdk.Gateway.Recorder.{Reply}
use stellarmesh_sdk.Gateway.Recorder.Final.{starts, run_calls-started}
use stellarmesh_sdk.Gateway.AccessLog.{Exchange, record_gateway_error}
use stellarmesh_sdk.Gateway.Respond.{
  ErrorResponder, plain_text, default_error_responder, set_retry_after, fall_back, recovered_reply,
  respond, fail,
}

-- The reply starts a response or panics.
abbrev pub Answers : Reply → Type 0
Answers reply = (starts reply.calls ≡ true) ⊎ (reply.panic ≢ none)

abbrev pub AnswersAll : ErrorResponder → Type 0
AnswersAll next = (r : Request) (e : GatewayError) → Answers (next r e)

fall_back-started : (x : Exchange) → (fall_back x).recorder.wrote_header ≡ true
unfolding fall_back default_error_responder plain_text record_gateway_error
fall_back-started x =
    let neutral =
      run_calls-started (plain_text 500 (ascii "internal server error")) x.recorder refl in
    ground arith

recovered_reply-started :
    (x : Exchange) (panic : Option Panic)
    → (x.recorder.wrote_header ≡ true) ⊎ (panic ≢ none)
    → (recovered_reply x panic).recorder.wrote_header ≡ true
unfolding recovered_reply
recovered_reply-started x none (inl started) = started
recovered_reply-started x none (inr h) = absurd (h refl)
recovered_reply-started x (some p) h = fall_back-started x

pub respond-started :
    (next : ErrorResponder) (x : Exchange) (e : GatewayError)
    → Answers (next x.request e)
    → (respond next x e).recorder.wrote_header ≡ true
unfolding respond
respond-started next x e (inl h) =
    recovered_reply-started _ (next x.request e).panic
      (inl (run_calls-started (next x.request e).calls (set_retry_after e x.recorder) h))
respond-started next x e (inr h) = recovered_reply-started _ (next x.request e).panic (inr h)

pub fail-started :
    (next : ErrorResponder) (x : Exchange) (e : GatewayError)
    → AnswersAll next
    → (fail next x e).recorder.wrote_header ≡ true
unfolding fail
fail-started next x e answers = respond-started next (record_gateway_error x e) e (answers _ e)
