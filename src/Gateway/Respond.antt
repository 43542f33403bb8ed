-- ===== src/Gateway/Respond.antt =====
-- sdk/go/gateway/response.go: error responses, and the wrapper that survives a responder's panic.
pub mod Answered
pub mod Retry
use stellarmesh_sdk.Base.{
  ℕ, ◌+◌, ◌/◌, ◌%◌, List, [], ◌∷◌, ◌++◌, Option, none, some, pos, is_positive, pos_part, eqb,
  if◌then◌else◌,
}
use stellarmesh_sdk.Text.{Text, ascii, decimal}
use stellarmesh_sdk.Gateway.Types.{Error, GatewayError, Request, Panic}
use stellarmesh_sdk.Gateway.Recorder.{
  Recorder, WriterCall, set_header, send_header, send_body, run_call, run_calls, Reply,
}
use stellarmesh_sdk.Gateway.AccessLog.{Exchange, record_gateway_error}

abbrev pub second : ℕ
second = 1_000_000_000

abbrev pub on_recorder : Exchange → (Recorder → Recorder) → Exchange
on_recorder x f = record x { recorder = f x.recorder }

-- `writePlainText`.
unfoldable pub plain_text : ℕ → Text → List WriterCall
plain_text status message =
    set_header (ascii "Content-Type") (ascii "text/plain; charset=utf-8")
    ∷ set_header (ascii "X-Content-Type-Options") (ascii "nosniff")
    ∷ send_header status
    ∷ send_body (message ++ 0x0a ∷ [])
    ∷ []

-- `ErrorResponder`: the calls that it makes of the writer, and its panic.
abbrev pub ErrorResponder : Type 0
ErrorResponder = Request → GatewayError → Reply

unfoldable pub default_error_responder : ErrorResponder
default_error_responder r e = record { calls = plain_text e.status e.message; panic = none }

-- The whole seconds of a positive duration, rounded up.
unfoldable pub retry_seconds : ℕ → ℕ
retry_seconds retry_after =
    if eqb (retry_after % second) 0 then retry_after / second else retry_after / second + 1

set_retry_after : GatewayError → Recorder → Recorder
set_retry_after e r =
    if is_positive e.retry_after
    then run_call
        (set_header (ascii "Retry-After") (decimal (retry_seconds (pos_part e.retry_after)))) r
    else r

abbrev pub panic_error : Option Error → GatewayError
panic_error cause = record {
  status = 500;
  code = ascii "gateway_panic";
  message = ascii "internal server error";
  retry_after = pos 0;
  cause = cause;
}

-- The deferred function of `Respond`: the neutral answer, unless a response was started.
fall_back : Exchange → Exchange
fall_back x =
    if x.recorder.wrote_header
    then x
    else on_recorder (record_gateway_error x (panic_error none))
        (run_calls (default_error_responder x.request (panic_error none)).calls)

recovered_reply : Exchange → Option Panic → Exchange
unfolding fall_back
recovered_reply x none = x
recovered_reply x (some p) = fall_back x

-- `protocolErrorResponder.Respond` around the configured responder.
unfoldable pub respond : ErrorResponder → Exchange → GatewayError → Exchange
unfolding recovered_reply set_retry_after
respond next x e =
    let reply : Reply = next x.request e in
    recovered_reply (on_recorder x (λ r. run_calls reply.calls (set_retry_after e r))) reply.panic

-- `gateway.fail`.
unfoldable pub fail : ErrorResponder → Exchange → GatewayError → Exchange
fail next x e = respond next (record_gateway_error x e) e

abbrev pub unavailable_error : Text → Error → GatewayError
unavailable_error code cause = record {
  status = 503;
  code = code;
  message = ascii "service unavailable";
  retry_after = pos 0;
  cause = some cause;
}

-- A rejection that is no component's fault.
abbrev pub rejection : ℕ → Text → Text → GatewayError
rejection status code message = record {
  status = status;
  code = code;
  message = message;
  retry_after = pos 0;
  cause = none;
}
