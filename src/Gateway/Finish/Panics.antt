-- ===== src/Gateway/Finish/Panics.antt =====
-- What is left of a panic.
use stellarmesh_sdk.Base.{◌≡◌, refl, true, some, arith}
use stellarmesh_sdk.Text.{ascii}
use stellarmesh_sdk.Gateway.Types.{abort_handler, other, failure}
use stellarmesh_sdk.Gateway.AccessLog.{Exchange}
use stellarmesh_sdk.Gateway.Respond.{ErrorResponder, panic_error}
use stellarmesh_sdk.Gateway.Respond.Answered.{AnswersAll, fail-started}
use stellarmesh_sdk.Gateway.Finish.{recover_panic, before_pipeline, mark_panic}

pub recover_panic-abort :
    (responder : ErrorResponder) (x : Exchange)
    → (recover_panic responder abort_handler x).log.error_code ≡ ascii "upstream_stream_aborted"
unfolding recover_panic mark_panic
recover_panic-abort responder x = refl

pub recover_panic-other :
    (responder : ErrorResponder) (x : Exchange)
    → AnswersAll responder
    → (recover_panic responder other x).recorder.wrote_header ≡ true
unfolding recover_panic mark_panic
recover_panic-other responder x answers =
    let neutral =
      fail-started responder (before_pipeline (mark_panic (ascii "gateway_panic") x))
        (panic_error (some (failure (ascii "gateway component panic")))) answers in
    ground arith
