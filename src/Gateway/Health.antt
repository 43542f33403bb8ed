-- ===== src/Gateway/Health.antt =====
-- sdk/go/gateway/health.go: the gateway's own liveness and readiness endpoints.
pub mod Admission
pub mod Answered
use stellarmesh_sdk.Base.{
  Bool, true, false, not, ◌&&◌, ◌||◌, [], ◌∷◌, Option, none, some, ℤ, pos, is_negative, is_zero,
  if◌then◌else◌,
}
use stellarmesh_sdk.Text.{Text, ascii, ◌==◌, trim_space, has_prefix}
use stellarmesh_sdk.Gateway.Types.{Request, Call}
use stellarmesh_sdk.Gateway.Recorder.{Reply, run_calls}
use stellarmesh_sdk.Gateway.AccessLog.{AccessLog, Exchange, with_log}
use stellarmesh_sdk.Gateway.Respond.{
  ErrorResponder, on_recorder, plain_text, rejection, unavailable_error,
}
use stellarmesh_sdk.Gateway.Flow.{
  next, done, panicked, Stage, ◌>>◌, pure, modify, refuse_with, run_reply, after_call,
}

pub data HealthKind : Type 0 where
  live ready : HealthKind

pub record HealthResult : Type 0 where
  pub kind : HealthKind
  pub service : Text

abbrev pub HealthResponder : Type 0
HealthResponder = Request → HealthResult → Reply

-- A configured checker or responder may be a nil pointer in an interface; `none` is a nil
-- interface, and `some none` such a pointer.
pub record HealthConfig : Type 0 where
  pub service : Text
  pub live_path : Text
  pub ready_path : Text
  pub check_timeout : ℤ
  pub readiness : Option (Option (ℤ → Call (Unit {0})))
  pub log_successful : Bool
  pub responder : Option (Option HealthResponder)

-- `readiness` takes the timeout of its context.
pub record HealthPolicy : Type 0 where
  pub service : Text
  pub live_path : Text
  pub ready_path : Text
  pub check_timeout : ℤ
  pub readiness : Option (ℤ → Call (Unit {0}))
  pub log_successful : Bool
  pub responder : HealthResponder

abbrev or_else : Text → Text → Text
or_else [] default = default
or_else (c ∷ s) default = c ∷ s

abbrev or_two_seconds : ℤ → ℤ
or_two_seconds t = if is_zero t then pos 2_000_000_000 else t

abbrev flat {ℓ} : {A : Type ℓ} → Option (Option A) → Option A
flat none = none
flat (some o) = o

unfoldable pub default_health_responder : HealthResponder
default_health_responder r result = record { calls = plain_text 200 (ascii "ok"); panic = none }

-- The responder; `none` is the error for a nil pointer.
choose_responder : Option (Option HealthResponder) → Option HealthResponder
choose_responder none = some default_health_responder
choose_responder (some none) = none
choose_responder (some (some h)) = some h

-- `newHealthPolicy` of a configuration that is not nil; `none` is the error that it returns.
unfoldable pub new_health_policy : HealthConfig → Option HealthPolicy
unfolding choose_responder
new_health_policy c =
    let live_path = or_else (trim_space c.live_path) (ascii "/health/live") in
    let ready_path = or_else (trim_space c.ready_path) (ascii "/health/ready") in
    if not (has_prefix live_path (ascii "/"))
      || not (has_prefix ready_path (ascii "/"))
      || live_path == ready_path
    then none
    else if is_negative (or_two_seconds c.check_timeout)
    then none
    else elim (choose_responder c.responder) [
      | none ↦ none
      | some responder ↦ some (record {
        service = or_else (trim_space c.service) (ascii "gateway");
        live_path = live_path;
        ready_path = ready_path;
        check_timeout = or_two_seconds c.check_timeout;
        readiness = flat c.readiness;
        log_successful = c.log_successful;
        responder = responder;
      })
    ]

named_route : Bool → AccessLog → AccessLog
named_route is_live log = record log {
  auth_result = ascii "public";
  upstream = [];
  route = if is_live then ascii "health_live" else ascii "health_ready";
}

-- The answer of an endpoint that passed its check; its panic is the responder's.
respond_health : HealthPolicy → HealthKind → Stage (Unit {0})
respond_health p kind x =
    run_reply (p.responder x.request (record { kind = kind; service = p.service })) x

skip_unless : Bool → Exchange → Exchange
skip_unless log_successful x = record x {
  log = record (x.log) { skip_successful = not log_successful };
}

-- The readiness check, on the ready path only.
ready_by : ErrorResponder → HealthPolicy → Option (ℤ → Call (Unit {0})) → Stage (Unit {0})
ready_by responder p none x = next tt x
ready_by responder p (some check) x =
    after_call (check p.check_timeout) (λ _. pure tt)
      (λ e. refuse_with responder (unavailable_error (ascii "readiness_failed") e)) x

check_ready : ErrorResponder → HealthPolicy → Stage (Unit {0})
unfolding ready_by
check_ready responder p = ready_by responder p p.readiness

check_path : ErrorResponder → HealthPolicy → Bool → Stage (Unit {0})
unfolding check_ready
check_path responder p true = pure tt
check_path responder p false = check_ready responder p

passed : HealthPolicy → Bool → Stage (Unit {0})
unfolding respond_health skip_unless
passed p is_live = do
  modify (skip_unless p.log_successful)
  respond_health p (if is_live then live else ready)

answer : ErrorResponder → HealthPolicy → Bool → Stage (Unit {0})
unfolding check_path passed
answer responder p is_live = do check_path responder p is_live; passed p is_live

-- `handle`; it ends the request where the source returns true.
unfoldable pub handle_health : ErrorResponder → HealthPolicy → Stage (Unit {0})
unfolding named_route answer
handle_health responder p x =
    let is_live = x.request.path == p.live_path in
    let x' = with_log x (named_route is_live) in
    if not is_live && not (x.request.path == p.ready_path)
    then next tt x
    else if not (x.request.method == ascii "GET")
    then refuse_with responder
        (rejection 405 (ascii "health_method_not_allowed") (ascii "method not allowed")) x'
    else answer responder p is_live x'
