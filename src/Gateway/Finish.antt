-- ===== src/Gateway/Finish.antt =====
-- `Gateway.finishRequest` and `recoverPanic` of sdk/go/gateway/access_log.go, gateway.go and
-- observer.go: what is logged and observed of a request that has ended.
pub mod Reports
pub mod Panics
use stellarmesh_sdk.Base.{
  ℕ, ◌-◌, Bool, ◌&&◌, List, [], ◌∷◌, ◌++◌, Option, none, some, ltb, leb, eqb, if◌then◌else◌,
}
use stellarmesh_sdk.Text.{Text, ascii}
use stellarmesh_sdk.Gateway.Types.{failure, Panic, abort_handler, other, empty_context}
use stellarmesh_sdk.Gateway.AccessLog.{AccessLog, AccessLogState, Exchange}
use stellarmesh_sdk.Gateway.Respond.{ErrorResponder, panic_error, fail}
use stellarmesh_sdk.Gateway.Route.{is_empty}
use stellarmesh_sdk.Gateway.Flow.{with_context}

pub data ObservationKind : Type 0 where
  request_completed component_failure access_log_failure : ObservationKind

pub record Observation : Type 0 where
  pub kind : ObservationKind
  pub component : Text
  pub route : Text
  pub upstream : Text
  pub status : ℕ
  pub elapsed : ℕ

-- What leaves the gateway beside the response, in order.
pub data Event : Type 0 where
  logged : AccessLog → Event
  observed : Observation → Event

-- `defaultErrorCode`.
unfoldable pub default_error_code : ℕ → Text
default_error_code status =
    if eqb status 413
    then ascii "request_body_too_large"
    else if eqb status 502
    then ascii "upstream_unavailable"
    else if eqb status 504
    then ascii "upstream_timeout"
    else if leb 500 status
    then ascii "upstream_error"
    else []

abbrev pub observation : ObservationKind → Text → AccessLogState → Observation
observation kind component s = record {
  kind = kind;
  component = component;
  route = s.route;
  upstream = s.upstream;
  status = s.status;
  elapsed = s.elapsed;
}

-- The state with the status, the time that passed and the code of the outcome.
unfoldable pub closed_state : Exchange → ℕ → AccessLogState
closed_state x now =
    let s = x.log in
    record s {
      entry = record (s.entry) {
        status = x.recorder.status;
        elapsed = now - s.started_at;
        error_code =
            if is_empty s.error_code then default_error_code x.recorder.status else s.error_code;
      };
    }

-- The configured logger; its answer says whether it failed or panicked.
abbrev pub AccessLogger : Type 0
AccessLogger = AccessLog → Bool

-- `safeObserve`: nothing is seen without an observer, and its panic is dropped.
observe : Bool → Observation → List Event
observe observer o = if observer then observed o ∷ [] else []

failure_events : Bool → AccessLogState → List Event
unfolding observe
failure_events observer s =
    if is_empty s.failure_component
    then []
    else observe observer (observation component_failure s.failure_component s)

log_events : Option AccessLogger → Bool → AccessLogState → List Event
unfolding observe
log_events none observer s = []
log_events (some logger) observer s =
    if s.skip_successful && ltb s.status 400
    then []
    else logged s.entry
      ∷ (if logger s.entry
          then observe observer (observation access_log_failure (ascii "access_logger") s)
          else [])

-- `finishRequest`.
unfoldable pub finish_request : Option AccessLogger → Bool → Exchange → ℕ → List Event
unfolding failure_events log_events observe
finish_request logger observer x now =
    let s = closed_state x now in
    failure_events observer s
    ++ (log_events logger observer s ++ observe observer (observation request_completed [] s))

mark_panic : Text → Exchange → Exchange
mark_panic code x = record x {
  log = record (x.log) {
    entry = record (x.log.entry) { error_code = code };
    failure_component = code;
  };
}

-- The request of a deferred call: it has neither the values nor the bound of the pipeline, but
-- its header is the same map.
before_pipeline : Exchange → Exchange
before_pipeline x = record x {
  request = record (x.request) { context = empty_context; body_limit = none };
}

-- `recoverPanic`.
unfoldable pub recover_panic : ErrorResponder → Panic → Exchange → Exchange
unfolding mark_panic before_pipeline
recover_panic responder abort_handler x = mark_panic (ascii "upstream_stream_aborted") x
recover_panic responder other x =
    let x' = mark_panic (ascii "gateway_panic") x in
    if x.recorder.wrote_header
    then x'
    else fail responder (before_pipeline x')
        (panic_error (some (failure (ascii "gateway component panic"))))
