-- ===== src/Gateway/Finish/Reports.antt =====
-- What is reported of a request that has ended.
use stellarmesh_sdk.Base.{
  ℕ, ◌-◌, ◌≤◌, if◌then◌else◌, ◌≡◌, refl, ap, ◌∙◌, ◌⊎◌, Bool, true, false, ◌&&◌, List, [], ◌∷◌, ◌++◌,
  Option, none, some, arith, ltb,
}
use stellarmesh_sdk.Gateway.AccessLog.{AccessLog, AccessLogState, Exchange}
use stellarmesh_sdk.Gateway.Finish.{
  ObservationKind, request_completed, component_failure, access_log_failure, Observation, Event,
  logged, observed, AccessLogger, observation, closed_state, observe, failure_events, log_events,
  finish_request, default_error_code,
}
use stellarmesh_sdk.Gateway.Route.{is_empty}

abbrev pub completed_only : ObservationKind → Observation → List Observation
completed_only request_completed o = o ∷ []
completed_only component_failure o = []
completed_only access_log_failure o = []

-- The observations of completed requests.
abbrev pub completions : List Event → List Observation
completions [] = []
completions (logged l ∷ es) = completions es
completions (observed o ∷ es) = completed_only o.kind o ++ completions es

-- The log entries.
abbrev pub entries : List Event → List AccessLog
entries [] = []
entries (logged l ∷ es) = l ∷ entries es
entries (observed o ∷ es) = entries es

completions-append :
    (es fs : List Event) → completions es ≡ [] → completions (es ++ fs) ≡ completions fs
completions-append [] fs h = refl
completions-append (logged l ∷ es) fs h = completions-append es fs h
completions-append (observed o ∷ es) fs h =
    observed_append o.kind o es fs h (completions-append es fs)
  where
    observed_append :
        (k : ObservationKind) (o : Observation) (es fs : List Event)
        → (completed_only k o ++ completions es) ≡ []
        → (completions es ≡ [] → completions (es ++ fs) ≡ completions fs)
        → completed_only k o ++ completions (es ++ fs) ≡ completions fs
    observed_append request_completed o es fs h next = cc
    observed_append component_failure o es fs h next = next h
    observed_append access_log_failure o es fs h next = next h

entries-append : (es fs : List Event) → entries es ≡ [] → entries (es ++ fs) ≡ entries fs
entries-append [] fs h = refl
entries-append (logged l ∷ es) fs h = cc
entries-append (observed o ∷ es) fs h = entries-append es fs h

failure_events-silent :
    (o : Bool) (s : AccessLogState)
    → (completions (failure_events o s) ≡ []) × (entries (failure_events o s) ≡ [])
unfolding failure_events observe
failure_events-silent o s = (ground arith, ground arith)

log_events-completions :
    (l : Option AccessLogger) (o : Bool) (s : AccessLogState) → completions (log_events l o s) ≡ []
unfolding log_events observe
log_events-completions none o s = refl
log_events-completions (some l) o s = ground arith

finish_request-parts :
    (l : Option AccessLogger) (o : Bool) (x : Exchange) (now : ℕ)
    → finish_request l o x now
      ≡ failure_events o (closed_state x now)
        ++ (log_events l o (closed_state x now)
            ++ observe o (observation request_completed [] (closed_state x now)))
unfolding finish_request closed_state failure_events log_events observe
finish_request-parts l o x now = refl

-- With an observer every request is observed as completed exactly once, for no component, with the
-- log's route and upstream, the recorder's status and the time from the start to the end, whatever
-- the logger does.
pub finish_request-completions :
    (logger : Option AccessLogger) (x : Exchange) (now : ℕ)
    → completions (finish_request logger true x now)
      ≡ record {
        kind = request_completed;
        component = [];
        route = x.log.entry.route;
        upstream = x.log.entry.upstream;
        status = x.recorder.status;
        elapsed = now - x.log.started_at;
      }
        ∷ []
unfolding observe closed_state
finish_request-completions logger x now =
    let s = closed_state x now in
    ap completions (finish_request-parts logger true x now)
    ∙ (completions-append (failure_events true s) _ (failure_events-silent true s).0
        ∙ completions-append (log_events logger true s) _ (log_events-completions logger true s))

observed-silent : (o : Bool) (seen : Observation) → entries (observe o seen) ≡ []
unfolding observe
observed-silent o seen = ground arith

logged_once :
    (l : AccessLogger) (o : Bool) (s : AccessLogState) (fs : List Event)
    → (s.skip_successful && ltb s.status 400) ≡ false
    → entries fs ≡ []
    → entries (log_events (some l) o s ++ fs) ≡ s.entry ∷ []
unfolding log_events observe
logged_once l o s fs kept h = ground arith

-- A configured logger is given exactly one entry for a request, unless the request's success is
-- not to be logged and its status is below 400; the entry is the log's with the recorder's status,
-- the time from the start to the end, and the log's error code or, where there is none, that of
-- the status.
pub finish_request-entries :
    (logger : AccessLogger) (observer : Bool) (x : Exchange) (now : ℕ)
    → (x.log.skip_successful ≡ false) ⊎ (400 ≤ x.recorder.status)
    → entries (finish_request (some logger) observer x now)
      ≡ record (x.log.entry) {
        status = x.recorder.status;
        elapsed = now - x.log.started_at;
        error_code =
            if is_empty x.log.entry.error_code
            then default_error_code x.recorder.status
            else x.log.entry.error_code;
      }
        ∷ []
unfolding closed_state
finish_request-entries logger observer x now shown =
    let s = closed_state x now in
    ap entries (finish_request-parts (some logger) observer x now)
    ∙ (entries-append (failure_events observer s) _ (failure_events-silent observer s).1
        ∙ logged_once logger observer s _ (ground arith)
            (observed-silent observer (observation request_completed [] s)))
