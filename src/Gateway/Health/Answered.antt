-- ===== src/Gateway/Health/Answered.antt =====
-- A health endpoint answers its requests.
use stellarmesh_sdk.Base.{◌≡◌, refl, ℤ, Bool, true, false, Option, none, some, arith}
use stellarmesh_sdk.Text.{ascii, ◌==◌}
use stellarmesh_sdk.Gateway.Types.{Call, panics, abort_handler, Request}
use stellarmesh_sdk.Gateway.AccessLog.{with_log}
use stellarmesh_sdk.Gateway.Respond.{ErrorResponder, rejection}
use stellarmesh_sdk.Gateway.Respond.Answered.{AnswersAll, Answers}
use stellarmesh_sdk.Gateway.Flow.Answered.{
  AnswersStage, Answered, and_then-Answered, after_call-Answered, refuse_with-Answered,
  run_reply-Answered,
}
use stellarmesh_sdk.Gateway.Health.{
  HealthPolicy, HealthKind, HealthResult, respond_health, named_route, ready_by, check_ready,
  check_path, passed, answer, handle_health,
}

-- The configured responder starts a response or panics.
abbrev pub AnswersHealth : HealthPolicy → Type 0
AnswersHealth p = (r : Request) (h : HealthResult) → Answers (p.responder r h)

respond_health-Answered :
    (Abort : Type 0) (p : HealthPolicy) (kind : HealthKind)
    → ((r : Request) (h : HealthResult) → (p.responder r h).panic ≡ some abort_handler → Abort)
    → AnswersHealth p
    → AnswersStage Abort (respond_health p kind)
unfolding respond_health
respond_health-Answered Abort p kind aborts answers x =
    run_reply-Answered Abort _ x (aborts _ _) (answers _ _)

module _ (Abort : Type 0) (responder : ErrorResponder) (answers : AnswersAll responder)
    (p : HealthPolicy) (health : AnswersHealth p)
    (checking : (check : ℤ → Call (Unit {0})) (timeout : ℤ)
      → p.readiness ≡ some check
      → check timeout ≡ panics abort_handler
      → Abort)
    (responding : (r : Request) (h : HealthResult)
      → (p.responder r h).panic ≡ some abort_handler
      → Abort) where
  check_ready-Answered : AnswersStage Abort (check_ready responder p)
  unfolding check_ready
  check_ready-Answered x = go p.readiness refl
    where
      go :
          (checker : Option (ℤ → Call (Unit {0})))
          → p.readiness ≡ checker
          → Answered Abort (ready_by responder p checker x)
      go none e = tt
      go (some check) e =
          after_call-Answered Abort (check p.check_timeout) _ _ (checking check p.check_timeout e)
            (λ _ y. tt) (λ e. refuse_with-Answered Abort _ responder _ answers) x

  check_path-Answered : (is_live : Bool) → AnswersStage Abort (check_path responder p is_live)
  unfolding check_path
  check_path-Answered true x = tt
  check_path-Answered false x = check_ready-Answered x

  passed-Answered : (is_live : Bool) → AnswersStage Abort (passed p is_live)
  unfolding passed
  passed-Answered is_live x = respond_health-Answered Abort p _ responding health _

  answer-Answered : (is_live : Bool) → AnswersStage Abort (answer responder p is_live)
  unfolding answer
  answer-Answered is_live x =
      and_then-Answered Abort (check_path responder p is_live x) (λ _. passed p is_live)
        (check_path-Answered is_live x) (λ _. passed-Answered is_live)

  pub handle_health-Answered : AnswersStage Abort (handle_health responder p)
  unfolding handle_health
  handle_health-Answered x =
      let is_live = x.request.path == p.live_path in
      let x' = with_log x (named_route is_live) in
      ground (
        arith,
        answer-Answered is_live x',
        refuse_with-Answered Abort (Unit {0}) responder
            (rejection 405 (ascii "health_method_not_allowed") (ascii "method not allowed")) answers
            x',
      )
