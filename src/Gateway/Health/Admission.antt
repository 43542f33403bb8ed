-- ===== src/Gateway/Health/Admission.antt =====
-- A request that the health endpoints let go on is for neither of them, and is left alone.
use stellarmesh_sdk.Base.{◌≡◌, ◌≢◌, Bool, arith}
use stellarmesh_sdk.Text.{◌==◌}
use stellarmesh_sdk.Gateway.AccessLog.{Exchange, with_log}
use stellarmesh_sdk.Gateway.Respond.{ErrorResponder}
use stellarmesh_sdk.Gateway.Flow.{run_reply-ne-next, next, refuse_with, and_then-eq-next}
use stellarmesh_sdk.Gateway.Health.{
  HealthPolicy, HealthKind, named_route, respond_health, check_path, passed, answer, handle_health,
}

respond_health-ne-next :
    (p : HealthPolicy) (kind : HealthKind) (x y : Exchange) → respond_health p kind x ≢ next tt y
unfolding respond_health
respond_health-ne-next p kind x y e = run_reply-ne-next _ x y e

passed-ne-next :
    (p : HealthPolicy) (is_live : Bool) (x y : Exchange) → passed p is_live x ≢ next tt y
unfolding passed
passed-ne-next p is_live x y e = respond_health-ne-next p _ _ y e

answer-ne-next :
    (responder : ErrorResponder) (p : HealthPolicy) (is_live : Bool) (x y : Exchange)
    → answer responder p is_live x ≢ next tt y
unfolding answer
answer-ne-next responder p is_live x y e =
    let (_, x', _, e') = and_then-eq-next (check_path responder p is_live x) _ e in
    passed-ne-next p is_live x' y e'

pub handle_health-eq-next :
    (responder : ErrorResponder) (p : HealthPolicy) (x y : Exchange)
    → handle_health responder p x ≡ next tt y
    → (x.request.path ≢ p.live_path) × (x.request.path ≢ p.ready_path) × (y ≡ x)
unfolding handle_health refuse_with
handle_health-eq-next responder p x y e = ground (
  arith,
  answer-ne-next responder p (x.request.path == p.live_path)
      (with_log x (named_route (x.request.path == p.live_path))) y,
)
