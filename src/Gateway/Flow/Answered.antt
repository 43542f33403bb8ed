-- ===== src/Gateway/Flow/Answered.antt =====
-- A stage that ends a request has started its response.
use stellarmesh_sdk.Base.{◌≡◌, ◌≢◌, refl, ap, ◌⊎◌, inl, inr, true, Option, none, some}
use stellarmesh_sdk.Gateway.Types.{
  Panic, abort_handler, other, Error, GatewayError, Call, returns, fails, panics,
}
use stellarmesh_sdk.Gateway.Recorder.{Reply}
use stellarmesh_sdk.Gateway.Recorder.Final.{run_calls-started}
use stellarmesh_sdk.Gateway.AccessLog.{Exchange}
use stellarmesh_sdk.Gateway.Respond.{ErrorResponder}
use stellarmesh_sdk.Gateway.Respond.Answered.{Answers, AnswersAll, fail-started}
use stellarmesh_sdk.Gateway.Flow.{
  Flow, next, done, panicked, Stage, and_then, refuse_with, after_call, reply_end, run_reply,
}

-- What is known of a panic that ends a stage: that of `http.ErrAbortHandler` has a cause.
abbrev pub HasCause : Type 0 → Panic → Type 0
HasCause Abort abort_handler = Abort
HasCause Abort other = Unit

caused : (Abort : Type 0) (p : Panic) → (p ≡ abort_handler → Abort) → HasCause Abort p
caused Abort abort_handler aborts = aborts refl
caused Abort other aborts = tt

-- Said of what a stage came to.
abbrev pub Answered {ℓ} : Type 0 → {A : Type ℓ} → Flow A → Type 0
Answered Abort (next a x) = Unit
Answered Abort (done x) = x.recorder.wrote_header ≡ true
Answered Abort (panicked p x) = HasCause Abort p

abbrev pub AnswersStage {ℓ} : Type 0 → {A : Type ℓ} → Stage A → Type 0
AnswersStage Abort m = (x : Exchange) → Answered Abort (m x)

module _ (Abort : Type 0) where
  pub and_then-Answered {ℓ κ} :
      {A : Type ℓ} {B : Type κ} (m : Flow A) (k : A → Stage B)
      → Answered Abort m
      → ((a : A) → AnswersStage Abort (k a))
      → Answered Abort (and_then m k)
  and_then-Answered (next a x) k h hk = hk a x
  and_then-Answered (done x) k h hk = h
  and_then-Answered (panicked p x) k h hk = h

  pub after_call-Answered {ℓ κ} :
      {A : Type ℓ} {B : Type κ} (c : Call A) (good : A → Stage B) (bad : Error → Stage B)
      → (c ≡ panics abort_handler → Abort)
      → ((a : A) → AnswersStage Abort (good a))
      → ((e : Error) → AnswersStage Abort (bad e))
      → AnswersStage Abort (after_call c good bad)
  after_call-Answered (returns a) good bad aborts hg hb x = hg a x
  after_call-Answered (fails e) good bad aborts hg hb x = hb e x
  after_call-Answered (panics p) good bad aborts hg hb x =
      caused Abort p (λ e. aborts (ap panics e))

  pub refuse_with-Answered {ℓ} :
      (A : Type ℓ) (responder : ErrorResponder) (e : GatewayError)
      → AnswersAll responder
      → AnswersStage Abort (refuse_with {A = A} responder e)
  unfolding refuse_with
  refuse_with-Answered A responder e answers x = fail-started responder x e answers

  reply_end-Answered :
      (panic : Option Panic) (x : Exchange)
      → (panic ≡ some abort_handler → Abort)
      → (x.recorder.wrote_header ≡ true) ⊎ (panic ≢ none)
      → Answered Abort (reply_end panic x)
  unfolding reply_end
  reply_end-Answered none x aborts (inl h) = h
  reply_end-Answered none x aborts (inr h) = absurd (h refl)
  reply_end-Answered (some p) x aborts h = caused Abort p (λ e. aborts (ap some e))

  pub run_reply-Answered :
      (reply : Reply) (x : Exchange)
      → (reply.panic ≡ some abort_handler → Abort)
      → Answers reply
      → Answered Abort (run_reply reply x)
  unfolding run_reply
  run_reply-Answered reply x aborts (inl h) =
      reply_end-Answered reply.panic _ aborts (inl (run_calls-started reply.calls x.recorder h))
  run_reply-Answered reply x aborts (inr h) = reply_end-Answered reply.panic _ aborts (inr h)
