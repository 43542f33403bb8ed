-- ===== src/Gateway/Flow.antt =====
-- The stages of the pipeline: a stage hands a value on, or ends the request (a response was
-- written, `return`), or a component panicked. The exchange is threaded through all of them.
pub mod Answered
use stellarmesh_sdk.Base.{some, none, Option, ◌≡◌, ◌≢◌, refl}
use stellarmesh_sdk.Gateway.Types.{
  Error, GatewayError, Panic, Call, returns, fails, panics, Context,
}
use stellarmesh_sdk.Gateway.Recorder.{Reply, run_calls}
use stellarmesh_sdk.Gateway.AccessLog.{Exchange}
use stellarmesh_sdk.Gateway.Respond.{ErrorResponder, fail, on_recorder}

pub data Flow {ℓ} (A : Type ℓ) : Type ℓ where
  next : A → Exchange → Flow A
  done : Exchange → Flow A
  panicked : Panic → Exchange → Flow A

abbrev pub Stage {ℓ} : Type ℓ → Type ℓ
Stage A = Exchange → Flow A

abbrev pub and_then {ℓ κ} : {A : Type ℓ} {B : Type κ} → Flow A → (A → Stage B) → Flow B
and_then (next a x) k = k a x
and_then (done x) k = done x
and_then (panicked p x) k = panicked p x

infixl 5 ◌>>=◌ ◌>>◌
abbrev pub ◌>>=◌ {ℓ κ} : {A : Type ℓ} {B : Type κ} → Stage A → (A → Stage B) → Stage B
◌>>=◌ m k x = and_then (m x) k

abbrev pub ◌>>◌ {κ} : {B : Type κ} → Stage (Unit {0}) → Stage B → Stage B
◌>>◌ m k x = and_then (m x) (λ _. k)

abbrev pub pure {ℓ} : {A : Type ℓ} → A → Stage A
pure a x = next a x

abbrev pub modify : (Exchange → Exchange) → Stage (Unit {0})
modify f x = next tt (f x)

-- `gateway.fail(…); return`.
unfoldable pub refuse_with {ℓ} : {A : Type ℓ} → ErrorResponder → GatewayError → Stage A
refuse_with next_responder e x = done (fail next_responder x e)

-- A call of a component: what follows a result, and what follows an error.
abbrev pub after_call {ℓ κ} :
    {A : Type ℓ} {B : Type κ} → Call A → (A → Stage B) → (Error → Stage B) → Stage B
after_call (returns a) good bad x = good a x
after_call (fails e) good bad x = bad e x
after_call (panics p) good bad x = panicked p x

-- `r = r.WithContext(…)`.
abbrev pub with_context : Exchange → (Context → Context) → Exchange
with_context x f = record x { request = record (x.request) { context = f x.request.context } }

reply_end : Option Panic → Stage (Unit {0})
reply_end none x = done x
reply_end (some p) x = panicked p x

-- A handler's calls of the writer, and then its return or its panic.
unfoldable pub run_reply : Reply → Stage (Unit {0})
unfolding reply_end
run_reply reply x = reply_end reply.panic (on_recorder x (run_calls reply.calls))

-- No handler's reply goes on to a later stage.
pub run_reply-ne-next : (reply : Reply) (x y : Exchange) → run_reply reply x ≢ next tt y
unfolding run_reply
run_reply-ne-next reply x y = go reply.panic
  where
    go :
        (panic : Option Panic) → reply_end panic (on_recorder x (run_calls reply.calls)) ≢ next tt y
    go none e = cc
    go (some p) e = cc

-- Inversion of a chain that went on to the end.
pub and_then-eq-next {ℓ κ} :
    {A : Type ℓ} {B : Type κ} (m : Flow A) (k : A → Stage B) {b : B} {y : Exchange}
    → and_then m k ≡ next b y
    → (a : A) × (x : Exchange) × (m ≡ next a x) × (k a x ≡ next b y)
and_then-eq-next (next a x) k e = (a, x, refl, e)
and_then-eq-next (done x) k e = cc
and_then-eq-next (panicked p x) k e = cc

-- Inversion of a component's call whose errors all end the request.
pub after_call-eq-next {ℓ κ} :
    {A : Type ℓ} {B : Type κ} (c : Call A) (good : A → Stage B) (bad : Error → Stage B)
    {x y : Exchange} {b : B}
    → ((e : Error) → bad e x ≢ next b y)
    → after_call c good bad x ≡ next b y
    → (a : A) × (c ≡ returns a) × (good a x ≡ next b y)
after_call-eq-next (returns a) good bad refused e = (a, refl, e)
after_call-eq-next (fails err) good bad refused e = absurd (refused err e)
after_call-eq-next (panics p) good bad refused e = cc

-- The request and the recorder are left alone.
abbrev pub Keeps : Exchange → Exchange → Type 0
Keeps x y = (y.request ≡ x.request) × (y.recorder ≡ x.recorder)
