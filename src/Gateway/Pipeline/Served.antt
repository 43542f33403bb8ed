-- ===== src/Gateway/Pipeline/Served.antt =====
-- How `ServeHTTP` ends.
use stellarmesh_sdk.Base.{ℕ, ◌≡◌, ◌≢◌, refl, ◌⊎◌, inl, inr, true, some}
use stellarmesh_sdk.Text.{ascii}
use stellarmesh_sdk.Gateway.Types.{Request, abort_handler, other}
use stellarmesh_sdk.Gateway.Recorder.{Writer}
use stellarmesh_sdk.Gateway.AccessLog.{Exchange}
use stellarmesh_sdk.Gateway.Respond.Answered.{AnswersAll, Answers}
use stellarmesh_sdk.Gateway.Flow.{Flow, next, done, panicked, and_then, run_reply-ne-next}
use stellarmesh_sdk.Gateway.Flow.Answered.{Answered, run_reply-Answered}
use stellarmesh_sdk.Gateway.Finish.Panics.{recover_panic-other, recover_panic-abort}
use stellarmesh_sdk.Gateway.Pipeline.{Gateway, Handler, admit, forward, settle, arrival, serve_http}
use stellarmesh_sdk.Gateway.Pipeline.Aborts.{Aborts, by_handler}
use stellarmesh_sdk.Gateway.Pipeline.Admitted.{admit-Admitted}
use stellarmesh_sdk.Gateway.Pipeline.Answered.{AnswersAnyHealth, admit-Answered}

-- A response was started, or a component panicked with `http.ErrAbortHandler`, and that is logged.
abbrev pub IsSettled : Gateway → Exchange → Type 0
IsSettled g x =
    (x.recorder.wrote_header ≡ true)
    ⊎ (Aborts g × (x.log.error_code ≡ ascii "upstream_stream_aborted"))

module _ (g : Gateway) (answers : AnswersAll g.error_responder) where
  settle-IsSettled :
      (f : Flow (Unit {0}))
      → Answered (Aborts g) f
      → ((x : Exchange) → f ≢ next tt x)
      → IsSettled g (settle g f)
  unfolding settle
  settle-IsSettled (next _ x) h ended = absurd (ended x refl)
  settle-IsSettled (done x) h ended = inl h
  settle-IsSettled (panicked abort_handler x) h ended =
      inr (h, recover_panic-abort g.error_responder x)
  settle-IsSettled (panicked other x) h ended =
      inl (recover_panic-other g.error_responder x answers)

  served-Answered :
      (m : Flow Handler)
      → Answered (Aborts g) m
      → ((h : Handler) (y : Exchange) → m ≡ next h y → Answers (h y.request))
      → ((h : Handler) (y : Exchange)
          → m ≡ next h y
          → (h y.request).panic ≡ some abort_handler
          → Aborts g)
      → Answered (Aborts g) (and_then m (forward g))
        × ((x : Exchange) → and_then m (forward g) ≢ next tt x)
  unfolding forward
  served-Answered (next h y) a upstream aborts = (
    run_reply-Answered (Aborts g) (h y.request) y (aborts h y refl) (upstream h y refl),
    run_reply-ne-next (h y.request) y,
  )
  served-Answered (done x) a upstream aborts = (a, λ y e. cc)
  served-Answered (panicked p x) a upstream aborts = (a, λ y e. cc)

-- Where the project's error responder, health responder and upstreams start a response or panic, a
-- request ends with a response that was started, whichever component refuses it, fails or panics;
-- it can end without one only with a gateway of which a component, or a handler that its upstreams
-- give, panics with http.ErrAbortHandler at some call, and then the error code of an aborted
-- stream is logged.
pub serve_http-IsSettled :
    (g : Gateway) (w : Writer) (r : Request) (started finished : ℕ)
    → AnswersAll g.error_responder
    → AnswersAnyHealth g.health
    → ((h : Handler) (y : Exchange)
        → admit g (arrival g w r started) ≡ next h y
        → Answers (h y.request))
    → IsSettled g (serve_http g w r started finished).0
unfolding serve_http
serve_http-IsSettled g w r started finished answers health upstream =
    let x = arrival g w r started in
    let (answered, ended) =
      served-Answered g answers (admit g x) (admit-Answered g answers health x) upstream
        (λ h y e. let a = admit-Admitted g x y h e in by_handler a.route h y.request a.served_by) in
    settle-IsSettled g answers _ answered ended
