-- ===== src/Gateway/Cors/Handle.antt =====
-- `corsPolicy.handle` of sdk/go/gateway/cors.go: a request from another origin.
pub mod Answered
use stellarmesh_sdk.Base.{
  ◌/◌, Bool, true, false, not, ◌&&◌, ◌||◌, List, [], ◌∷◌, ◌++◌, is_positive, pos_part, all,
  if◌then◌else◌,
}
use stellarmesh_sdk.Text.{
  Text, ascii, ◌==◌, trim_space, to_upper, to_lower, split, has_text, decimal,
}
use stellarmesh_sdk.Gateway.Header.{get}
use stellarmesh_sdk.Gateway.Types.{Request}
use stellarmesh_sdk.Gateway.Recorder.{set_header, add_header, send_header, WriterCall, run_calls}
use stellarmesh_sdk.Gateway.Respond.{ErrorResponder, second, on_recorder, rejection}
use stellarmesh_sdk.Gateway.Route.{is_empty}
use stellarmesh_sdk.Gateway.Flow.{next, done, Stage, refuse_with}
use stellarmesh_sdk.Gateway.Cors.{CorsPolicy}

has_key : List (Text × Text) → Text → Bool
has_key [] k = false
has_key ((j, v) ∷ m) k = j == k || has_key m k

-- `acceptsRequestedHeaders`.
unfoldable pub accepts_requested_headers : CorsPolicy → Text → Bool
unfolding has_key
accepts_requested_headers p raw =
    is_empty (trim_space raw)
    || all (λ h. has_key p.headers (to_lower (trim_space h))) (split raw b',')

unfoldable pub requested : Request → Text → Text
requested r name = trim_space (get r.header name)

unfoldable pub is_preflight : Request → Bool
is_preflight r =
    r.method == ascii "OPTIONS"
    && not (is_empty (requested r (ascii "Access-Control-Request-Method")))

unfoldable pub requested_method : Request → Text
requested_method r =
    if is_preflight r
    then to_upper (requested r (ascii "Access-Control-Request-Method"))
    else r.method

abbrev only_if {ℓ} : {A : Type ℓ} → Bool → List A → List A
only_if true xs = xs
only_if false xs = []

-- The response headers of an accepted request, in the order of the source.
unfoldable pub cors_headers : CorsPolicy → Text → Bool → List WriterCall
cors_headers p origin preflight =
    add_header (ascii "Vary") (ascii "Origin")
      ∷ only_if preflight (
          add_header (ascii "Vary") (ascii "Access-Control-Request-Method")
          ∷ add_header (ascii "Vary") (ascii "Access-Control-Request-Headers")
          ∷ [])
    ++ set_header (ascii "Access-Control-Allow-Origin")
        (if is_empty p.allow_origin_value then origin else p.allow_origin_value)
      ∷ set_header (ascii "Access-Control-Allow-Methods") p.methods_value
      ∷ set_header (ascii "Access-Control-Allow-Headers") p.headers_value
      ∷ only_if p.credentials
          (set_header (ascii "Access-Control-Allow-Credentials") (ascii "true") ∷ [])
    ++ only_if (is_positive p.max_age)
        (set_header (ascii "Access-Control-Max-Age") (decimal (pos_part p.max_age / second)) ∷ [])

forbidden : ErrorResponder → Text → Stage (Unit {0})
forbidden responder code = refuse_with responder (rejection 403 code (ascii "forbidden"))

-- A preflight request is answered here; any other goes on with the headers set.
accepted : CorsPolicy → Text → Bool → Stage (Unit {0})
accepted p origin preflight x =
    let x' = on_recorder x (run_calls (cors_headers p origin preflight)) in
    if preflight then done (on_recorder x' (run_calls (send_header 204 ∷ []))) else next tt x'

-- `handle`; it ends the request where the source returns true.
unfoldable pub handle_cors : ErrorResponder → CorsPolicy → Stage (Unit {0})
unfolding forbidden accepted
handle_cors responder p x =
    let origin = requested x.request (ascii "Origin") in
    let preflight = is_preflight x.request in
    let raw = get x.request.header (ascii "Access-Control-Request-Headers") in
    if is_empty origin
    then next tt x
    else if not p.wildcard && not (has_text p.origins origin)
    then forbidden responder (ascii "cors_origin_rejected") x
    else if not (has_text p.methods (requested_method x.request))
    then forbidden responder (ascii "cors_method_rejected") x
    else if preflight && not (accepts_requested_headers p raw)
    then forbidden responder (ascii "cors_headers_rejected") x
    else accepted p origin preflight x
