-- ===== src/Gateway/Cors.antt =====
-- sdk/go/gateway/cors.go: the cross-origin policy, compiled at start-up, and its check of a request.
pub mod Handle
pub mod Admission
pub mod Origins
pub mod Config
use stellarmesh_sdk.Base.{
  ℕ, ◌/◌, Bool, true, false, not, ◌&&◌, ◌||◌, List, [], ◌∷◌, Option, none, some, ℤ, is_positive,
  is_negative, pos_part, eqb, all, length, map, if◌then◌else◌, Result, ok, err, ◌>>=◌, ◌>>◌, refuse,
}
use stellarmesh_sdk.Text.{
  Text, ascii, ◌==◌, text_discrete, trim_space, to_upper, to_lower, split, join, has_text, decimal,
}
use stellarmesh_sdk.Text.Order.{sort_texts, add_key}
use stellarmesh_sdk.Gateway.Token.{is_http_token}
use stellarmesh_sdk.Gateway.Header.{canonical_header_key, get}
use stellarmesh_sdk.Gateway.Types.{Request}
use stellarmesh_sdk.Gateway.Recorder.{set_header, add_header, send_header, WriterCall, run_calls}
use stellarmesh_sdk.Gateway.AccessLog.{Exchange}
use stellarmesh_sdk.Gateway.Respond.{ErrorResponder, second, on_recorder, rejection}
use stellarmesh_sdk.Gateway.Route.{is_empty}
use stellarmesh_sdk.Gateway.Flow
use stellarmesh_sdk.Gateway.Flow.{Flow, next, done, Stage, refuse_with}

pub record CorsConfig : Type 0 where
  pub allowed_origins : List Text
  pub allowed_methods : List Text
  pub allowed_headers : List Text
  pub allow_credentials : Bool
  pub max_age : ℤ

-- The map `headers`, from lower case to canonical names, as a list of pairs.
pub record CorsPolicy : Type 0 where
  pub origins : List Text
  pub wildcard : Bool
  pub methods : List Text
  pub headers : List (Text × Text)
  pub allow_origin_value : Text
  pub methods_value : Text
  pub headers_value : Text
  pub credentials : Bool
  pub max_age : ℤ

pub data CorsError : Type 0 where
  origins_required origin_empty origin_invalid wildcard_combined : CorsError
  method_invalid header_invalid max_age_negative : CorsError

abbrev pub default_cors_methods : List Text
default_cors_methods =
    ascii "DELETE"
    ∷ ascii "GET"
    ∷ ascii "HEAD"
    ∷ ascii "OPTIONS"
    ∷ ascii "PATCH"
    ∷ ascii "POST"
    ∷ ascii "PUT"
    ∷ []

abbrev pub default_cors_headers : List Text
default_cors_headers = ascii "Authorization" ∷ ascii "Content-Type" ∷ ascii "X-Request-ID" ∷ []

abbrev or_default : List Text → List Text → List Text
or_default [] default = default
or_default (t ∷ ts) default = t ∷ ts

-- What the program reads of `url.Parse`'s result; `none` is its error.
pub record ParsedUrl : Type 0 where
  pub scheme : Text
  pub host : Text
  pub user : Option Text
  pub path : Text
  pub raw_query : Text
  pub fragment : Text

abbrev pub ParseUrl : Type 0
ParseUrl = Text → Option ParsedUrl

abbrev is_none {ℓ} : {A : Type ℓ} → Option A → Bool
is_none none = true
is_none (some a) = false

bare_origin : Option ParsedUrl → Bool
bare_origin none = false
bare_origin (some u) =
    (u.scheme == ascii "http" || u.scheme == ascii "https")
    && not (is_empty u.host)
    && is_none u.user
    && is_empty u.path
    && is_empty u.raw_query
    && is_empty u.fragment

-- `validCORSOrigin`.
unfoldable pub valid_cors_origin : ParseUrl → Text → Bool
unfolding bare_origin
valid_cors_origin parse origin = bare_origin (parse origin)

-- The loop over the origins: the set, and `wildcard`.
unfoldable pub compile_origins :
    ParseUrl → List Text → List Text × Bool → Result CorsError (List Text × Bool)
compile_origins parse [] acc = ok acc
compile_origins parse (o ∷ os) (set, wildcard) =
    let origin = trim_space o in
    let star = origin == ascii "*" in
    let rest = compile_origins parse os (add_key origin set, wildcard || star) in
    if is_empty origin
    then err origin_empty
    else if not star && not (valid_cors_origin parse origin)
    then err origin_invalid
    else rest

unfoldable pub compile_cors_methods : List Text → List Text → Result CorsError (List Text)
compile_cors_methods [] set = ok set
compile_cors_methods (m ∷ ms) set =
    let method = to_upper (trim_space m) in
    let rest = compile_cors_methods ms (add_key method set) in
    if is_http_token method then rest else err method_invalid

-- `policy.headers[key] = value`.
put_pair : Text → Text → List (Text × Text) → List (Text × Text)
put_pair k v [] = (k, v) ∷ []
put_pair k v ((j, w) ∷ m) = if j == k then (k, v) ∷ m else (j, w) ∷ put_pair k v m

unfoldable pub compile_cors_headers :
    List Text → List (Text × Text) → Result CorsError (List (Text × Text))
unfolding put_pair
compile_cors_headers [] m = ok m
compile_cors_headers (h ∷ hs) m =
    let header = canonical_header_key (trim_space h) in
    let rest = compile_cors_headers hs (put_pair (to_lower header) header m) in
    if is_http_token header then rest else err header_invalid

compiled_policy : CorsConfig → List Text → Bool → List Text → List (Text × Text) → CorsPolicy
compiled_policy c origins wildcard methods headers = record {
  origins = origins;
  wildcard = wildcard;
  methods = methods;
  headers = headers;
  allow_origin_value = if wildcard then ascii "*" else [];
  methods_value = join (sort_texts methods) b',';
  headers_value = join (sort_texts (map (λ h. h.1) headers)) b',';
  credentials = c.allow_credentials;
  max_age = c.max_age;
}

-- `newCORSPolicy` of a configuration that is not nil.
unfoldable pub new_cors_policy : ParseUrl → CorsConfig → Result CorsError CorsPolicy
unfolding compiled_policy
new_cors_policy parse c = do
  refuse (eqb (length c.allowed_origins) 0) origins_required
  (origins, wildcard) ← compile_origins parse c.allowed_origins ([], false)
  refuse (wildcard && (not (eqb (length origins) 1) || c.allow_credentials)) wildcard_combined
  methods ← compile_cors_methods (or_default c.allowed_methods default_cors_methods) []
  headers ← compile_cors_headers (or_default c.allowed_headers default_cors_headers) []
  refuse (is_negative c.max_age) max_age_negative
  ok (compiled_policy c origins wildcard methods headers)
