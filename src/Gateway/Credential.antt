-- ===== src/Gateway/Credential.antt =====
-- sdk/go/gateway/credential.go: the credential that a request carries. `""` is a missing one.
pub mod Grammar
use stellarmesh_sdk.Base.{
  ℕ, Bool, true, false, not, ◌&&◌, ◌||◌, List, [], ◌∷◌, Option, none, some, eqb, if◌then◌else◌,
}
use stellarmesh_sdk.Text.{Text, ascii, ◌==◌, trim_space, cut, equal_fold, trim_left, contains_byte}
use stellarmesh_sdk.Gateway.Token.{is_alphanumeric, is_http_token}
use stellarmesh_sdk.Gateway.Header.{values}
use stellarmesh_sdk.Gateway.Types.{invalid_credential, Request, Call, returns, fails}

-- The characters of a token before its padding.
unfoldable pub is_token68_byte : ℕ → Bool
is_token68_byte c = is_alphanumeric c || contains_byte (ascii "-._~+/") c

-- The loop over the token's characters; the flag is `padding`.
unfoldable pub scan_token : Bool → Text → Bool
scan_token padding [] = true
scan_token padding (c ∷ s) = elim (eqb c b'=') [
  | true ↦ scan_token true s
  | false ↦ elim (padding || not (is_token68_byte c)) [ true ↦ false | false ↦ scan_token false s ]
]

-- The checks of the token: not empty, its characters, and no padding at its start.
unfoldable pub is_token68 : Text → Bool
is_token68 [] = false
is_token68 (c ∷ s) = scan_token false (c ∷ s) && not (eqb c b'=')

checked_token : Text → Call Text
checked_token token = if is_token68 token then returns token else fails invalid_credential

scheme_and_token : Option (Text × Text) → Call Text
unfolding checked_token
scheme_and_token none = fails invalid_credential
scheme_and_token (some (scheme, rest)) =
    if equal_fold scheme (ascii "Bearer")
    then checked_token (trim_left rest b' ')
    else fails invalid_credential

one_value : List Text → Call Text
unfolding scheme_and_token
one_value [] = returns []
one_value (v ∷ []) = scheme_and_token (cut (trim_space v) b' ')
one_value (v ∷ w ∷ vs) = fails invalid_credential

-- `BearerCredential`.
unfoldable pub bearer_credential : Request → Call Text
unfolding one_value
bearer_credential r = one_value (values r.header (ascii "Authorization"))

-- `http.ParseCookie` of one line: the cookies' names and values, or an error.
abbrev pub ParseCookie : Type 0
ParseCookie = Text → Option (List (Text × Text))

-- The loop over the cookies of a line; the state is `found` with `value`, and `none` is an error.
scan_cookies : Text → List (Text × Text) → Option Text → Option (Option Text)
scan_cookies name [] found = some found
scan_cookies name ((n, v) ∷ cookies) found = elim (n == name) [
  | false ↦ scan_cookies name cookies found
  | true ↦ elim found [ none ↦ scan_cookies name cookies (some v) | some w ↦ none ]
]

-- The loop over the lines.
scan_lines : ParseCookie → Text → List Text → Option Text → Option (Option Text)
unfolding scan_cookies
scan_lines parse name [] found = some found
scan_lines parse name (line ∷ lines) found = elim (parse line) [
  | none ↦ none
  | some cookies ↦ elim (scan_cookies name cookies found) [
    | none ↦ none
    | some found' ↦ scan_lines parse name lines found'
  ]
]

cookie_value : Option (Option Text) → Call Text
cookie_value none = fails invalid_credential
cookie_value (some none) = returns []
cookie_value (some (some v)) = returns v

-- `CookieCredential`; `none` is the error for a name that is no token.
unfoldable pub cookie_credential : ParseCookie → Text → Option (Request → Call Text)
unfolding cookie_value scan_lines
cookie_credential parse name =
    if is_http_token name
    then some (λ r. cookie_value (scan_lines parse name (values r.header (ascii "Cookie")) none))
    else none
