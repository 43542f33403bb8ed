-- ===== src/Gateway/RequestId.antt =====
-- sdk/go/gateway/request_id.go: the identifier that each request is given. The generator, 16
-- random bytes in hexadecimal by default, is a parameter.
pub mod Safe
pub mod Panics
use stellarmesh_sdk.Base.{
  ℕ, Bool, false, not, ◌&&◌, ◌||◌, List, [], ◌∷◌, Option, none, some, leb, ℤ, pos, ltℤ, is_zero,
  pos_part, all, length, if◌then◌else◌,
}
use stellarmesh_sdk.Text.{Text, ascii, trim_space}
use stellarmesh_sdk.Gateway.Token.{is_http_token}
use stellarmesh_sdk.Gateway.Header.{values, del}
use stellarmesh_sdk.Gateway.Types.{failure, Request, Call, returns, fails, panics}

pub record RequestIdConfig : Type 0 where
  pub header : Text
  pub max_length : ℕ
  pub generate : Call Text
  pub trust_incoming : Bool

-- As it is configured: `generate` may be nil.
pub record RequestIdOptions : Type 0 where
  pub header : Text
  pub max_length : ℤ
  pub generate : Option (Call Text)
  pub trust_incoming : Bool

abbrev or_default : Option (Call Text) → Call Text → Call Text
or_default none g = g
or_default (some h) g = h

abbrev header_or_default : Text → Text
header_or_default [] = ascii "X-Request-ID"
header_or_default (c ∷ s) = c ∷ s

abbrev length_or_default : ℤ → ℤ
length_or_default n = if is_zero n then pos 128 else n

-- `normalizeRequestIDConfig`; `none` is the error that it returns.
unfoldable pub normalize_request_id_config : Call Text → RequestIdOptions → Option RequestIdConfig
normalize_request_id_config default_generate c =
    let header = header_or_default (trim_space c.header) in
    let max_length = length_or_default c.max_length in
    if not (is_http_token header) || (ltℤ max_length (pos 16) || ltℤ (pos 1024) max_length)
    then none
    else some (record {
      header = header;
      max_length = pos_part max_length;
      generate = or_default c.generate default_generate;
      trust_incoming = c.trust_incoming;
    })

abbrev pub is_visible : ℕ → Bool
is_visible c = leb 0x21 c && leb c 0x7e

unfoldable pub is_safe_request_id : Text → ℕ → Bool
is_safe_request_id [] max_length = false
is_safe_request_id (c ∷ s) max_length = leb (length (c ∷ s)) max_length && all is_visible (c ∷ s)

-- The one incoming value, if there is just one and it is to be trusted.
trusted_value : RequestIdConfig → List Text → Option Text
trusted_value c (v ∷ []) =
    if c.trust_incoming && is_safe_request_id (trim_space v) c.max_length
    then some (trim_space v)
    else none
trusted_value c _ = none

checked : RequestIdConfig → Call Text → Call Text
checked c (returns v) =
    if is_safe_request_id v c.max_length
    then returns v
    else fails (failure (ascii "request ID generator returned an invalid value"))
checked c (fails e) = fails e
checked c (panics p) = panics p

adopt : RequestIdConfig → Option Text → Call Text
unfolding checked
adopt c (some v) = returns v
adopt c none = checked c c.generate

-- `resolveRequestID`: the request without the incoming values, and the identifier.
unfoldable pub resolve_request_id : RequestIdConfig → Request → Request × Call Text
unfolding adopt trusted_value
resolve_request_id c r = (
  record r { header = del r.header c.header },
  adopt c (trusted_value c (values r.header c.header)),
)
