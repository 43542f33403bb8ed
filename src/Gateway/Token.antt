-- ===== src/Gateway/Token.antt =====
-- sdk/go/gateway/http_token.go: the field names and methods that the gateway accepts.
use stellarmesh_sdk.Base.{ℕ, Bool, false, ◌∷◌, [], ◌&&◌, ◌||◌, leb, all}
use stellarmesh_sdk.Text.{Text, ascii, contains_byte}

abbrev pub is_alphanumeric : ℕ → Bool
is_alphanumeric c = leb b'a' c && leb c b'z' || leb b'A' c && leb c b'Z' || leb b'0' c && leb c b'9'

-- The characters of the `switch`.
abbrev pub token_marks : Text
token_marks = ascii "!#$%&'*+-.^_`|~"

unfoldable pub is_token_byte : ℕ → Bool
is_token_byte c = is_alphanumeric c || contains_byte token_marks c

unfoldable pub is_http_token : Text → Bool
is_http_token [] = false
is_http_token (c ∷ s) = all is_token_byte (c ∷ s)
