-- ===== src/Session/Base64.antt =====
-- `base64.RawURLEncoding`, and `validSessionID` of sdk/go/gateway/sessionauth/store.go.
pub mod Decoded
use mathlib.Core.Option
use stellarmesh_sdk.Base.{
  ℕ, ◌+◌, ◌-◌, ◌*◌, ◌/◌, ◌%◌, Bool, true, false, ◌&&◌, ◌||◌, List, [], ◌∷◌, Option, none, some, ltb,
  leb, eqb, if◌then◌else◌, length,
}
use stellarmesh_sdk.Text.{Text, ◌==◌}

unfoldable pub digit : ℕ → ℕ
digit n =
    if ltb n 26
    then b'A' + n
    else if ltb n 52
    then b'a' + (n - 26)
    else if ltb n 62
    then b'0' + (n - 52)
    else if eqb n 62
    then b'-'
    else b'_'

abbrev between : ℕ → ℕ → ℕ → Bool
between low high c = leb low c && leb c high

unfoldable pub digit_value : ℕ → Option ℕ
digit_value c =
    if between b'A' b'Z' c
    then some (c - b'A')
    else if between b'a' b'z' c
    then some (c - b'a' + 26)
    else if between b'0' b'9' c
    then some (c - b'0' + 52)
    else if eqb c b'-'
    then some 62
    else if eqb c b'_'
    then some 63
    else none

-- `EncodeToString`.
unfoldable pub encode : Text → Text
encode [] = []
encode (a ∷ []) = digit (a / 4) ∷ digit (a % 4 * 16) ∷ []
encode (a ∷ b ∷ []) = digit (a / 4) ∷ digit (a % 4 * 16 + b / 16) ∷ digit (b % 16 * 4) ∷ []
encode (a ∷ b ∷ c ∷ s) =
    digit (a / 4)
    ∷ digit (a % 4 * 16 + b / 16)
    ∷ digit (b % 16 * 4 + c / 64)
    ∷ digit (c % 64)
    ∷ encode s

abbrev is_line_end : ℕ → Bool
is_line_end c = eqb c 10 || eqb c 13

-- The values of the digits; the decoder skips ends of lines.
values_of : Text → Option (List ℕ)
values_of [] = some []
values_of (c ∷ s) =
    let rest = values_of s in
    if is_line_end c
    then rest
    else elim (digit_value c) [ none ↦ none | some v ↦ Option.map (λ vs. v ∷ vs) rest ]

-- The bits that are left over are not looked at.
from_values : List ℕ → Option Text
from_values [] = some []
from_values (w ∷ []) = none
from_values (w ∷ x ∷ []) = some ((w * 4 + x / 16) ∷ [])
from_values (w ∷ x ∷ y ∷ []) = some ((w * 4 + x / 16) ∷ (x % 16 * 16 + y / 4) ∷ [])
from_values (w ∷ x ∷ y ∷ z ∷ s) =
    Option.map (λ t. (w * 4 + x / 16) ∷ (x % 16 * 16 + y / 4) ∷ (y % 4 * 64 + z) ∷ t)
      (from_values s)

-- `DecodeString`.
unfoldable pub decode : Text → Option Text
unfolding values_of from_values
decode s = elim (values_of s) [ none ↦ none | some vs ↦ from_values vs ]

is_encoded : Text → Option Text → Bool
is_encoded id none = false
is_encoded id (some bytes) = eqb (length bytes) 32 && encode bytes == id

-- `validSessionID`.
unfoldable pub valid_session_id : Text → Bool
unfolding is_encoded
valid_session_id id = eqb (length id) 43 && is_encoded id (decode id)
