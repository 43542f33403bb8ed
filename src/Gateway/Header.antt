-- ===== src/Gateway/Header.antt =====
-- `http.Header`: field values by canonical field name.
use stellarmesh_sdk.Base.{◌≡◌, refl, Bool, true, List, [], ◌∷◌, ◌++◌, all, eqb, if◌then◌else◌}
use stellarmesh_sdk.Text.{Text, ◌==◌, upper_byte, lower_byte}
use stellarmesh_sdk.Gateway.Token.{is_token_byte}

-- `http.CanonicalHeaderKey`: a capital at the start and after each hyphen, if every byte is a
-- token byte; any other name is left alone.
canonical_from : Bool → Text → Text
canonical_from upper [] = []
canonical_from upper (c ∷ s) =
    (if upper then upper_byte c else lower_byte c) ∷ canonical_from (eqb c b'-') s

unfoldable pub canonical_header_key : Text → Text
unfolding canonical_from
canonical_header_key name = if all is_token_byte name then canonical_from true name else name

-- The Go map; a field that is absent has no values.
abbrev pub Header : Type 0
Header = Text → List Text

abbrev pub no_header : Header
no_header name = []

unfoldable pub values : Header → Text → List Text
values h name = h (canonical_header_key name)

first_or_empty : List Text → Text
first_or_empty [] = []
first_or_empty (v ∷ vs) = v

unfoldable pub get : Header → Text → Text
unfolding first_or_empty
get h name = first_or_empty (values h name)

unfoldable pub put : Header → Text → List Text → Header
put h name vs field = if canonical_header_key name == field then vs else h field

unfoldable pub set : Header → Text → Text → Header
set h name v = put h name (v ∷ [])

unfoldable pub add : Header → Text → Text → Header
add h name v = put h name (values h name ++ v ∷ [])

unfoldable pub del : Header → Text → Header
del h name = put h name []

-- The header after a write, at any field.
pub values-put :
    (h : Header) (name field : Text) (vs : List Text)
    → values (put h name vs) field
      ≡ (if canonical_header_key name == canonical_header_key field then vs else values h field)
unfolding values put
values-put h name field vs = refl
