-- ===== src/Session/Key.antt =====
-- sdk/go/gateway/sessionauth/key.go: the keys of the sessions of a project, in one name space.
pub mod Escaping
pub mod Distinct
use stellarmesh_sdk.Base.{
  ℕ, ◌/◌, ◌%◌, ◌-◌, ◌+◌, Bool, true, false, not, ◌&&◌, ◌||◌, List, [], ◌∷◌, ◌++◌, Option, none,
  some, ltb, leb, eqb, all, any, if◌then◌else◌, Result, ok, err, refuse, ◌>>◌,
}
use stellarmesh_sdk.Text.{Text, ascii, contains_byte}
use stellarmesh_sdk.Gateway.Token.{is_alphanumeric}
use stellarmesh_sdk.Gateway.Route.{is_empty}

pub data KeyError : Type 0 where
  separator_invalid scope_and_id_required : KeyError

-- `KeyBuilder`: its separator, which is empty in the zero value.
abbrev pub KeyBuilder : Type 0
KeyBuilder = Text

unfoldable pub is_separator_byte : ℕ → Bool
is_separator_byte c =
    leb 33 c
    && (leb c 126
        && (not (eqb c b'%')
            && (not (eqb c b'{') && (not (eqb c b'}') && not (is_alphanumeric c)))))

-- `KeyBuilder.delimiter`.
abbrev pub delimiter : KeyBuilder → Text
delimiter [] = ascii ":"
delimiter (c ∷ s) = c ∷ s

-- `NewKeyBuilder`.
unfoldable pub new_key_builder : Text → Result KeyError KeyBuilder
new_key_builder separator =
    refuse (not (all is_separator_byte (delimiter separator))) separator_invalid
    >> ok (delimiter separator)

-- `hex[d]`.
abbrev pub hex_digit : ℕ → ℕ
hex_digit d = if ltb d 10 then b'0' + d else b'A' + (d - 10)

unfoldable pub is_escaped : KeyBuilder → ℕ → Bool
is_escaped b c =
    leb c 32
    || (leb 127 c || (eqb c b'%' || (eqb c b'{' || (eqb c b'}' || contains_byte (delimiter b) c))))

-- `KeyBuilder.escape`.
unfoldable pub escape : KeyBuilder → Text → Text
escape b [] = []
escape b (c ∷ s) =
    if is_escaped b c
    then b'%' ∷ hex_digit (c / 16) ∷ hex_digit (c % 16) ∷ escape b s
    else c ∷ escape b s

-- `KeyBuilder.prefix`.
unfoldable pub key_prefix : KeyBuilder → Text → Text → Text
key_prefix b scope kind = escape b scope ++ delimiter b ++ kind ++ delimiter b

-- `KeyBuilder.key`.
unfoldable pub key : KeyBuilder → (scope kind id : Text) → Result KeyError Text
key b scope kind id =
    refuse (is_empty scope || is_empty id) scope_and_id_required
    >> ok (key_prefix b scope kind ++ escape b id)

unfoldable pub session_key : KeyBuilder → (project_scope session_id : Text) → Result KeyError Text
session_key b project_scope session_id = key b project_scope (ascii "session") session_id

unfoldable pub user_sessions_key :
    KeyBuilder → (project_scope user_id : Text) → Result KeyError Text
user_sessions_key b project_scope user_id = key b project_scope (ascii "user_sessions") user_id
