-- ===== src/Session/Load.antt =====
-- sdk/go/gateway/sessionauth/store.go: `escape` and `load` of `sessionScript`, with the rows that it
-- decodes. cjson and SHA-1 are parameters.
pub mod Loaded
use stellarmesh_sdk.Base.{
  ◌≡◌, ℕ, suc, ◌<◌, ◌-◌, ◌+◌, ◌/◌, ◌%◌, ◌^◌, max, Bool, true, false, not, ◌&&◌, ◌||◌, List, [], ◌∷◌,
  ◌++◌, Option, none, some, ltb, leb, eqb, all, if◌then◌else◌, length, ℤ, pos, negsuc, pos_part,
  Result, ok, err, refuse, ◌>>=◌, ◌>>◌,
}
use stellarmesh_sdk.Text.{Text, ascii, ◌==◌, contains_byte}
use stellarmesh_sdk.Gateway.Token.{is_alphanumeric}
use stellarmesh_sdk.Gateway.Route.{is_empty}
use stellarmesh_sdk.Session.Key.{hex_digit}
use stellarmesh_sdk.Session.Redis.{Members, Entry, absent, string_value, sorted_set, Redis}
use stellarmesh_sdk.Session.Call.{
  ScriptOp, create_op, lookup_op, renew_op, revoke_op, list_op, revoke_user_op, ScriptCall, Reply,
  ReplyItem, text,
}

-- A value that cjson decodes: a string, a whole number, or any other.
pub data Field : Type 0 where
  word : Text → Field
  whole : ℤ → Field
  unknown : Field

pub record Row : Type 0 where
  pub version : Field
  pub id : Field
  pub user_id : Field
  pub identity : Field
  pub identity_hash : Field
  pub created_at : Field
  pub expires_at : Field

-- A field of an identity that holds a table: missing or null, the pairs of a table, or any other.
pub data Table : Type 0 where
  nothing scalar : Table
  pairs : List (Field × Field) → Table

pub record IdentityRow : Type 0 where
  pub user_id : Field
  pub roles : Table
  pub attributes : Table

-- How the script stops before it writes: with `SESSION_CORRUPT`, or with an answer.
pub data Stop : Type 0 where
  corrupt collision missing : Stop

-- `row`, with the values of the fields that were checked.
pub record Item : Type 0 where
  pub row : Row
  pub id : Text
  pub user : Text
  pub created : ℕ
  pub expires : ℕ
  pub raw : Text
  pub key : Text

-- `escape` of the script.
unfoldable pub lua_escape : Text → Text → Text
lua_escape separator [] = []
lua_escape separator (b ∷ s) =
    let rest = lua_escape separator s in
    if leb b 32
      || (leb 127 b || (eqb b b'%' || (eqb b b'{' || (eqb b b'}' || contains_byte separator b))))
    then b'%' ∷ hex_digit (b / 16) ∷ hex_digit (b % 16) ∷ rest
    else b ∷ rest

abbrev pub session_key_of : ScriptCall → Text → Text
session_key_of call sid = call.session_prefix ++ lua_escape call.separator sid

abbrev pub user_key_of : ScriptCall → Text → Text
user_key_of call user = call.user_prefix ++ lua_escape call.separator user

need {ℓ} : {A : Type ℓ} → Option A → Result Stop A
need none = err corrupt
need (some a) = ok a

word_of : Field → Option Text
word_of (word s) = some s
word_of _ = none

natural_of : Field → Option ℕ
natural_of (whole (pos n)) = some n
natural_of _ = none

abbrev is_word : Field → Bool
is_word (word s) = true
is_word _ = false

abbrev is_number : Field → Bool
is_number (whole z) = true
is_number _ = false

abbrev is_version_one : Field → Bool
is_version_one (whole (pos n)) = eqb n 1
is_version_one _ = false

abbrev equals : Field → Text → Bool
equals (word s) t = s == t
equals _ t = false

good_pairs : (Field → Bool) → (Field → Bool) → Table → Bool
good_pairs key value nothing = true
good_pairs key value scalar = false
good_pairs key value (pairs ps) = all (λ p. key p.0 && value p.1) ps

-- `[^%w_-]` finds nothing.
is_id_byte : ℕ → Bool
is_id_byte c = is_alphanumeric c || (eqb c b'_' || eqb c b'-')

is_good_identity : IdentityRow → Text → Bool
unfolding good_pairs
is_good_identity i user =
    equals i.user_id user
    && (good_pairs is_number is_word i.roles && good_pairs is_word (λ v. true) i.attributes)

is_good_id : Text → Bool
unfolding is_id_byte
is_good_id sid = eqb (length sid) 43 && all is_id_byte sid

are_good_times : (now created expires : ℕ) → Bool
are_good_times now created expires =
    ltb 0 created && (leb created now && (ltb created expires && leb expires (2 ^ 53 - 1)))

abbrev has_expiry : Option ℕ → Bool
has_expiry none = false
has_expiry (some at) = true

-- cjson, which decodes a row and an identity and encodes a row, and SHA-1 in hexadecimal.
pub record Codec : Type 0 where
  pub decode_row : Text → Option Row
  pub decode_identity : Text → Option IdentityRow
  pub encode_row : Row → Text
  pub sha1 : Text → Text

module _ {World : Type 0} (redis : Redis World) (codec : Codec) where
  -- `load`, from the string under the key.
  load_string : World → Text → Text → Text → Option ℕ → Result Stop (Option Item)
  unfolding need word_of natural_of is_good_identity is_good_id are_good_times
  load_string w key sid raw expiry = need (codec.decode_row raw) >>= λ r.
      refuse (not (is_version_one r.version) || not (equals r.id sid)) corrupt
      >> (need (word_of r.identity) >>= λ identity.
          refuse (not (equals r.identity_hash (codec.sha1 identity))) corrupt
          >> (need (word_of r.user_id) >>= λ user.
              refuse (is_empty user) corrupt
              >> (need (natural_of r.created_at) >>= λ created.
                  need (natural_of r.expires_at) >>= λ expires.
                  refuse
                    (not (are_good_times (redis.now w) created expires) || not (is_good_id sid))
                    corrupt
                  >> (need (codec.decode_identity identity) >>= λ i.
                      refuse (not (is_good_identity i user) || not (has_expiry expiry)) corrupt
                      >> ok (
                          if leb expires (redis.now w)
                          then none
                          else some (record {
                            row = r;
                            id = sid;
                            user = user;
                            created = created;
                            expires = expires;
                            raw = raw;
                            key = key;
                          }))))))

  unfoldable pub load_entry : World → Text → Text → Entry → Result Stop (Option Item)
  unfolding load_string
  load_entry w key sid absent = ok none
  load_entry w key sid (string_value raw expiry) = load_string w key sid raw expiry
  load_entry w key sid _ = err corrupt

  -- `load`.
  unfoldable pub load : ScriptCall → World → Text → Result Stop (Option Item)
  unfolding load_entry
  load call w sid =
      load_entry w (session_key_of call sid) sid (redis.entry w (session_key_of call sid))
