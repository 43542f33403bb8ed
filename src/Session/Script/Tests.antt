-- ===== src/Session/Script/Tests.antt =====
-- Runs of the script of sdk/go/gateway/sessionauth/store.go, on keys that are a function.
use stellarmesh_sdk.Base.{
  ◌∙◌, ◌≡◌, ◌≤◌, refl, ℕ, suc, ◌+◌, [], ◌∷◌, ◌++◌, Option, none, some, ltb, if◌then◌else◌, length,
  pos, ok, arith, ℕ_discrete, ap, ok-inj, sym,
}
use stellarmesh_sdk.Text.{trim_space, has_prefix, Text, ascii, ◌==◌, text_discrete, contains_byte}
use stellarmesh_sdk.Gateway.Types.{Identity}
use stellarmesh_sdk.Session.Key.{
  session_key, user_sessions_key, escape, is_escaped, is_separator_byte, key, key_prefix,
  new_key_builder,
}
use stellarmesh_sdk.Session.Redis.{
  Members, Entry, absent, string_value, sorted_set, removed, added, expiring, Redis,
}
use stellarmesh_sdk.Session.Call.{
  ScriptCall, Session, StoreConfig, usable_client, Store, create_op, revoke_user_op, script_call,
  new_store,
}
use stellarmesh_sdk.Session.Store.{decode_session, StoredSession, create, run}
use stellarmesh_sdk.Session.Store.Made.{script_call-keys}
use stellarmesh_sdk.Session.Store.Scripted.{session_count, create-limit}
use stellarmesh_sdk.Session.Store.Isolated.{run-isolated}
use stellarmesh_sdk.Session.Script.Isolation.{ActsFor}
use stellarmesh_sdk.Session.Load.{
  Field, word, whole, Row, nothing, Codec, Item, session_key_of, user_key_of, load, lua_escape,
}
use stellarmesh_sdk.Session.Script.{session_script, Plan, prepare, scan}
use stellarmesh_sdk.Session.Base64.{digit, encode, valid_session_id, decode, digit_value}
use stellarmesh_sdk.Text.Utf8.{is_valid_utf8}

abbrev World : Type 0
World = Text → Entry

abbrev at_end : Text → ℕ → Members → Members
at_end m score ms = ms ++ (m, some (pos score)) ∷ []

length-at_end : (m : Text) (score : ℕ) (ms : Members) → length (at_end m score ms) ≡ suc (length ms)
length-at_end m score [] = refl
length-at_end m score (x ∷ ms) = omega (arith, length-at_end m score ms)

abbrev redis : Redis World
redis = record {
  now = λ w. 1500;
  entry = λ w j. w j;
  del = λ k w j. if k == j then absent else w j;
  set_px = λ k raw ttl w j. if k == j then string_value raw (some (1500 + ttl)) else w j;
  zrem = λ k m w j. if k == j then removed m (w j) else w j;
  zadd = λ k score m w j. if k == j then added at_end m score (w j) else w j;
  pexpireat = λ k at w j. if k == j then if ltb 1500 at then expiring at (w j) else absent else w j;
  placed = at_end;
  entry-del = λ k j w. refl;
  entry-set_px = λ k raw ttl j w h. refl;
  entry-zrem = λ k m j w. refl;
  entry-zadd = λ k score m j w. refl;
  entry-pexpireat = λ k at j w. refl;
  length-placed = length-at_end;
}

-- The IDs.
abbrev old_id : Text
old_id = ascii "BBBBBBBBBBBBBBBBBBBBBBBBBBBBBBBBBBBBBBBBBBA"

abbrev new_id : Text
new_id = ascii "AAAAAAAAAAAAAAAAAAAAAAAAAAAAAAAAAAAAAAAAAAA"

abbrev bob_id : Text
bob_id = ascii "CCCCCCCCCCCCCCCCCCCCCCCCCCCCCCCCCCCCCCCCCCA"

-- A stored record is its ID, and an identity is its user ID.
abbrev owner : Text → Text
owner id = if id == bob_id then ascii "bob" else ascii "ann"

abbrev row : Text → Row
row id = record {
  version = whole (pos 1);
  id = word id;
  user_id = word (owner id);
  identity = word (owner id);
  identity_hash = word (owner id);
  created_at = whole (pos 1000);
  expires_at = whole (pos 2000);
}

abbrev raw_of : Field → Text
raw_of (word s) = s
raw_of _ = []

abbrev codec : Codec
codec = record {
  decode_row = λ raw. some (row raw);
  decode_identity =
      λ raw. some (record { user_id = word raw; roles = nothing; attributes = nothing });
  encode_row = λ r. raw_of r.id;
  sha1 = λ s. s;
}

abbrev session_key_text : Text → Text
session_key_text id = ascii "p:session:" ++ id

abbrev user_key_text : Text → Text
user_key_text user = ascii "p:user_sessions:" ++ user

abbrev keys : World
keys j =
    if j == user_key_text (ascii "ann")
    then sorted_set ((old_id, some (pos 1000)) ∷ []) (some 2000)
    else if j == session_key_text old_id
    then string_value old_id (some 2000)
    else if j == session_key_text bob_id
    then string_value bob_id (some 2000)
    else absent

abbrev config : StoreConfig
config = record {
  client = usable_client;
  project_scope = ascii "p";
  key_separator = [];
  max_sessions_per_user = pos 1;
}

abbrev store : Store
store = record { scope = ascii "p"; keys = ascii ":"; limit = 1 }

made : new_store config ≡ ok store
unfolding new_store new_key_builder is_separator_byte
made = refl

session_keys : session_key store.keys store.scope bob_id ≡ ok (session_key_text bob_id)
unfolding session_key key key_prefix escape is_escaped contains_byte
session_keys = refl

user_keys :
    user_sessions_key store.keys store.scope (ascii "ann") ≡ ok (user_key_text (ascii "ann"))
unfolding user_sessions_key key key_prefix escape is_escaped contains_byte
user_keys = refl

script_call-keys_example :
    (session_key_of (script_call store create_op new_id (ascii "ann") (pos 1_000_000) []) bob_id
      ≡ session_key_text bob_id)
    × (user_key_of
          (script_call store create_op new_id (ascii "ann") (pos 1_000_000) [])
          (ascii "ann")
        ≡ user_key_text (ascii "ann"))
script_call-keys_example =
    script_call-keys store create_op new_id (ascii "ann") (pos 1_000_000) [] bob_id (ascii "ann")
      (session_key_text bob_id) (user_key_text (ascii "ann")) session_keys user_keys

abbrev ann : Identity
ann = record { user_id = ascii "ann"; roles = []; attributes = none }

abbrev decode_record : Text → Option StoredSession
decode_record value = some (record {
  version = pos 1;
  id = value;
  user_id = owner value;
  identity = owner value;
  created_at = pos 1000;
  expires_at = pos 2000;
})

abbrev decode_identity : Text → Option Identity
decode_identity value = some ann

abbrev encode_identity : Identity → Option Text
encode_identity i = some i.user_id

abbrev zeros : Text
zeros =
    0 ∷ 0 ∷ 0 ∷ 0 ∷ 0 ∷ 0 ∷ 0 ∷ 0 ∷ 0 ∷ 0 ∷ 0 ∷ 0 ∷ 0 ∷ 0 ∷ 0 ∷ 0 ∷ 0 ∷ 0 ∷ 0 ∷ 0 ∷ 0 ∷ 0 ∷ 0 ∷ 0
    ∷ 0 ∷ 0 ∷ 0 ∷ 0 ∷ 0 ∷ 0 ∷ 0 ∷ 0 ∷ []

abbrev random : World → Option Text × World
random w = (some zeros, w)

abbrev session : Session
session = record { id = new_id; identity = ann; created_at = pos 1000; expires_at = pos 2000 }

abbrev run_of_create : World
run_of_create =
    (create decode_record decode_identity World (session_script redis codec) random encode_identity
      store ann (pos 1_000_000) keys).1

creates :
    (create decode_record decode_identity World
      (session_script redis codec)
      random
      encode_identity
      store
      ann
      (pos 1_000_000)
      keys).0
    ≡ ok session
unfolding create trim_space has_prefix is_valid_utf8 session_script text_discrete session_key key
    encode key_prefix escape is_escaped contains_byte digit lua_escape load decode_session
    valid_session_id ℕ_discrete decode digit_value
creates = refl

-- The older session made room.
evicts : run_of_create (session_key_text old_id) ≡ absent
unfolding create trim_space has_prefix is_valid_utf8 session_script text_discrete session_key key
    encode key_prefix escape is_escaped contains_byte digit lua_escape load
evicts = refl

create-limit_example : session_count redis (user_key_text (ascii "ann")) run_of_create ≤ 1
create-limit_example =
    create-limit World redis codec decode_record decode_identity random encode_identity config store
      ann (pos 1_000_000) keys session (user_key_text (ascii "ann")) made user_keys creates

-- Bob's session, which a revocation of Ann's leaves alone.
abbrev revocation : ScriptCall
revocation = script_call store revoke_user_op [] (ascii "ann") (pos 0) []

abbrev bob_item : Item
bob_item = record {
  row = row bob_id;
  id = bob_id;
  user = ascii "bob";
  created = 1000;
  expires = 2000;
  raw = bob_id;
  key = session_key_text bob_id;
}

lives : load redis codec revocation keys bob_id ≡ ok (some bob_item)
unfolding load script_call text_discrete key_prefix escape is_escaped contains_byte lua_escape
lives = refl

for_ann : (p : Plan) → prepare redis codec revocation keys ≡ ok p → p.user ≡ ascii "ann"
unfolding prepare script_call text_discrete key_prefix escape is_escaped contains_byte lua_escape
    scan load
for_ann p h = sym (ap (λ p. p.user) (ok-inj h))

initial : Text → ℕ
initial [] = 0
initial (c ∷ s) = c

not_for_bob : ¬ (ActsFor redis codec revocation keys (ascii "bob"))
unfolding initial
not_for_bob (p, e, same) =
    let h : ◌≡◌ {A = ℕ} b'a' b'b' = ap initial (sym (for_ann p e) ∙ same) in absurd (omega arith)

run-isolated_example :
    (run decode_record decode_identity World
        (session_script redis codec)
        random
        encode_identity
        store
        revoke_user_op
        []
        (ascii "ann")
        (pos 0)
        []
        keys).1
      (session_key_text bob_id)
    ≡ string_value bob_id (some 2000)
unfolding text_discrete
run-isolated_example =
    run-isolated World redis codec decode_record decode_identity random encode_identity config store
      revoke_user_op [] (ascii "ann") (pos 0) [] keys bob_id (session_key_text bob_id) bob_item made
      (omega arith) refl session_keys lives not_for_bob
