-- ===== src/Session/StoreTests.antt =====
-- Tests of the session store, and the theorems at a Redis that knows one session.
use stellarmesh_sdk.Base.{◌≡◌, refl, true, [], ◌∷◌, Option, none, some, pos, ok, All, arith}
use stellarmesh_sdk.Text.{Text, ascii, has_prefix, text_discrete, trim_space}
use stellarmesh_sdk.Gateway.Types.{Identity, returns}
use stellarmesh_sdk.Session.Base64.{encode, valid_session_id, decode, digit, digit_value}
use stellarmesh_sdk.Session.Base64.Decoded.{AreBytes, encode-valid_session_id}
use stellarmesh_sdk.Session.Call.{Session, Store, ScriptCall, Reply, text}
use stellarmesh_sdk.Session.Store.{StoredSession, create, lookup, list_by_user, decode_session}
use stellarmesh_sdk.Session.Store.Decoded.{IsSession}
use stellarmesh_sdk.Session.Store.Sound.{IsCreated, create-IsCreated, list_by_user-IsSession}
use stellarmesh_sdk.Session.Authenticator.{authenticate, accepted}
use stellarmesh_sdk.Session.Authenticator.Accepts.{Decided, authenticate-Decided}
use stellarmesh_sdk.Text.Utf8.{is_valid_utf8}

abbrev zeros : Text
zeros =
    0 ∷ 0 ∷ 0 ∷ 0 ∷ 0 ∷ 0 ∷ 0 ∷ 0 ∷ 0 ∷ 0 ∷ 0 ∷ 0 ∷ 0 ∷ 0 ∷ 0 ∷ 0 ∷ 0 ∷ 0 ∷ 0 ∷ 0 ∷ 0 ∷ 0 ∷ 0 ∷ 0
    ∷ 0 ∷ 0 ∷ 0 ∷ 0 ∷ 0 ∷ 0 ∷ 0 ∷ 0 ∷ []

abbrev zero_id : Text
zero_id = ascii "AAAAAAAAAAAAAAAAAAAAAAAAAAAAAAAAAAAAAAAAAAA"

encodes : encode zeros ≡ zero_id
unfolding encode digit
encodes = refl

zeros-AreBytes : AreBytes zeros
zeros-AreBytes = ground arith

encode-valid_session_id_example : valid_session_id (encode zeros) ≡ true
encode-valid_session_id_example = encode-valid_session_id zeros zeros-AreBytes refl

abbrev ann : Identity
ann = record { user_id = ascii "ann"; roles = []; attributes = none }

-- A stored record is its ID.
abbrev decode_record : Text → Option StoredSession
decode_record value = some (record {
  version = pos 1;
  id = value;
  user_id = ascii "ann";
  identity = [];
  created_at = pos 1000;
  expires_at = pos 2000;
})

abbrev decode_identity : Text → Option Identity
decode_identity value = some ann

abbrev encode_identity : Identity → Option Text
encode_identity i = some []

-- Every call succeeds with the one record, which has the ID of zeros.
abbrev eval : ScriptCall → Unit {0} → Reply × Unit {0}
eval call w = (ok (some (text (ascii "ok") ∷ text zero_id ∷ [])), tt)

abbrev random : Unit {0} → Option Text × Unit {0}
random w = (some zeros, tt)

abbrev store : Store
store = record { scope = ascii "p"; keys = ascii ":"; limit = 10 }

abbrev session : Session
session = record { id = zero_id; identity = ann; created_at = pos 1000; expires_at = pos 2000 }

creates :
    (create decode_record decode_identity
      (Unit {0})
      eval
      random
      encode_identity
      store
      ann
      (pos 1_000_000)
      tt).0
    ≡ ok session
unfolding create trim_space has_prefix is_valid_utf8 text_discrete decode_session valid_session_id
    decode digit_value encode digit
creates = refl

create-IsCreated_example :
    IsCreated decode_record decode_identity
      (Unit {0})
      eval
      random
      encode_identity
      (ascii "ann")
      session
create-IsCreated_example =
    create-IsCreated decode_record decode_identity (Unit {0}) eval random encode_identity store ann
      (pos 1_000_000) tt session creates

lists :
    (list_by_user decode_record decode_identity
      (Unit {0})
      eval
      random
      encode_identity
      store
      (ascii "ann")
      tt).0
    ≡ ok (session ∷ [])
unfolding list_by_user trim_space has_prefix text_discrete decode_session valid_session_id decode
    digit_value encode digit
lists = refl

list_by_user-IsSession_example :
    All (λ x. IsSession x × (x.identity.user_id ≡ ascii "ann")) (session ∷ [])
list_by_user-IsSession_example =
    list_by_user-IsSession decode_record decode_identity (Unit {0}) eval random encode_identity
      store (ascii "ann") tt (session ∷ []) lists

authenticate-Decided_example :
    Decided
      (lookup decode_record decode_identity
        (Unit {0})
        eval
        random
        encode_identity
        store
        zero_id
        tt).0
      (authenticate
        (λ id.
          (lookup decode_record decode_identity
            (Unit {0})
            eval
            random
            encode_identity
            store
            id
            tt).0)
        zero_id)
authenticate-Decided_example =
    authenticate-Decided decode_record decode_identity (Unit {0}) eval random encode_identity store
      tt zero_id

authenticates :
    authenticate
      (λ id.
        (lookup decode_record decode_identity (Unit {0}) eval random encode_identity store id tt).0)
      zero_id
    ≡ returns (accepted ann)
unfolding authenticate valid_session_id decode digit_value text_discrete encode digit lookup
    decode_session trim_space has_prefix
authenticates = refl
