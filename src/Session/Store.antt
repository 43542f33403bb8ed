-- ===== src/Session/Store.antt =====
-- sdk/go/gateway/sessionauth/store.go: the sessions of a project in Redis, and authenticator.go on
-- them. The script that Redis runs is a parameter, a function of the call and of the world, as are
-- the random bytes and encoding/json. A time is in milliseconds.
pub mod Decoded
pub mod Sound
pub mod Made
pub mod Scripted
pub mod Isolated
use stellarmesh_sdk.Base.{
  ℕ, zero, suc, Bool, false, not, ◌&&◌, ◌||◌, List, [], ◌∷◌, Option, none, some, eqb, if◌then◌else◌,
  ℤ, pos, negsuc, is_positive, ltℤ, Result, ok, err, refuse, ◌>>=◌, ◌>>◌,
}
use stellarmesh_sdk.Text.{Text, ◌==◌, trim_space}
use stellarmesh_sdk.Text.Utf8.{is_valid_utf8}
use stellarmesh_sdk.Gateway.Route.{is_empty}
use stellarmesh_sdk.Gateway.Types.{Identity}
use stellarmesh_sdk.Session.Call.{
  Reply, ReplyItem, ScriptCall, ScriptOp, Session, Store, StoreError, corrupt_session, create_op,
  identity_unencodable, is_collision, list_op, lookup_op, other, random_failed, renew_op,
  reply_items, revoke_op, revoke_user_op, script_call, session_collision, text, ttl_too_short,
  user_required,
}
use stellarmesh_sdk.Session.Base64.{encode, valid_session_id}

-- `storedSession`.
pub record StoredSession : Type 0 where
  pub version : ℤ
  pub id : Text
  pub user_id : Text
  pub identity : Text
  pub created_at : ℤ
  pub expires_at : ℤ

-- `validateTTL`.
validate_ttl : ℤ → Result StoreError (Unit {0})
validate_ttl ttl = refuse (ltℤ ttl (pos 1_000_000)) ttl_too_short

abbrev is_blank : Text → Bool
is_blank s = is_empty (trim_space s)

abbrev is_one : ℤ → Bool
is_one (pos n) = eqb n 1
is_one (negsuc n) = false

bad_record : StoredSession → Identity → Bool
bad_record r i =
    not (is_one r.version)
    || (not (valid_session_id r.id)
        || (is_blank i.user_id
            || (not (i.user_id == r.user_id)
                || (not (is_positive r.created_at) || not (ltℤ r.created_at r.expires_at)))))

module _ (decode_record : Text → Option StoredSession)
    (decode_identity : Text → Option Identity) where
  with_identity : StoredSession → Option Identity → Result StoreError Session
  unfolding bad_record
  with_identity r none = err corrupt_session
  with_identity r (some i) =
      if bad_record r i
      then err corrupt_session
      else ok
          (record { id = r.id; identity = i; created_at = r.created_at; expires_at = r.expires_at })

  with_record : Option StoredSession → Result StoreError Session
  unfolding with_identity
  with_record none = err corrupt_session
  with_record (some r) = with_identity r (decode_identity r.identity)

  -- `decodeSession`.
  unfoldable pub decode_session : ReplyItem → Result StoreError Session
  unfolding with_record
  decode_session other = err corrupt_session
  decode_session (text value) = with_record (decode_record value)

  abbrev wanted : Bool → Session → Result StoreError Session
  wanted is_wanted s = if is_wanted then ok s else err corrupt_session

  pub created_session : (id user : Text) → List ReplyItem → Result StoreError Session
  created_session id user (v ∷ []) =
      decode_session v >>= λ s. wanted (s.id == id && s.identity.user_id == user) s
  created_session id user _ = err corrupt_session

  pub found_session : Text → List ReplyItem → Result StoreError (Option Session)
  found_session id [] = ok none
  found_session id (v ∷ vs) = decode_session v >>= λ s. wanted (s.id == id) s >>= λ s. ok (some s)

  pub listed_sessions : Text → List ReplyItem → Result StoreError (List Session)
  listed_sessions user [] = ok []
  listed_sessions user (v ∷ vs) = decode_session v >>= λ s.
      wanted (s.identity.user_id == user) s >>= λ s.
      listed_sessions user vs >>= λ rest. ok (s ∷ rest)

  module _ (World : Type 0) (eval : ScriptCall → World → Reply × World)
      (random : World → Option Text × World) (encode_identity : Identity → Option Text) where
    -- `run`.
    pub run :
        Store
        → ScriptOp
        → (id user : Text) → ℤ
        → Text
        → World
        → Result StoreError (List ReplyItem) × World
    unfolding script_call reply_items
    run s op id user ttl identity w =
        let (reply, w') = eval (script_call s op id user ttl identity) w in
        (reply_items op reply, w')

    -- What follows an attempt of `Create`, with the result of the attempts after it.
    after_attempt :
        (id user : Text)
        → Result StoreError (List ReplyItem)
        → World
        → Result StoreError Session × World
        → Result StoreError Session × World
    unfolding created_session is_collision
    after_attempt id user (ok vs) w retry = (created_session id user vs, w)
    after_attempt id user (err e) w retry = if is_collision e then retry else (err e, w)

    -- The loop of `Create`, with the attempts that are left.
    create_attempts : ℕ → Store → Text → ℤ → Text → World → Result StoreError Session × World
    unfolding run after_attempt
    create_attempts zero s user ttl identity w = (err session_collision, w)
    create_attempts (suc n) s user ttl identity w = elim (random w).0 [
      | none ↦ (err random_failed, (random w).1)
      | some bytes ↦
          let (items, w') = run s create_op (encode bytes) user ttl identity (random w).1 in
          after_attempt (encode bytes) user items w' (create_attempts n s user ttl identity w')
    ]

    with_encoded : Store → Identity → ℤ → World → Option Text → Result StoreError Session × World
    unfolding create_attempts
    with_encoded s i ttl w none = (err identity_unencodable, w)
    with_encoded s i ttl w (some identity) = create_attempts 3 s i.user_id ttl identity w

    -- `Create`.
    unfoldable pub create : Store → Identity → ℤ → World → Result StoreError Session × World
    unfolding with_encoded validate_ttl
    create s i ttl w =
        elim (refuse (is_blank i.user_id || not (is_valid_utf8 i.user_id)) user_required
          >> validate_ttl ttl) [
            | err e ↦ (err e, w)
            | ok u ↦ with_encoded s i ttl w (encode_identity i)
          ]

    -- `read`.
    read : Store → ScriptOp → Text → ℤ → World → Result StoreError (Option Session) × World
    unfolding run found_session
    read s op id ttl w =
        let (items, w') = run s op id [] ttl [] w in (items >>= λ vs. found_session id vs, w')

    -- `Lookup`.
    unfoldable pub lookup : Store → Text → World → Result StoreError (Option Session) × World
    unfolding read
    lookup s id w = if valid_session_id id then read s lookup_op id (pos 0) w else (ok none, w)

    -- `Renew`.
    unfoldable pub renew : Store → Text → ℤ → World → Result StoreError (Option Session) × World
    unfolding read validate_ttl
    renew s id ttl w = elim (validate_ttl ttl) [
      | err e ↦ (err e, w)
      | ok u ↦ if valid_session_id id then read s renew_op id ttl w else (ok none, w)
    ]

    abbrev done : Result StoreError (List ReplyItem) → Result StoreError (Unit {0})
    done (ok vs) = ok tt
    done (err e) = err e

    -- `Revoke`.
    unfoldable pub revoke : Store → Text → World → Result StoreError (Unit {0}) × World
    unfolding run
    revoke s id w =
        if valid_session_id id
        then (let (items, w') = run s revoke_op id [] (pos 0) [] w in (done items, w'))
        else (ok tt, w)

    -- `ListByUser`.
    unfoldable pub list_by_user : Store → Text → World → Result StoreError (List Session) × World
    unfolding run listed_sessions
    list_by_user s user w =
        if is_blank user
        then (err user_required, w)
        else let (items, w') = run s list_op [] user (pos 0) [] w in
          (items >>= λ vs. listed_sessions user vs, w')

    -- `RevokeByUser`.
    unfoldable pub revoke_by_user : Store → Text → World → Result StoreError (Unit {0}) × World
    unfolding run
    revoke_by_user s user w =
        if is_blank user
        then (err user_required, w)
        else let (items, w') = run s revoke_user_op [] user (pos 0) [] w in (done items, w')
