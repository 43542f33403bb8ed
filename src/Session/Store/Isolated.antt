-- ===== src/Session/Store/Isolated.antt =====
-- The store of sdk/go/gateway/sessionauth/store.go on its own script: the sessions of others.
use stellarmesh_sdk.Base.{ap, some, ◌∙◌, ◌≡◌, subst, false, Option, ℤ, pos, ltℤ, ok, arith}
use stellarmesh_sdk.Text.{Text, ascii}
use stellarmesh_sdk.Gateway.Types.{Identity}
use stellarmesh_sdk.Gateway.Route.{is_empty}
use stellarmesh_sdk.Session.Key.Escaping.{IsBytes}
use stellarmesh_sdk.Session.Key.Distinct.{session_key-ne-user_sessions_key}
use stellarmesh_sdk.Session.Key.{session_key, user_sessions_key}
use stellarmesh_sdk.Session.Redis.{Redis}
use stellarmesh_sdk.Session.Call.{
  StoreConfig, Store, ScriptOp, create_op, lookup_op, renew_op, revoke_op, list_op, revoke_user_op,
  call_key, key_or_empty, script_call, new_store,
}
use stellarmesh_sdk.Session.Store.{StoredSession, run}
use stellarmesh_sdk.Session.Load.{Item, load, Codec, session_key_of}
use stellarmesh_sdk.Session.Script.{session_script}
use stellarmesh_sdk.Session.Script.Isolation.{IsAddressed, ActsFor, session_script-isolated}
use stellarmesh_sdk.Session.Store.Made.{
  key-eq-ok, session_key_of-key, key-scoped, new_store-IsMade, milliseconds-positive,
}

module _ (World : Type 0) (redis : Redis World) (codec : Codec)
    (decode_record : Text → Option StoredSession) (decode_identity : Text → Option Identity)
    (random : World → Option Text × World) (encode_identity : Identity → Option Text) where
  -- What the operations of the store check before they run the script.
  abbrev pub IsChecked : ScriptOp → (id user : Text) → ℤ → Type 0
  IsChecked create_op id user ttl = (ltℤ ttl (pos 1_000_000) ≡ false) × (is_empty user ≡ false)
  IsChecked renew_op id user ttl = (ltℤ ttl (pos 1_000_000) ≡ false) × (is_empty id ≡ false)
  IsChecked revoke_op id user ttl = is_empty id ≡ false
  IsChecked lookup_op id user ttl = Unit
  IsChecked list_op id user ttl = is_empty user ≡ false
  IsChecked revoke_user_op id user ttl = is_empty user ≡ false

  script_call-IsAddressed :
      (s : Store) (op : ScriptOp) (id user : Text) (ttl : ℤ) (identity : Text)
      → is_empty s.scope ≡ false
      → IsChecked op id user ttl
      → IsAddressed redis codec op (script_call s op id user ttl identity)
  unfolding script_call call_key session_key
  script_call-IsAddressed s create_op id user ttl identity h (long, filled) =
      (milliseconds-positive ttl long, filled)
  script_call-IsAddressed s renew_op id user ttl identity h (long, filled) = (
    milliseconds-positive ttl long,
    ap key_or_empty (key-eq-ok s.keys s.scope (ascii "session") id (ground arith)),
  )
  script_call-IsAddressed s revoke_op id user ttl identity h filled =
      ap key_or_empty (key-eq-ok s.keys s.scope (ascii "session") id (ground arith))
  script_call-IsAddressed s lookup_op id user ttl identity h c = tt
  script_call-IsAddressed s list_op id user ttl identity h filled = filled
  script_call-IsAddressed s revoke_user_op id user ttl identity h filled = filled

  -- With a store that the constructor makes, over the script as Redis runs it, a session that
  -- lives stays under its key as it is through every operation that the script does not carry out
  -- for the session's own user, where the scope is of bytes and the arguments of the operation
  -- have passed the checks of the store.
  pub run-isolated :
      (config : StoreConfig) (s : Store) (op : ScriptOp) (id user : Text) (ttl : ℤ)
      (identity : Text) (w : World) (sid k : Text) (item : Item)
      → new_store config ≡ ok s
      → IsBytes s.scope
      → IsChecked op id user ttl
      → session_key s.keys s.scope sid ≡ ok k
      → load redis codec (script_call s op id user ttl identity) w sid ≡ ok (some item)
      → ¬ (ActsFor redis codec (script_call s op id user ttl identity) w item.user)
      → redis.entry
          (run decode_record decode_identity World
            (session_script redis codec)
            random
            encode_identity
            s
            op
            id
            user
            ttl
            identity
            w).1
          k
        ≡ redis.entry w k
  unfolding run session_key user_sessions_key script_call
  run-isolated config s op id user ttl identity w sid k item made bytes checked at live idle =
      let call = script_call s op id user ttl identity in
      let key : session_key_of call sid ≡ k =
        session_key_of-key s op id user ttl identity sid k at in
      let scoped = key-scoped s.keys s.scope (ascii "session") sid k at in
      subst (λ j. redis.entry (session_script redis codec call w).1 j ≡ redis.entry w j) key
        (session_script-isolated redis codec call w sid item live idle
          (script_call-IsAddressed s op id user ttl identity scoped checked)
          (λ u filled same.
            session_key-ne-user_sessions_key config.key_separator s.keys
              (new_store-IsMade config s made).has_keys s.scope sid s.scope u k (bytes, bytes) at
              (key-eq-ok s.keys s.scope (ascii "user_sessions") u (ground arith)
                ∙ ap ok (same ∙ key))))
