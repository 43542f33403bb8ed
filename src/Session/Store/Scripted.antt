-- ===== src/Session/Store/Scripted.antt =====
-- The store of sdk/go/gateway/sessionauth/store.go on its own script.
use stellarmesh_sdk.Base.{
  ◌≡◌, refl, subst, ℕ, zero, suc, ◌<◌, ◌≤◌, Bool, true, false, not, ◌||◌, List, Option, length, ℤ,
  pos, ltℤ, pos_part, Result, ok, err, refuse, ◌>>◌, refuse-eq-ok, err-ne-ok, Bool-cases,
  Option-cases, Result-cases, inl, inr,
}
use stellarmesh_sdk.Text.{Text, ascii}
use stellarmesh_sdk.Text.Utf8.{is_valid_utf8}
use stellarmesh_sdk.Gateway.Types.{Identity}
use stellarmesh_sdk.Session.Base64.{encode}
use stellarmesh_sdk.Session.Key.{user_sessions_key}
use stellarmesh_sdk.Session.Redis.{Redis}
use stellarmesh_sdk.Session.Call.{
  Session, StoreError, StoreConfig, Store, create_op, script_call, ReplyItem, is_collision,
  user_required, ttl_too_short, milliseconds, new_store,
}
use stellarmesh_sdk.Session.Store.{
  StoredSession, run, after_attempt, create_attempts, with_encoded, create, is_blank, validate_ttl,
}
use stellarmesh_sdk.Session.Load.{Codec}
use stellarmesh_sdk.Session.Script.{session_script}
use stellarmesh_sdk.Session.Script.Surviving.{members}
use stellarmesh_sdk.Session.Script.Created.{session_script-limit}
use stellarmesh_sdk.Session.Store.Made.{key-prefixed, new_store-IsMade, milliseconds-positive}

-- The sessions that are recorded for the user.
abbrev pub session_count : {World : Type 0} → Redis World → Text → World → ℕ
session_count redis index w = length (members (redis.entry w index))

module _ (World : Type 0) (redis : Redis World) (codec : Codec)
    (decode_record : Text → Option StoredSession) (decode_identity : Text → Option Identity)
    (random : World → Option Text × World) (encode_identity : Identity → Option Text) where
  -- A run that is answered with the session.
  run-limit :
      (s : Store) (id user : Text) (ttl : ℤ) (identity : Text) (w : World) (index : Text)
      (vs : List ReplyItem)
      → 0 < s.limit
      → 0 < pos_part (milliseconds ttl)
      → user_sessions_key s.keys s.scope user ≡ ok index
      → (run decode_record decode_identity World
          (session_script redis codec)
          random
          encode_identity
          s
          create_op
          id
          user
          ttl
          identity
          w).0
        ≡ ok vs
      → session_count redis index
          (run decode_record decode_identity World
            (session_script redis codec)
            random
            encode_identity
            s
            create_op
            id
            user
            ttl
            identity
            w).1
        ≤ s.limit
  unfolding run script_call user_sessions_key
  run-limit s id user ttl identity w index vs positive lasting at h =
      let call = script_call s create_op id user ttl identity in
      subst (λ j. session_count redis j (session_script redis codec call w).1 ≤ s.limit)
        (key-prefixed s.keys s.scope (ascii "user_sessions") user index at)
        (session_script-limit redis codec call w vs refl positive lasting h)

  after_attempt-limit :
      (limit : ℕ) (index id user : Text) (items : Result StoreError (List ReplyItem)) (w : World)
      (retry : Result StoreError Session × World) (x : Session)
      → ((vs : List ReplyItem) → items ≡ ok vs → session_count redis index w ≤ limit)
      → (retry.0 ≡ ok x → session_count redis index retry.1 ≤ limit)
      → (after_attempt decode_record decode_identity World
          (session_script redis codec)
          random
          encode_identity
          id
          user
          items
          w
          retry).0
        ≡ ok x
      → session_count redis index
          (after_attempt decode_record decode_identity World
            (session_script redis codec)
            random
            encode_identity
            id
            user
            items
            w
            retry).1
        ≤ limit
  unfolding after_attempt
  after_attempt-limit limit index id user (ok vs) w retry x bound again h = bound vs refl
  after_attempt-limit limit index id user (err e) w retry x bound again h =
      elim (Bool-cases (is_collision e)) [
        | inl collision ↦ rw (collision, after_attempt) (again (rw (collision, after_attempt) at h))
        | inr failure ↦ absurd (err-ne-ok (rw (failure, after_attempt) at h))
      ]

  create_attempts-limit :
      (n : ℕ) (s : Store) (user : Text) (ttl : ℤ) (identity : Text) (w : World) (x : Session)
      (index : Text)
      → 0 < s.limit
      → 0 < pos_part (milliseconds ttl)
      → user_sessions_key s.keys s.scope user ≡ ok index
      → (create_attempts decode_record decode_identity World
          (session_script redis codec)
          random
          encode_identity
          n
          s
          user
          ttl
          identity
          w).0
        ≡ ok x
      → session_count redis index
          (create_attempts decode_record decode_identity World
            (session_script redis codec)
            random
            encode_identity
            n
            s
            user
            ttl
            identity
            w).1
        ≤ s.limit
  unfolding create_attempts
  create_attempts-limit zero s user ttl identity w x index positive lasting at h = cc
  create_attempts-limit (suc n) s user ttl identity w x index positive lasting at h =
      elim (Option-cases (random w).0) [
        | inl nothing ↦ absurd (err-ne-ok (rw (nothing, create_attempts) at h))
        | inr (bytes, made) ↦
            let (items, w') =
              run decode_record decode_identity World (session_script redis codec) random
                encode_identity s create_op (encode bytes) user ttl identity (random w).1 in
            rw (made, create_attempts)
              (after_attempt-limit s.limit index (encode bytes) user items w'
                (create_attempts decode_record decode_identity World (session_script redis codec)
                  random encode_identity n s user ttl identity w')
                x
                (λ vs e.
                  run-limit s (encode bytes) user ttl identity (random w).1 index vs positive
                    lasting at e)
                (λ e. create_attempts-limit n s user ttl identity w' x index positive lasting at e)
                (rw (made, create_attempts) at h))
      ]

  -- With a store that the constructor makes, over the script as Redis runs it, a creation that
  -- succeeds leaves the user with at most as many sessions in the index as the limit of the store,
  -- whatever the keys were before.
  pub create-limit :
      (config : StoreConfig) (s : Store) (i : Identity) (ttl : ℤ) (w : World) (x : Session)
      (index : Text)
      → new_store config ≡ ok s
      → user_sessions_key s.keys s.scope i.user_id ≡ ok index
      → (create decode_record decode_identity World
          (session_script redis codec)
          random
          encode_identity
          s
          i
          ttl
          w).0
        ≡ ok x
      → session_count redis index
          (create decode_record decode_identity World
            (session_script redis codec)
            random
            encode_identity
            s
            i
            ttl
            w).1
        ≤ s.limit
  unfolding create with_encoded validate_ttl
  create-limit config s i ttl w x index made at h =
      elim (Result-cases (
        refuse (is_blank i.user_id || not (is_valid_utf8 i.user_id)) user_required
        >> validate_ttl ttl)) [
          | inl (e, refused) ↦ absurd (err-ne-ok (rw (refused, create) at h))
          | inr (u, allowed) ↦
              let (named, valid) = refuse-eq-ok _ user_required (validate_ttl ttl) allowed in
              elim (Option-cases (encode_identity i)) [
                | inl broken ↦ absurd (err-ne-ok (rw (allowed, create, broken) at h))
                | inr (identity, encoded) ↦
                    rw (allowed, create, encoded)
                      (create_attempts-limit 3 s i.user_id ttl identity w x index
                        (new_store-IsMade config s made).has_limit
                        (milliseconds-positive ttl (refused-false (ltℤ ttl (pos 1_000_000)) valid))
                        at (rw (allowed, create, encoded) at h))
              ]
        ]
    where
      refused-false :
          (b : Bool) {u : Unit {0}}
          → ◌≡◌ {A = Result StoreError (Unit {0})} (refuse b ttl_too_short) (ok u)
          → b ≡ false
      refused-false true h = cc
      refused-false false h = refl
