-- ===== src/Session/Store/Sound.antt =====
-- The sessions that the store of sdk/go/gateway/sessionauth/store.go gives.
use stellarmesh_sdk.Base.{
  err-ne-ok, Result-cases, ◌≡◌, ℕ, zero, suc, not, ◌||◌, List, [], Option, some, ℤ, pos, Result, ok,
  err, refuse, ◌>>◌, >>=-eq-ok, All, Bool-cases, Option-cases, inl, inr,
}
use stellarmesh_sdk.Text.{Text}
use stellarmesh_sdk.Text.Utf8.{is_valid_utf8}
use stellarmesh_sdk.Gateway.Types.{Identity}
use stellarmesh_sdk.Session.Base64.{encode, valid_session_id}
use stellarmesh_sdk.Session.Call.{
  Session, StoreError, Store, ScriptOp, lookup_op, list_op, create_op, ScriptCall, Reply, ReplyItem,
  is_collision, user_required,
}
use stellarmesh_sdk.Session.Store.{
  StoredSession, is_blank, run, after_attempt, validate_ttl, create_attempts, with_encoded, create,
  read, lookup, list_by_user,
}
use stellarmesh_sdk.Session.Store.Decoded.{
  IsSession, none-ne-some, created_session-IsSession, found_session-IsSession,
  listed_sessions-IsSession,
}

module _ (decode_record : Text → Option StoredSession)
    (decode_identity : Text → Option Identity) where
  module _ (World : Type 0) (eval : ScriptCall → World → Reply × World)
      (random : World → Option Text × World) (encode_identity : Identity → Option Text) where
    read-IsSession :
        (s : Store) (op : ScriptOp) (id : Text) (ttl : ℤ) (w : World) (found : Session)
        → (read decode_record decode_identity World eval random encode_identity s op id ttl w).0
          ≡ ok (some found)
        → IsSession found × (found.id ≡ id)
    unfolding read
    read-IsSession s op id ttl w found h =
        let (vs, items, h) =
          >>=-eq-ok
            (run decode_record decode_identity World eval random encode_identity s op id [] ttl []
              w).0
            _ h in
        found_session-IsSession decode_record decode_identity id vs found h

    -- What a lookup finds is a session under the ID that was asked for.
    pub lookup-IsSession :
        (s : Store) (id : Text) (w : World) (found : Session)
        → (lookup decode_record decode_identity World eval random encode_identity s id w).0
          ≡ ok (some found)
        → IsSession found × (found.id ≡ id)
    unfolding lookup
    lookup-IsSession s id w found h = elim (Bool-cases (valid_session_id id)) [
      | inl valid ↦ read-IsSession s lookup_op id (pos 0) w found (rw (valid, lookup) at h)
      | inr broken ↦ absurd (none-ne-some (rw (broken, lookup) at h))
    ]

    -- Every session that the store lists for a user has a valid ID, that user ID, which is not
    -- blank, a creation time that is positive and an expiry after it, whatever Redis answers.
    pub list_by_user-IsSession :
        (s : Store) (user : Text) (w : World) (listed : List Session)
        → (list_by_user decode_record decode_identity World eval random encode_identity s user w).0
          ≡ ok listed
        → All (λ x. IsSession x × (x.identity.user_id ≡ user)) listed
    unfolding list_by_user
    list_by_user-IsSession s user w listed h = elim (Bool-cases (is_blank user)) [
      | inl blank ↦ absurd (err-ne-ok (rw (blank, list_by_user) at h))
      | inr filled ↦
          let (vs, items, h) =
            >>=-eq-ok
              (run decode_record decode_identity World eval random encode_identity s list_op [] user
                (pos 0) [] w).0
              _ (rw (filled, list_by_user) at h) in
          listed_sessions-IsSession decode_record decode_identity user vs listed h
    ]

    -- A session for the user, under an ID that random bytes make.
    abbrev pub IsCreated : Text → Session → Type 0
    IsCreated user x =
        IsSession x
        × (x.identity.user_id ≡ user)
        × ((w : World) × (bytes : Text) × ((random w).0 ≡ some bytes) × (x.id ≡ encode bytes))

    after_attempt-IsCreated :
        (w : World) (bytes user : Text) (items : Result StoreError (List ReplyItem)) (w' : World)
        (retry : Result StoreError Session × World) (x : Session)
        → (random w).0 ≡ some bytes
        → (retry.0 ≡ ok x → IsCreated user x)
        → (after_attempt decode_record decode_identity World eval random encode_identity
            (encode bytes)
            user
            items
            w'
            retry).0
          ≡ ok x
        → IsCreated user x
    unfolding after_attempt
    after_attempt-IsCreated w bytes user (ok vs) w' retry x made again h =
        let (is_session, same, mine) =
          created_session-IsSession decode_record decode_identity (encode bytes) user vs x h in
        (is_session, mine, (w, bytes, made, same))
    after_attempt-IsCreated w bytes user (err e) w' retry x made again h =
        elim (Bool-cases (is_collision e)) [
          | inl collision ↦ again (rw (collision, after_attempt) at h)
          | inr failure ↦ absurd (err-ne-ok (rw (failure, after_attempt) at h))
        ]

    create_attempts-IsCreated :
        (n : ℕ) (s : Store) (user : Text) (ttl : ℤ) (identity : Text) (w : World) (x : Session)
        → (create_attempts decode_record decode_identity World eval random encode_identity n s user
            ttl identity w).0
          ≡ ok x
        → IsCreated user x
    unfolding create_attempts
    create_attempts-IsCreated zero s user ttl identity w x h = cc
    create_attempts-IsCreated (suc n) s user ttl identity w x h = elim (Option-cases (random w).0) [
      | inl nothing ↦ absurd (err-ne-ok (rw (nothing, create_attempts) at h))
      | inr (bytes, made) ↦
          let (items, w') =
            run decode_record decode_identity World eval random encode_identity s create_op
              (encode bytes) user ttl identity (random w).1 in
          after_attempt-IsCreated w bytes user items w'
            (create_attempts decode_record decode_identity World eval random encode_identity n s
              user ttl identity w')
            x made (λ k. create_attempts-IsCreated n s user ttl identity w' x k)
            (rw (made, create_attempts) at h)
    ]

    -- A session that the store creates has an ID that is valid and the encoding of random bytes,
    -- the user ID of the given identity, which is not blank, a creation time that is positive and
    -- an expiry after it, whatever Redis answers.
    pub create-IsCreated :
        (s : Store) (i : Identity) (ttl : ℤ) (w : World) (x : Session)
        → (create decode_record decode_identity World eval random encode_identity s i ttl w).0
          ≡ ok x
        → IsCreated i.user_id x
    unfolding create with_encoded
    create-IsCreated s i ttl w x h =
        elim (Result-cases (
          refuse (is_blank i.user_id || not (is_valid_utf8 i.user_id)) user_required
          >> validate_ttl ttl)) [
            | inl (e, refused) ↦ absurd (err-ne-ok (rw (refused, create) at h))
            | inr (u, allowed) ↦ elim (Option-cases (encode_identity i)) [
              | inl broken ↦ absurd (err-ne-ok (rw (allowed, create, broken) at h))
              | inr (identity, encoded) ↦
                  create_attempts-IsCreated 3 s i.user_id ttl identity w x
                    (rw (allowed, create, encoded) at h)
            ]
          ]
