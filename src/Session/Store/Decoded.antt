-- ===== src/Session/Store/Decoded.antt =====
-- The records that sdk/go/gateway/sessionauth/store.go decodes.
use stellarmesh_sdk.Base.{
  err-ne-ok, some-inj, ◌≡◌, refl, ◌∙◌, subst, Bool, true, false, ◌&&◌, List, [], ◌∷◌, Option, none,
  some, is_positive, ltℤ, Result, ok, >>=-eq-ok, ok-inj, All, arith, Bool-cases, Option-cases, inl,
  inr,
}
use stellarmesh_sdk.Text.{Text, ◌==◌, trim_space}
use stellarmesh_sdk.Text.Laws.{==→eq}
use stellarmesh_sdk.Gateway.Route.{is_empty}
use stellarmesh_sdk.Gateway.Types.{Identity}
use stellarmesh_sdk.Session.Base64.{valid_session_id}
use stellarmesh_sdk.Session.Call.{Session, StoreError, ReplyItem, text, other}
use stellarmesh_sdk.Session.Store.{
  StoredSession, bad_record, with_identity, with_record, decode_session, wanted, created_session,
  found_session, listed_sessions, read,
}

-- A session that the program may rely on.
pub record IsSession (s : Session) : Type 0 where
  pub has_id : valid_session_id s.id ≡ true
  pub has_user : is_empty (trim_space s.identity.user_id) ≡ false
  pub is_created : is_positive s.created_at ≡ true
  pub is_lasting : ltℤ s.created_at s.expires_at ≡ true

pub none-ne-some {ℓ} :
    {A : Type ℓ} {a : A} → ¬ (◌≡◌ {A = Result StoreError (Option A)} (ok none) (ok (some a)))
none-ne-some h = cc

module _ (decode_record : Text → Option StoredSession)
    (decode_identity : Text → Option Identity) where
  with_identity-IsSession :
      (r : StoredSession) (o : Option Identity) (s : Session)
      → with_identity decode_record decode_identity r o ≡ ok s
      → IsSession s
  unfolding with_identity bad_record
  with_identity-IsSession r none s h = cc
  with_identity-IsSession r (some i) s h = elim (Bool-cases (bad_record r i)) [
    | inl bad ↦ cc
    | inr good ↦ subst IsSession (ok-inj (rw (good, with_identity) at h)) (record {
      has_id = ground arith;
      has_user = ground arith;
      is_created = ground arith;
      is_lasting = ground arith;
    })
  ]

  decode_session-IsSession :
      (v : ReplyItem) (s : Session)
      → decode_session decode_record decode_identity v ≡ ok s
      → IsSession s
  unfolding decode_session with_record
  decode_session-IsSession other s h = cc
  decode_session-IsSession (text value) s h = elim (Option-cases (decode_record value)) [
    | inl broken ↦ absurd (err-ne-ok (rw (broken, with_record) at h))
    | inr (r, read) ↦
        with_identity-IsSession r (decode_identity r.identity) s (rw (read, with_record) at h)
  ]

  wanted-eq-ok :
      (b : Bool) (s s' : Session)
      → wanted decode_record decode_identity b s ≡ ok s'
      → (b ≡ true) × (s ≡ s')
  wanted-eq-ok true s s' h = (refl, ok-inj h)
  wanted-eq-ok false s s' h = cc

  pub created_session-IsSession :
      (id user : Text) (vs : List ReplyItem) (s : Session)
      → created_session decode_record decode_identity id user vs ≡ ok s
      → IsSession s × (s.id ≡ id) × (s.identity.user_id ≡ user)
  unfolding created_session
  created_session-IsSession id user [] s h = cc
  created_session-IsSession id user (v ∷ w ∷ vs) s h = cc
  created_session-IsSession id user (v ∷ []) s h =
      let (t, decoded, h) = >>=-eq-ok _ _ h in
      let (same, e) = wanted-eq-ok (t.id == id && t.identity.user_id == user) t s h in
      subst (λ x. IsSession x × (x.id ≡ id) × (x.identity.user_id ≡ user)) e
        (
          decode_session-IsSession v t decoded,
          ==→eq t.id id (ground arith),
          ==→eq t.identity.user_id user (ground arith),
        )

  pub found_session-IsSession :
      (id : Text) (vs : List ReplyItem) (s : Session)
      → found_session decode_record decode_identity id vs ≡ ok (some s)
      → IsSession s × (s.id ≡ id)
  unfolding found_session
  found_session-IsSession id [] s h = cc
  found_session-IsSession id (v ∷ vs) s h =
      let (t, decoded, h) = >>=-eq-ok _ _ h in
      let (u, is_wanted, h) = >>=-eq-ok _ _ h in
      let (same, e) = wanted-eq-ok (t.id == id) t u is_wanted in
      let last : u ≡ s = some-inj (ok-inj h) in
      subst (λ x. IsSession x × (x.id ≡ id)) (e ∙ last)
        (decode_session-IsSession v t decoded, ==→eq t.id id same)

  pub listed_sessions-IsSession :
      (user : Text) (vs : List ReplyItem) (ss : List Session)
      → listed_sessions decode_record decode_identity user vs ≡ ok ss
      → All (λ s. IsSession s × (s.identity.user_id ≡ user)) ss
  unfolding listed_sessions
  listed_sessions-IsSession user [] ss h =
      subst (All (λ s. IsSession s × (s.identity.user_id ≡ user))) (ok-inj h) tt
  listed_sessions-IsSession user (v ∷ vs) ss h =
      let (t, decoded, h) = >>=-eq-ok (decode_session decode_record decode_identity v) _ h in
      let (u, is_wanted, h) = >>=-eq-ok _ _ h in
      let (same, e) = wanted-eq-ok (t.identity.user_id == user) t u is_wanted in
      let (rest, listed, h) =
        >>=-eq-ok (listed_sessions decode_record decode_identity user vs) _ h in
      subst (All (λ s. IsSession s × (s.identity.user_id ≡ user))) (ok-inj h) (
        subst (λ x. IsSession x × (x.identity.user_id ≡ user)) e
            (decode_session-IsSession v t decoded, ==→eq t.identity.user_id user same),
        listed_sessions-IsSession user vs rest listed,
      )
