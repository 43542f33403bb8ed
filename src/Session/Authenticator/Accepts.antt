-- ===== src/Session/Authenticator/Accepts.antt =====
-- The authenticator of sdk/go/gateway/sessionauth on the store of the same package.
use stellarmesh_sdk.Base.{
  ◌≡◌, refl, sym, subst, true, false, Option, none, some, ℤ, pos, negsuc, is_positive, Result, ok,
  err, Bool-cases, inl, inr,
}
use stellarmesh_sdk.Text.{Text, ascii}
use stellarmesh_sdk.Text.Laws.{eq→==}
use stellarmesh_sdk.Gateway.Types.{Identity, AuthenticationDecision, Call, returns, fails, failure}
use stellarmesh_sdk.Session.Base64.{valid_session_id}
use stellarmesh_sdk.Session.Call.{Session, StoreError, Store, ScriptCall, Reply}
use stellarmesh_sdk.Session.Store.{StoredSession, lookup}
use stellarmesh_sdk.Session.Store.Decoded.{IsSession}
use stellarmesh_sdk.Session.Store.Sound.{lookup-IsSession}
use stellarmesh_sdk.Session.Authenticator.{
  SessionReader, refused, accepted, is_zero_time, session_decision, looked_up, authenticate,
}

session_decision-accepted :
    (credential : Text) (s : Session)
    → IsSession s
    → s.id ≡ credential
    → session_decision credential s ≡ returns (accepted s.identity)
unfolding session_decision
session_decision-accepted credential s h same =
    let timely : is_zero_time s.created_at ≡ false = positive_time s.created_at h.is_created in
    rw (eq→== s.id credential same, h.has_user, timely, h.is_lasting) refl
  where
    positive_time : (t : ℤ) → is_positive t ≡ true → is_zero_time t ≡ false
    positive_time (pos n) k = refl
    positive_time (negsuc n) k = cc

-- What the authenticator makes of the store's answer.
abbrev pub Decided : Result StoreError (Option Session) → Call AuthenticationDecision → Type 0
Decided (ok none) call = call ≡ returns refused
Decided (ok (some s)) call = call ≡ returns (accepted s.identity)
Decided (err e) call = call ≡ fails (failure (ascii "session storage failed"))

looked_up-Decided :
    (credential : Text) (r : Result StoreError (Option Session))
    → ((s : Session) → r ≡ ok (some s) → IsSession s × (s.id ≡ credential))
    → Decided r (looked_up credential r)
unfolding looked_up
looked_up-Decided credential (err e) h = refl
looked_up-Decided credential (ok none) h = refl
looked_up-Decided credential (ok (some s)) h =
    let sound = h s refl in session_decision-accepted credential s sound.0 sound.1

authenticate-looked_up :
    (reader : SessionReader) (credential : Text)
    → valid_session_id credential ≡ true
    → authenticate reader credential ≡ looked_up credential (reader credential)
unfolding authenticate
authenticate-looked_up reader credential valid = rw (valid, authenticate) refl

module _ (decode_record : Text → Option StoredSession) (decode_identity : Text → Option Identity)
    (World : Type 0) (eval : ScriptCall → World → Reply × World)
    (random : World → Option Text × World) (encode_identity : Identity → Option Text) where
  -- The session authenticator on the store decides for every credential as the lookup in the store
  -- answers: with the identity of the session that is found, with a refusal if none is found, and
  -- with a component failure if the lookup fails; its own checks of a session that the store finds
  -- never fail.
  pub authenticate-Decided :
      (s : Store) (w : World) (credential : Text)
      → Decided
          (lookup decode_record decode_identity World eval random encode_identity s credential w).0
          (authenticate
            (λ id.
              (lookup decode_record decode_identity World eval random encode_identity s id w).0)
            credential)
  unfolding authenticate lookup
  authenticate-Decided s w credential = elim (Bool-cases (valid_session_id credential)) [
    | inr broken ↦ rw (broken, lookup, authenticate) refl
    | inl valid ↦
        let reader : SessionReader =
          λ id. (lookup decode_record decode_identity World eval random encode_identity s id w).0 in
        subst (Decided (reader credential)) (sym (authenticate-looked_up reader credential valid)) (
          looked_up-Decided credential (reader credential) (
            lookup-IsSession decode_record decode_identity World eval random encode_identity s
              credential w))
  ]
