-- ===== src/Session/Authenticator.antt =====
-- sdk/go/gateway/sessionauth/authenticator.go: sessions as identities of the gateway. A reader is what its
-- `Lookup` answers; an error of the component says which error of the store it is only by its presence.
pub mod Accepts
use stellarmesh_sdk.Base.{
  Bool, true, false, not, ◌||◌, [], Option, none, some, eqb, if◌then◌else◌, ℤ, pos, negsuc, ltℤ,
  Result, ok, err,
}
use stellarmesh_sdk.Text.{Text, ascii, ◌==◌, trim_space}
use stellarmesh_sdk.Gateway.Route.{is_empty}
use stellarmesh_sdk.Gateway.Types.{Identity, AuthenticationDecision, Call, returns, fails, failure}
use stellarmesh_sdk.Session.Base64.{valid_session_id}
use stellarmesh_sdk.Session.Call.{Session, StoreError}

abbrev pub SessionReader : Type 0
SessionReader = Text → Result StoreError (Option Session)

-- The zero value of the decision.
abbrev pub refused : AuthenticationDecision
refused = record {
  authenticated = false;
  identity = record { user_id = []; roles = []; attributes = none };
  reason = [];
}

abbrev pub accepted : Identity → AuthenticationDecision
accepted i = record { authenticated = true; identity = i; reason = [] }

-- `time.Time.IsZero`, the first of January of the year 1, in milliseconds.
is_zero_time : ℤ → Bool
is_zero_time (pos n) = false
is_zero_time (negsuc n) = eqb n 62_135_596_799_999

session_decision : Text → Session → Call AuthenticationDecision
unfolding is_zero_time
session_decision credential s =
    if not (s.id == credential)
      || (is_empty (trim_space s.identity.user_id)
          || (is_zero_time s.created_at || not (ltℤ s.created_at s.expires_at)))
    then fails (failure (ascii "corrupt session storage"))
    else returns (accepted s.identity)

looked_up : Text → Result StoreError (Option Session) → Call AuthenticationDecision
unfolding session_decision
looked_up credential (err e) = fails (failure (ascii "session storage failed"))
looked_up credential (ok none) = returns refused
looked_up credential (ok (some s)) = session_decision credential s

-- `Authenticate`.
unfoldable pub authenticate : SessionReader → Text → Call AuthenticationDecision
unfolding looked_up
authenticate reader credential =
    if valid_session_id credential
    then looked_up credential (reader credential)
    else returns refused
