-- ===== src/Gateway/RequestId/Panics.antt =====
-- A request ID that panics is the generator's.
use stellarmesh_sdk.Base.{◌≡◌, Option, none, some, Bool-cases, inl, inr}
use stellarmesh_sdk.Text.{Text}
use stellarmesh_sdk.Gateway.Header.{values}
use stellarmesh_sdk.Gateway.Types.{Request, Error, Panic, Call, returns, fails, panics}
use stellarmesh_sdk.Gateway.RequestId.{
  RequestIdConfig, is_safe_request_id, trusted_value, checked, adopt, resolve_request_id,
}

checked-panics :
    (c : RequestIdConfig) (m : Call Text) (p : Panic) → checked c m ≡ panics p → m ≡ panics p
unfolding checked
checked-panics c (returns v) p h = elim (Bool-cases (is_safe_request_id v c.max_length)) [
  | inl safe ↦ absurd (never (rw (safe, checked) at h))
  | inr unsafe ↦ absurd (never_fails (rw (unsafe, checked) at h))
]
  where
    never : {v : Text} → ¬ (◌≡◌ {A = Call Text} (returns v) (panics p))
    never h = cc

    never_fails : {e : Error} → ¬ (◌≡◌ {A = Call Text} (fails e) (panics p))
    never_fails h = cc
checked-panics c (fails e) p h = cc
checked-panics c (panics q) p h = h

adopt-panics :
    (c : RequestIdConfig) (o : Option Text) (p : Panic)
    → adopt c o ≡ panics p
    → c.generate ≡ panics p
unfolding adopt
adopt-panics c none p h = checked-panics c c.generate p h
adopt-panics c (some v) p h = cc

pub resolve_request_id-panics :
    (c : RequestIdConfig) (r : Request) (p : Panic)
    → (resolve_request_id c r).1 ≡ panics p
    → c.generate ≡ panics p
unfolding resolve_request_id
resolve_request_id-panics c r p h = adopt-panics c (trusted_value c (values r.header c.header)) p h
