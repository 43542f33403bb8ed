-- ===== src/Gateway/RequestId/Safe.antt =====
-- Which request IDs the gateway adopts.
use stellarmesh_sdk.Base.{
  ℕ, ◌≤◌, ◌≡◌, ◌≢◌, refl, true, List, [], ◌∷◌, Option, none, some, arith, inl, inr, all, All,
  length, ◌⊎◌,
}
use stellarmesh_sdk.Text.{Text, trim_space}
use stellarmesh_sdk.Gateway.Header.{values}
use stellarmesh_sdk.Gateway.Types.{Request, Call, returns, fails, panics}
use stellarmesh_sdk.Gateway.RequestId.{
  RequestIdConfig, is_visible, is_safe_request_id, trusted_value, checked, adopt,
  resolve_request_id,
}

-- Visible ASCII, at least one byte and at most `max_length`.
pub record IsSafe (id : Text) (max_length : ℕ) : Type 0 where
  pub present : id ≢ []
  pub short : length id ≤ max_length
  pub visible : All (λ c. (0x21 ≤ c) × (c ≤ 0x7e)) id

all_visible : (s : Text) → all is_visible s ≡ true → All (λ c. (0x21 ≤ c) × (c ≤ 0x7e)) s
all_visible [] h = tt
all_visible (c ∷ s) h = (ground arith, all_visible s (ground arith))

is_safe_request_id-IsSafe :
    (id : Text) (max_length : ℕ) → is_safe_request_id id max_length ≡ true → IsSafe id max_length
unfolding is_safe_request_id
is_safe_request_id-IsSafe [] n h = cc
is_safe_request_id-IsSafe (c ∷ s) n h = record {
  present = λ e. cc;
  short = ground arith;
  visible = all_visible (c ∷ s) (ground arith);
}

checked-eq-returns :
    (c : RequestIdConfig) (v : Call Text) (id : Text)
    → checked c v ≡ returns id
    → (v ≡ returns id) × IsSafe id c.max_length
unfolding checked
checked-eq-returns c (returns v) id e =
    let same : v ≡ id = ground arith in
    let safe : is_safe_request_id v c.max_length ≡ true = ground arith in
    (cc, is_safe_request_id-IsSafe id c.max_length (rw same at safe))
checked-eq-returns c (fails err) id e = cc
checked-eq-returns c (panics p) id e = cc

-- Where an adopted identifier comes from: the one incoming value, trimmed, where those are
-- trusted, or the generator.
abbrev pub ComesFrom : RequestIdConfig → Request → Text → Type 0
ComesFrom c r id =
    ((c.trust_incoming ≡ true)
      × ((v : Text) × (values r.header c.header ≡ v ∷ []) × (trim_space v ≡ id)))
    ⊎ (c.generate ≡ returns id)

trusted_value-eq-some :
    (c : RequestIdConfig) (vs : List Text) (id : Text)
    → trusted_value c vs ≡ some id
    → (c.trust_incoming ≡ true)
      × ((v : Text) × (vs ≡ v ∷ []) × (trim_space v ≡ id))
      × IsSafe id c.max_length
unfolding trusted_value
trusted_value-eq-some c [] id e = cc
trusted_value-eq-some c (v ∷ []) id e =
    let same : trim_space v ≡ id = ground arith in
    let safe : is_safe_request_id (trim_space v) c.max_length ≡ true = ground arith in
    (ground arith, (v, refl, same), is_safe_request_id-IsSafe id c.max_length (rw same at safe))
trusted_value-eq-some c (v ∷ w ∷ vs) id e = cc

adopt-eq-returns :
    (c : RequestIdConfig) (vs : List Text) (o : Option Text) (id : Text)
    → trusted_value c vs ≡ o
    → adopt c o ≡ returns id
    → (((c.trust_incoming ≡ true) × ((v : Text) × (vs ≡ v ∷ []) × (trim_space v ≡ id)))
        ⊎ (c.generate ≡ returns id))
      × IsSafe id c.max_length
unfolding adopt
adopt-eq-returns c vs none id t e =
    let (from, safe) = checked-eq-returns c c.generate id e in (inr from, safe)
adopt-eq-returns c vs (some v) id t e =
    let same : v ≡ id = cc in
    let (trust, one, safe) = trusted_value-eq-some c vs id (rw same at t) in
    (inl (trust, one), safe)

-- A request ID that the gateway adopts is visible ASCII of one to max_length bytes, and it is the
-- client's only if the configuration trusts those and the request holds just one; otherwise the
-- generator gave it.
pub resolve_request_id-IsSafe :
    (c : RequestIdConfig) (r : Request) (id : Text)
    → (resolve_request_id c r).1 ≡ returns id
    → ComesFrom c r id × IsSafe id c.max_length
unfolding resolve_request_id
resolve_request_id-IsSafe c r id e = adopt-eq-returns c (values r.header c.header) _ id refl e
