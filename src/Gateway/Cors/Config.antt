-- ===== src/Gateway/Cors/Config.antt =====
-- What start-up guarantees of a cross-origin policy.
use stellarmesh_sdk.Base.{
  subst, eqb→eq, ◌≡◌, refl, sym, any, ◌∙◌, Bool, true, false, not, ◌&&◌, ◌||◌, List, [], ◌∷◌,
  is_negative, eqb, length, if◌then◌else◌, Result, ok, refuse, ◌>>=◌, ◌>>◌, >>=-eq-ok, All, arith,
}
use stellarmesh_sdk.Text.{Text, ascii, ◌==◌, trim_space, has_text}
use stellarmesh_sdk.Gateway.Cors.{
  CorsConfig, CorsPolicy, CorsError, origins_required, wildcard_combined, max_age_negative,
  ParseUrl, compile_cors_methods, compile_cors_headers, new_cors_policy, compiled_policy,
  or_default, default_cors_methods, default_cors_headers,
}
use stellarmesh_sdk.Gateway.Cors.Origins.{
  OriginAllowed, compile_origins-OriginAllowed, given, compile_origins-given, only,
}

refuse-eq-ok : (b : Bool) (e : CorsError) {u : Unit {0}} → refuse b e ≡ ok u → b ≡ false
refuse-eq-ok true e h = cc
refuse-eq-ok false e h = refl

-- What the policy promises of its origins.
pub record IsSafe (parse : ParseUrl) (c : CorsConfig) (p : CorsPolicy) : Type 0 where
  pub origins_allowed : All (OriginAllowed parse p.wildcard) p.origins
  pub origins_given :
      (o : Text) → has_text p.origins o ≡ any (λ g. trim_space g == o) c.allowed_origins
  pub wildcard_given : p.wildcard ≡ any (λ g. trim_space g == ascii "*") c.allowed_origins
  pub wildcard_alone : p.wildcard ≡ true → (p.origins ≡ ascii "*" ∷ []) × (p.credentials ≡ false)
  pub allow_origin : p.allow_origin_value ≡ (if p.wildcard then ascii "*" else [])
  pub age : is_negative p.max_age ≡ false

-- The checks of the configuration that follow those of the origins.
finish_policy : CorsConfig → List Text → Bool → Result CorsError CorsPolicy
finish_policy c origins wildcard = do
  refuse (wildcard && (not (eqb (length origins) 1) || c.allow_credentials)) wildcard_combined
  methods ← compile_cors_methods (or_default c.allowed_methods default_cors_methods) []
  headers ← compile_cors_headers (or_default c.allowed_headers default_cors_headers) []
  refuse (is_negative c.max_age) max_age_negative
  ok (compiled_policy c origins wildcard methods headers)

alone :
    (w single credentials : Bool)
    → (w && (not single || credentials)) ≡ false
    → w ≡ true
    → (single ≡ true) × (credentials ≡ false)
alone w single credentials h e = (ground arith, ground arith)

finish_policy-IsSafe :
    (parse : ParseUrl) (c : CorsConfig) (origins : List Text) (wildcard : Bool) (p : CorsPolicy)
    → All (OriginAllowed parse wildcard) origins
    → wildcard ≡ given c.allowed_origins (ascii "*")
    → ((o : Text) → has_text origins o ≡ given c.allowed_origins o)
    → finish_policy c origins wildcard ≡ ok p
    → IsSafe parse c p
unfolding finish_policy compiled_policy
finish_policy-IsSafe parse c origins wildcard p origins_ok flag members h =
    let (_, single, h1) = >>=-eq-ok _ _ h in
    let (methods, _, h2) =
      >>=-eq-ok (compile_cors_methods (or_default c.allowed_methods default_cors_methods) []) _
        h1 in
    let (headers, _, h3) =
      >>=-eq-ok (compile_cors_headers (or_default c.allowed_headers default_cors_headers) []) _
        h2 in
    let (_, fresh, h4) = >>=-eq-ok (refuse (is_negative c.max_age) max_age_negative) _ h3 in
    let lone =
      alone wildcard (eqb (length origins) 1) c.allow_credentials
        (refuse-eq-ok _ wildcard_combined single) in
    let same : compiled_policy c origins wildcard methods headers ≡ p = cc in
    subst (IsSafe parse c) same (record {
      origins_allowed = origins_ok;
      origins_given = members;
      wildcard_given = flag;
      wildcard_alone = λ w. (
        only (ascii "*") origins (eqb→eq _ _ (lone w).0) (members (ascii "*") ∙ sym flag ∙ w),
        (lone w).1,
      );
      allow_origin = refl;
      age = refuse-eq-ok _ max_age_negative fresh;
    })

-- The origins of a cross-origin policy that start-up accepts are exactly the configured ones,
-- trimmed, and each is an http or https URL with a host and without user, path, query and
-- fragment, or else the wildcard; the policy is a wildcard exactly if a configured origin,
-- trimmed, is the wildcard, and then that is the only origin and there are no credentials; its
-- allowed-origin value is the wildcard exactly then, and its preflight lifetime is not negative.
pub new_cors_policy-IsSafe :
    (parse : ParseUrl) (c : CorsConfig) (p : CorsPolicy)
    → new_cors_policy parse c ≡ ok p
    → IsSafe parse c p
unfolding new_cors_policy finish_policy has_text
new_cors_policy-IsSafe parse c p h =
    let (_, _, h1) = >>=-eq-ok (refuse (eqb (length c.allowed_origins) 0) origins_required) _ h in
    let (found, compiled, h2) = >>=-eq-ok _ _ h1 in
    let (flag, members) =
      compile_origins-given parse c.allowed_origins [] found.0 false found.1 compiled in
    finish_policy-IsSafe parse c found.0 found.1 p
      (compile_origins-OriginAllowed parse c.allowed_origins [] found.0 false found.1 compiled tt)
      (ground (arith, flag)) (λ o. ground (arith, members o)) h2
