-- ===== src/Storage/AccessPolicy/Compiled.antt =====
-- What a compilation of services/storage/internal/storagev1/access_policy.go keeps of its configuration.
use stellarmesh_sdk.Base.{
  ok-inj, true-ne-false, ◌≡◌, refl, sym, ap, subst, true, false, not, ◌||◌, List, [], ◌∷◌, map, ltb,
  ok, >>=-eq-ok, refuse-eq-ok, arith, Bool-cases, inl, inr,
}
use stellarmesh_sdk.Text.{Text, ◌==◌, has_text, text_discrete}
use stellarmesh_sdk.Text.Laws.{==→eq}
use stellarmesh_sdk.Text.Utf8.{is_valid_utf8, contains_control, rune_count}
use stellarmesh_sdk.ObjectStorage.{Namespace}
use stellarmesh_sdk.Storage.AccessPolicy.{
  Grants, PrincipalConfig, CompiledPrincipal, is_missing, is_capability, duplicate_token,
  token_invalid, principal_name_invalid, tokens_empty, grants_empty, is_nil, lookup,
  compile_capabilities, compile_grants, compile_tokens, bad_name, compile_principals,
}

capabilities-kept :
    (principal namespace : Text) (seen cs set : List Text)
    → compile_capabilities principal namespace seen cs ≡ ok set
    → set ≡ cs
unfolding compile_capabilities
capabilities-kept principal namespace seen [] set h = cc
capabilities-kept principal namespace seen (c ∷ cs) set h =
    let (known, h) = refuse-eq-ok (not (is_capability c)) _ _ h in
    let (fresh, h) = refuse-eq-ok (has_text seen c) _ _ h in
    let (rest, compiled, e) = >>=-eq-ok _ _ h in
    let same = capabilities-kept principal namespace (c ∷ seen) cs rest compiled in cc

grants-kept :
    (namespaces : List (Text × Namespace)) (principal : Text) (gs grants : Grants)
    → compile_grants namespaces principal gs ≡ ok grants
    → grants ≡ gs
unfolding compile_grants
grants-kept namespaces principal [] grants h = cc
grants-kept namespaces principal ((namespace, cs) ∷ gs) grants h =
    let (known, h) = refuse-eq-ok (is_missing (lookup namespaces namespace)) _ _ h in
    let (filled, h) = refuse-eq-ok (is_nil cs) _ _ h in
    let (set, compiled, h) = >>=-eq-ok _ _ h in
    let (rest, others, e) = >>=-eq-ok _ _ h in
    let same = capabilities-kept principal namespace [] cs set compiled in
    let tail = grants-kept namespaces principal gs rest others in cc

module _ (sha256 : Text → Text) where
  -- The digests are those of the tokens, none was seen, and all are then.
  pub record TokensCompiled (seen tokens digests now : List Text) : Type 0 where
    pub are_digests : digests ≡ map sha256 tokens
    pub is_fresh : (d : Text) → has_text digests d ≡ true → has_text seen d ≡ false
    pub is_seen : (d : Text) → has_text digests d ≡ true → has_text now d ≡ true
    pub is_kept : (d : Text) → has_text seen d ≡ true → has_text now d ≡ true
    pub is_filled : has_text tokens [] ≡ false

  token-filled :
      (t : Text)
      → (not (is_valid_utf8 t) || (ltb (rune_count t) 32 || contains_control t)) ≡ false
      → (t == []) ≡ false
  unfolding is_valid_utf8 rune_count text_discrete
  token-filled [] h = absurd (true-ne-false h)
  token-filled (c ∷ t) h = refl

  cons-TokensCompiled :
      (t : Text) (seen ts rest after : List Text)
      → has_text seen (sha256 t) ≡ false
      → (t == []) ≡ false
      → TokensCompiled (sha256 t ∷ seen) ts rest after
      → TokensCompiled seen (t ∷ ts) (sha256 t ∷ rest) after
  unfolding has_text
  cons-TokensCompiled t seen ts rest after fresh filled c = record {
    are_digests = ap (λ ds. sha256 t ∷ ds) c.are_digests;
    is_fresh = λ d h. elim (Bool-cases (sha256 t == d)) [
      | inl same ↦ subst (λ x. has_text seen x ≡ false) (==→eq (sha256 t) d same) fresh
      | inr other ↦
          let later : has_text rest d ≡ true = ground arith in
          let unseen : (sha256 t == d || has_text seen d) ≡ false = c.is_fresh d later in
          ground arith
    ];
    is_seen = λ d h. elim (Bool-cases (sha256 t == d)) [
      | inl same ↦ c.is_kept d (ground arith)
      | inr other ↦ c.is_seen d (ground arith)
    ];
    is_kept = λ d h. c.is_kept d (ground arith);
    is_filled = ground (arith, c.is_filled);
  }

  tokens-TokensCompiled :
      (principal : Text) (seen ts digests now : List Text)
      → compile_tokens sha256 principal seen ts ≡ ok (digests, now)
      → TokensCompiled seen ts digests now
  unfolding compile_tokens has_text
  tokens-TokensCompiled principal seen [] digests now h =
      let e : ◌≡◌ {A = List Text × List Text} ([], seen) (digests, now) = ok-inj h in
      subst (λ r. TokensCompiled seen [] r.0 r.1) e
        (record {
          are_digests = refl;
          is_fresh = λ d k. cc;
          is_seen = λ d k. cc;
          is_kept = λ d k. k;
          is_filled = refl;
        })
  tokens-TokensCompiled principal seen (t ∷ ts) digests now h =
      let (valid, h) = refuse-eq-ok _ (token_invalid principal) _ h in
      let (fresh, h) = refuse-eq-ok (has_text seen (sha256 t)) duplicate_token _ h in
      let ((rest, after), compiled, e) = >>=-eq-ok _ _ h in
      let ih = tokens-TokensCompiled principal (sha256 t ∷ seen) ts rest after compiled in
      subst (λ r. TokensCompiled seen (t ∷ ts) r.0 r.1) (ok-inj e)
        (cons-TokensCompiled t seen ts rest after fresh (token-filled t valid) ih)

  -- What the first principal leaves, and the principals after it.
  pub record Compiled (namespaces : List (Text × Namespace)) (seen : List Text)
      (p : PrincipalConfig) (ps : List (Text × PrincipalConfig)) (cs : List CompiledPrincipal)
      : Type 0 where
    pub first : CompiledPrincipal
    pub others : List CompiledPrincipal
    pub now : List Text
    pub is_cons : cs ≡ first ∷ others
    pub has_tokens : TokensCompiled seen p.tokens first.tokens now
    pub has_grants : first.grants ≡ p.grants
    pub is_compiled : compile_principals sha256 namespaces now ps ≡ ok others

  pub principals-Compiled :
      (namespaces : List (Text × Namespace)) (seen : List Text) (name : Text) (p : PrincipalConfig)
      (ps : List (Text × PrincipalConfig)) (cs : List CompiledPrincipal)
      → compile_principals sha256 namespaces seen ((name, p) ∷ ps) ≡ ok cs
      → Compiled namespaces seen p ps cs
  unfolding compile_principals
  principals-Compiled namespaces seen name p ps cs h =
      let (named, h) = refuse-eq-ok (bad_name sha256 name) principal_name_invalid _ h in
      let (some_tokens, h) = refuse-eq-ok (is_nil p.tokens) (tokens_empty name) _ h in
      let (some_grants, h) = refuse-eq-ok (is_nil p.grants) (grants_empty name) _ h in
      let ((digests, now), tokens, h) = >>=-eq-ok _ _ h in
      let (grants, granted, h) = >>=-eq-ok _ _ h in
      let (rest, compiled, e) = >>=-eq-ok _ _ h in
      record {
        first = record { tokens = digests; grants = grants };
        others = rest;
        now = now;
        is_cons = sym (ok-inj e);
        has_tokens = tokens-TokensCompiled name seen p.tokens digests now tokens;
        has_grants = grants-kept namespaces name p.grants grants granted;
        is_compiled = compiled;
      }
