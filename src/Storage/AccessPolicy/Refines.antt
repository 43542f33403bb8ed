-- ===== src/Storage/AccessPolicy/Refines.antt =====
-- The decisions of a compiled policy, and those of its configuration.
use stellarmesh_sdk.Base.{
  ok-inj, true-ne-false, ◌≡◌, refl, sym, ap, subst, ◌∙◌, true, false, List, [], ◌∷◌, map, Option,
  none, some, if◌then◌else◌, ok, >>=-eq-ok, refuse-eq-ok, All, arith, Bool-cases, inl, inr,
}
use stellarmesh_sdk.Text.{Text, ◌==◌, has_text}
use stellarmesh_sdk.Text.Laws.{==→eq, eq→==}
use stellarmesh_sdk.ObjectStorage.{Namespace}
use stellarmesh_sdk.Storage.AccessPolicy.{
  Decision, decision_unauthenticated, decision_forbidden, decision_allowed, Grants, PrincipalConfig,
  AccessConfig, CompiledPrincipal, Policy, namespaces_empty, principals_empty, is_nil, lookup,
  compile_namespaces, compile_principals, compile_policy, last_match, find_principal, authorize,
}
use stellarmesh_sdk.Storage.AccessPolicy.Compiled.{principals-Compiled}

-- The principal that has the token.
abbrev pub holder : List (Text × PrincipalConfig) → Text → Option PrincipalConfig
holder [] token = none
holder ((name, p) ∷ ps) token = if has_text p.tokens token then some p else holder ps token

-- What the configuration grants to the holder of the token.
abbrev pub granted : AccessConfig → (token namespace capability : Text) → Decision
granted config token namespace capability = elim (holder config.principals token) [
  | none ↦ decision_unauthenticated
  | some p ↦ elim (lookup p.grants namespace) [
    | none ↦ decision_forbidden
    | some capabilities ↦
        if has_text capabilities capability then decision_allowed else decision_forbidden
  ]
]

abbrev decided_by : Grants → Text → Text → Decision
decided_by gs namespace capability = elim (lookup gs namespace) [
  | none ↦ decision_forbidden
  | some capabilities ↦
      if has_text capabilities capability then decision_allowed else decision_forbidden
]

abbrev Agrees : Option CompiledPrincipal → Option PrincipalConfig → Type 0
Agrees none none = Unit
Agrees (some c) (some p) = c.grants ≡ p.grants
Agrees _ _ = ⊥

-- The same grants give the same decision.
Agrees-decision :
    (c : Option CompiledPrincipal) (q : Option PrincipalConfig) (namespace capability : Text)
    → Agrees c q
    → (elim c [
      | none ↦ decision_unauthenticated
      | some x ↦ decided_by x.grants namespace capability
    ])
      ≡ (elim q [
        | none ↦ decision_unauthenticated
        | some x ↦ decided_by x.grants namespace capability
      ])
Agrees-decision none none namespace capability h = refl
Agrees-decision none (some q) namespace capability h = absurd h
Agrees-decision (some c) none namespace capability h = absurd h
Agrees-decision (some c) (some q) namespace capability h =
    ap (λ gs. decided_by gs namespace capability) h

module _ (sha256 : Text → Text) where
  -- No other token of the configuration has the digest of this one.
  abbrev pub HasNoCollision : List (Text × PrincipalConfig) → Text → Type 0
  HasNoCollision ps token = All (λ p. All (λ t. sha256 t ≡ sha256 token → t ≡ token) p.1.tokens) ps

  digests-of_token :
      (ts : List Text) (token : Text)
      → has_text ts token ≡ true
      → has_text (map sha256 ts) (sha256 token) ≡ true
  unfolding has_text
  digests-of_token [] token h = cc
  digests-of_token (t ∷ ts) token h = elim (Bool-cases (t == token)) [
    | inl same ↦ ground (arith, eq→== (sha256 t) (sha256 token) (ap sha256 (==→eq t token same)))
    | inr other ↦ ground (arith, digests-of_token ts token (ground arith))
  ]

  token-of_digests :
      (ts : List Text) (token : Text)
      → All (λ t. sha256 t ≡ sha256 token → t ≡ token) ts
      → has_text (map sha256 ts) (sha256 token) ≡ true
      → has_text ts token ≡ true
  unfolding has_text
  token-of_digests [] token free h = cc
  token-of_digests (t ∷ ts) token free h = elim (Bool-cases (sha256 t == sha256 token)) [
    | inl same ↦ ground (arith, eq→== t token (free.0 (==→eq (sha256 t) (sha256 token) same)))
    | inr other ↦ ground (arith, token-of_digests ts token free.1 (ground arith))
  ]

  -- A digest that was seen is of no later principal.
  last_match-kept :
      (namespaces : List (Text × Namespace)) (seen : List Text) (ps : List (Text × PrincipalConfig))
      (cs : List CompiledPrincipal) (d : Text) (m : Option CompiledPrincipal)
      → compile_principals sha256 namespaces seen ps ≡ ok cs
      → has_text seen d ≡ true
      → last_match sha256 d m cs ≡ m
  unfolding last_match compile_principals
  last_match-kept namespaces seen [] cs d m h k =
      subst (λ x. last_match sha256 d m x ≡ m) (ok-inj h) refl
  last_match-kept namespaces seen ((name, p) ∷ ps) cs d m h k =
      let c = principals-Compiled sha256 namespaces seen name p ps cs h in
      let kept = c.has_tokens.is_kept d k in
      let absent : has_text c.first.tokens d ≡ false =
        elim (Bool-cases (has_text c.first.tokens d)) [
          | inl found ↦ absurd (true-ne-false (sym k ∙ c.has_tokens.is_fresh d found))
          | inr missing ↦ missing
        ] in
      let rest = last_match-kept namespaces c.now ps c.others d m c.is_compiled kept in
      rw (c.is_cons, last_match, absent, rest) refl

  last_match-Agrees :
      (namespaces : List (Text × Namespace)) (seen : List Text) (ps : List (Text × PrincipalConfig))
      (cs : List CompiledPrincipal) (token : Text)
      → compile_principals sha256 namespaces seen ps ≡ ok cs
      → HasNoCollision ps token
      → Agrees (last_match sha256 (sha256 token) none cs) (holder ps token)
  unfolding last_match compile_principals
  last_match-Agrees namespaces seen [] cs token h free =
      subst (λ x. Agrees (last_match sha256 (sha256 token) none x) none) (ok-inj h) tt
  last_match-Agrees namespaces seen ((name, p) ∷ ps) cs token h free =
      let c = principals-Compiled sha256 namespaces seen name p ps cs h in
      let tokens = c.has_tokens in
      elim (Bool-cases (has_text p.tokens token)) [
        | inl found ↦
            let digest : has_text c.first.tokens (sha256 token) ≡ true =
              ap (λ ds. has_text ds (sha256 token)) tokens.are_digests
              ∙ digests-of_token p.tokens token found in
            let rest =
              last_match-kept namespaces c.now ps c.others (sha256 token) (some c.first)
                c.is_compiled (tokens.is_seen (sha256 token) digest) in
            rw (c.is_cons, last_match, digest, rest, found) c.has_grants
        | inr missing ↦
            let absent : has_text c.first.tokens (sha256 token) ≡ false =
              elim (Bool-cases (has_text c.first.tokens (sha256 token))) [
                | inl found ↦ absurd (
                    true-ne-false (
                      sym (
                        token-of_digests p.tokens token free.0
                          (ap (λ ds. has_text ds (sha256 token)) (sym tokens.are_digests) ∙ found))
                      ∙ missing))
                | inr other ↦ other
              ] in
            rw (c.is_cons, last_match, absent, missing)
              (last_match-Agrees namespaces c.now ps c.others token c.is_compiled free.1)
      ]

  -- An empty token is too short to be one of the configuration.
  holder-empty :
      (namespaces : List (Text × Namespace)) (seen : List Text) (ps : List (Text × PrincipalConfig))
      (cs : List CompiledPrincipal)
      → compile_principals sha256 namespaces seen ps ≡ ok cs
      → holder ps [] ≡ none
  unfolding compile_principals
  holder-empty namespaces seen [] cs h = refl
  holder-empty namespaces seen ((name, p) ∷ ps) cs h =
      let c = principals-Compiled sha256 namespaces seen name p ps cs h in
      rw (c.has_tokens.is_filled, holder) (holder-empty namespaces c.now ps c.others c.is_compiled)

  find_principal-Agrees :
      (config : AccessConfig) (p : Policy) (token : Text)
      → compile_policy sha256 config ≡ ok p
      → HasNoCollision config.principals token
      → Agrees (find_principal sha256 p token) (holder config.principals token)
  unfolding compile_policy find_principal
  find_principal-Agrees config p token h free =
      let (filled, h) = refuse-eq-ok (is_nil config.namespaces) namespaces_empty _ h in
      let (some_principals, h) = refuse-eq-ok (is_nil config.principals) principals_empty _ h in
      let (namespaces, bound, h) = >>=-eq-ok (compile_namespaces config.namespaces) _ h in
      let (principals, compiled, e) = >>=-eq-ok _ _ h in
      subst (λ q. Agrees (find_principal sha256 q token) (holder config.principals token))
        (ok-inj e) (found namespaces principals config.principals token compiled free)
    where
      found :
          (namespaces : List (Text × Namespace)) (principals : List CompiledPrincipal)
          (ps : List (Text × PrincipalConfig)) (token : Text)
          → compile_principals sha256 namespaces [] ps ≡ ok principals
          → HasNoCollision ps token
          → Agrees
              (find_principal sha256
                (record { namespaces = namespaces; principals = principals })
                token)
              (holder ps token)
      found namespaces principals ps [] h free =
          subst (λ x. Agrees none x) (sym (holder-empty namespaces [] ps principals h)) tt
      found namespaces principals ps (c ∷ token) h free =
          last_match-Agrees namespaces [] ps principals (c ∷ token) h free

  -- Where a configuration compiles to a policy and no other token of the configuration has the
  -- digest of the given one, the policy decides for the token, a namespace and a capability as the
  -- configuration does: unauthenticated if no principal has the token, allowed if the first
  -- principal that has it is granted the capability in the namespace, and forbidden otherwise.
  pub authorize-granted :
      (config : AccessConfig) (p : Policy) (token namespace capability : Text)
      → compile_policy sha256 config ≡ ok p
      → HasNoCollision config.principals token
      → authorize sha256 (some p) token namespace capability
        ≡ granted config token namespace capability
  unfolding authorize
  authorize-granted config p token namespace capability h free =
      Agrees-decision (find_principal sha256 p token) (holder config.principals token) namespace
        capability (find_principal-Agrees config p token h free)
