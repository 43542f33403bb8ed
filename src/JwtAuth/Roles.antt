-- ===== src/JwtAuth/Roles.antt =====
-- The identities that sdk/go/gateway/jwtauth accepts.
use stellarmesh_sdk.Base.{
  ◌≡◌, refl, sym, ap, ◌∙◌, subst, Bool, true, false, not, ◌&&◌, List, [], ◌∷◌, Option, none, some,
  any, arith, Bool-cases, Option-cases, inl, inr, true-ne-false,
}
use stellarmesh_sdk.Text.{Text, trim_space, has_text, ◌==◌}
use stellarmesh_sdk.Text.Laws.{==→eq, eq→==}
use stellarmesh_sdk.Gateway.Route.{is_empty}
use stellarmesh_sdk.Gateway.Types.{
  returns-inj, fails-ne-returns, Identity, AuthenticationDecision, returns,
}
use stellarmesh_sdk.JwtAuth.{
  Parser, Authenticator, rejected_decision, roles_from, normalize_roles, normalized_identity,
  mapped_decision, subject_decision, parsed_decision, authenticate,
}

-- No role stands twice.
abbrev pub Distinct : List Text → Type 0
Distinct [] = Unit
Distinct (t ∷ ts) = (has_text ts t ≡ false) × Distinct ts

abbrev given : List Text → Text → Bool
given roles t = not (is_empty t) && any (λ r. trim_space r == t) roles

roles_from-given :
    (seen roles : List Text) (t : Text)
    → has_text (roles_from seen roles) t ≡ (not (has_text seen t) && given roles t)
unfolding roles_from has_text
roles_from-given seen [] t = ground arith
roles_from-given seen (role ∷ roles) t = elim (Bool-cases (trim_space role == t)) [
  | inl same ↦
      let e = ==→eq (trim_space role) t same in
      elim (Bool-cases (is_empty (trim_space role))) [
        | inl blank ↦
            let empty : is_empty t ≡ true = subst (λ x. is_empty x ≡ true) e blank in
            rw (blank, roles_from) ground (arith, roles_from-given seen roles t)
        | inr filled ↦
            let kept : is_empty t ≡ false = subst (λ x. is_empty x ≡ false) e filled in
            elim (Bool-cases (has_text seen (trim_space role))) [
              | inl old ↦
                  let was : has_text seen t ≡ true = subst (λ x. has_text seen x ≡ true) e old in
                  rw (filled, roles_from, old) ground (arith, roles_from-given seen roles t)
              | inr new ↦
                  let was : has_text seen t ≡ false = subst (λ x. has_text seen x ≡ false) e new in
                  rw (filled, roles_from, new) ground arith
            ]
      ]
  | inr other ↦ elim (Bool-cases (is_empty (trim_space role))) [
    | inl blank ↦ rw (blank, roles_from) ground (arith, roles_from-given seen roles t)
    | inr filled ↦ elim (Bool-cases (has_text seen (trim_space role))) [
      | inl old ↦ rw (filled, roles_from, old) ground (arith, roles_from-given seen roles t)
      | inr new ↦
          rw (filled, roles_from, new) ground
            (arith, roles_from-given (trim_space role ∷ seen) roles t)
    ]
  ]
]

roles_from-Distinct : (seen roles : List Text) → Distinct (roles_from seen roles)
unfolding roles_from has_text
roles_from-Distinct seen [] = tt
roles_from-Distinct seen (role ∷ roles) = elim (Bool-cases (is_empty (trim_space role))) [
  | inl blank ↦ rw (blank, roles_from) (roles_from-Distinct seen roles)
  | inr filled ↦ elim (Bool-cases (has_text seen (trim_space role))) [
    | inl old ↦ rw (filled, roles_from, old) (roles_from-Distinct seen roles)
    | inr new ↦
        let role = trim_space role in
        let same = eq→== role role refl in
        rw (filled, roles_from, new)
          (
            ground (arith, roles_from-given (role ∷ seen) roles role),
            roles_from-Distinct (role ∷ seen) roles,
          )
  ]
]

-- Normalised roles hold no role twice, and a text is one of them exactly if it is not empty and
-- what trimming leaves of a given role.
pub normalize_roles-given :
    (roles : List Text)
    → Distinct (normalize_roles roles)
      × ((t : Text)
          → has_text (normalize_roles roles) t
            ≡ (not (is_empty t) && any (λ r. trim_space r == t) roles))
unfolding normalize_roles has_text
normalize_roles-given roles = (roles_from-Distinct [] roles, λ t. roles_from-given [] roles t)

-- What stands behind an identity: the claims of a valid token, with a subject, and what they map to.
pub record IsAccepted (Claims : Type 0) (parse : Parser Claims) (get_subject : Claims → Option Text)
    (a : Authenticator Claims) (raw_token : Text) (identity : Identity) : Type 0 where
  pub fresh : Claims
  pub claims : Claims
  pub subject : Text
  pub mapped : Identity
  pub is_made : a.claims_factory ≡ some fresh
  pub is_parsed : parse a.secret a.parser_options raw_token fresh ≡ some (claims, true)
  pub is_subject : get_subject claims ≡ some subject
  pub has_subject : is_empty (trim_space subject) ≡ false
  pub is_mapped : a.identity_mapper claims ≡ some mapped
  pub is_user : identity.user_id ≡ trim_space mapped.user_id
  pub has_user : is_empty identity.user_id ≡ false
  pub has_roles : identity.roles ≡ normalize_roles mapped.roles

module _ (Claims : Type 0) (parse : Parser Claims) (get_subject : Claims → Option Text) where
  mapped-accepted :
      (m : Option Identity)
      → (mapped_decision Claims parse get_subject m).authenticated ≡ true
      → (i : Identity) × (m ≡ some i)
        × (is_empty (trim_space i.user_id) ≡ false)
        × ((mapped_decision Claims parse get_subject m).identity
            ≡ normalized_identity Claims parse get_subject i)
  unfolding mapped_decision
  mapped-accepted none h = cc
  mapped-accepted (some i) h = elim (Bool-cases (is_empty (trim_space i.user_id))) [
    | inl blank ↦ absurd (true-ne-false (sym (rw (blank, mapped_decision) at h)))
    | inr filled ↦ (i, refl, filled, rw (filled, mapped_decision) refl)
  ]

  subject-accepted :
      (a : Authenticator Claims) (claims : Claims) (o : Option Text)
      → (subject_decision Claims parse get_subject a claims o).authenticated ≡ true
      → (subject : Text) × (o ≡ some subject)
        × (is_empty (trim_space subject) ≡ false)
        × (subject_decision Claims parse get_subject a claims o
            ≡ mapped_decision Claims parse get_subject (a.identity_mapper claims))
  unfolding subject_decision
  subject-accepted a claims none h = cc
  subject-accepted a claims (some subject) h = elim (Bool-cases (is_empty (trim_space subject))) [
    | inl blank ↦ absurd (true-ne-false (sym (rw (blank, subject_decision) at h)))
    | inr filled ↦ (subject, refl, filled, rw (filled, subject_decision) refl)
  ]

  parsed-IsAccepted :
      (a : Authenticator Claims) (raw_token : Text) (fresh : Claims) (o : Option (Claims × Bool))
      → a.claims_factory ≡ some fresh
      → parse a.secret a.parser_options raw_token fresh ≡ o
      → (parsed_decision Claims parse get_subject a o).authenticated ≡ true
      → IsAccepted Claims parse get_subject a raw_token
          (parsed_decision Claims parse get_subject a o).identity
  unfolding parsed_decision normalized_identity
  parsed-IsAccepted a raw_token fresh none made parsed h = cc
  parsed-IsAccepted a raw_token fresh (some (claims, false)) made parsed h = cc
  parsed-IsAccepted a raw_token fresh (some (claims, true)) made parsed h =
      let (subject, has, filled, e) = subject-accepted a claims (get_subject claims) h in
      let (i, mapped, user, is_identity) =
        mapped-accepted (a.identity_mapper claims) (ap (λ d. d.authenticated) (sym e) ∙ h) in
      let same = ap (λ d. d.identity) e ∙ is_identity in
      record {
        fresh = fresh;
        claims = claims;
        subject = subject;
        mapped = i;
        is_made = made;
        is_parsed = parsed;
        is_subject = has;
        has_subject = filled;
        is_mapped = mapped;
        is_user = ap (λ j. j.user_id) same;
        has_user = ap (λ j. is_empty j.user_id) same ∙ user;
        has_roles = ap (λ j. j.roles) same;
      }

  -- A decision of the JWT authenticator that is authenticated has an identity that comes from
  -- claims of the claims factory which the parser filled for the token, with the authenticator's
  -- secret and options, and found valid; the claims have a subject that is not blank and map to an
  -- identity; its user ID is the mapped one trimmed and not empty, and its roles are the mapped
  -- ones normalised.
  pub authenticate-IsAccepted :
      (a : Authenticator Claims) (raw_token : Text) (d : AuthenticationDecision)
      → authenticate Claims parse get_subject a raw_token ≡ returns d
      → d.authenticated ≡ true
      → IsAccepted Claims parse get_subject a raw_token d.identity
  unfolding authenticate
  authenticate-IsAccepted a raw_token d h accepted =
      elim (Bool-cases (is_empty (trim_space raw_token))) [
        | inl blank ↦
            let e : rejected_decision ≡ d = returns-inj (rw (blank, authenticate) at h) in
            absurd (true-ne-false (sym accepted ∙ ap (λ x. x.authenticated) (sym e)))
        | inr filled ↦ elim (Option-cases a.claims_factory) [
          | inl nil ↦ absurd (fails-ne-returns (rw (filled, authenticate, nil) at h))
          | inr (fresh, made) ↦
              let o = parse a.secret a.parser_options raw_token fresh in
              let e : parsed_decision Claims parse get_subject a o ≡ d =
                returns-inj (rw (filled, authenticate, made) at h) in
              subst (λ x. IsAccepted Claims parse get_subject a raw_token x.identity) e
                (parsed-IsAccepted a raw_token fresh o made refl
                  (ap (λ x. x.authenticated) e ∙ accepted))
        ]
      ]
