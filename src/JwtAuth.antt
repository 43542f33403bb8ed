-- ===== src/JwtAuth.antt =====
-- sdk/go/gateway/jwtauth/authenticator.go: bearer tokens with HS256. The JWT library's parser is a
-- parameter, as are the claims, with `none` for a nil claims object, factory or mapper; it is given the
-- secret, what `New` configures of it, and the token, and gives the claims it filled and whether the
-- token is valid, or nothing where it has an error.
pub mod Roles
mod Tests
use stellarmesh_sdk.Base.{
  ℕ, Bool, true, false, List, [], ◌∷◌, Option, none, some, ltb, if◌then◌else◌, length, ℤ, pos,
  is_negative, is_zero, Result, ok, err, refuse, ◌>>=◌, ◌>>◌,
}
use stellarmesh_sdk.Text.{Text, ascii, trim_space, has_text}
use stellarmesh_sdk.Gateway.Route.{is_empty}
use stellarmesh_sdk.Gateway.Types.{Identity, AuthenticationDecision, Call, returns, fails, failure}

pub data JwtError : Type 0 where
  secret_too_short issuer_required audience_required leeway_negative claims_nil : JwtError

-- The options of `jwt.NewParser` that vary: HS256 and an expiry time are always wanted.
pub record ParserOptions : Type 0 where
  pub issuer : Text
  pub audience : Text
  pub leeway : ℤ

abbrev pub no_identity : Identity
no_identity = record { user_id = []; roles = []; attributes = none }

-- `rejectedDecision`.
abbrev pub rejected_decision : AuthenticationDecision
rejected_decision = record {
  authenticated = false;
  identity = no_identity;
  reason = ascii "invalid bearer token";
}

-- The loop of `normalizeRoles`; `seen` is the set.
roles_from : List Text → List Text → List Text
roles_from seen [] = []
roles_from seen (role ∷ roles) = elim (is_empty (trim_space role)) [
  | true ↦ roles_from seen roles
  | false ↦ elim (has_text seen (trim_space role)) [
    | true ↦ roles_from seen roles
    | false ↦ trim_space role ∷ roles_from (trim_space role ∷ seen) roles
  ]
]

-- `normalizeRoles`.
unfoldable pub normalize_roles : List Text → List Text
unfolding roles_from
normalize_roles roles = roles_from [] roles

module _ (Claims : Type 0) where
  pub record Config : Type 0 where
    pub secret : Text
    pub issuer : Text
    pub audience : Text
    pub leeway : ℤ
    pub claims_factory : Option (Option Claims)
    pub identity_mapper : Option (Claims → Option Identity)

  -- The claims that the parser fills, and the validity of the token.
  abbrev pub Parser : Type 0
  Parser = Text → ParserOptions → Text → Claims → Option (Claims × Bool)

  pub record Authenticator : Type 0 where
    pub secret : Text
    pub parser_options : ParserOptions
    pub claims_factory : Option Claims
    pub identity_mapper : Claims → Option Identity

  module _ (new_claims : Claims) (default_identity_mapper : Claims → Option Identity) where
    -- A factory makes equal claims each time.
    factory : Option (Option Claims) → Option Claims
    factory none = some new_claims
    factory (some made) = made

    mapper : Option (Claims → Option Identity) → Claims → Option Identity
    mapper none = default_identity_mapper
    mapper (some m) = m

    is_nil_claims : Option Claims → Bool
    is_nil_claims none = true
    is_nil_claims (some c) = false

    -- `New`.
    unfoldable pub new_authenticator : Config → Result JwtError Authenticator
    unfolding factory mapper is_nil_claims
    new_authenticator config =
        refuse (ltb (length config.secret) 32) secret_too_short
        >> (refuse (is_empty (trim_space config.issuer)) issuer_required
            >> (refuse (is_empty (trim_space config.audience)) audience_required
                >> (refuse (is_negative config.leeway) leeway_negative
                    >> (refuse (is_nil_claims (factory config.claims_factory)) claims_nil
                        >> ok (record {
                          secret = config.secret;
                          parser_options = record {
                            issuer = trim_space config.issuer;
                            audience = trim_space config.audience;
                            leeway =
                                if is_zero config.leeway then pos 30_000_000_000 else config.leeway;
                          };
                          claims_factory = factory config.claims_factory;
                          identity_mapper = mapper config.identity_mapper;
                        })))))

  module _ (parse : Parser) (get_subject : Claims → Option Text) where
    normalized_identity : Identity → Identity
    normalized_identity i = record i {
      user_id = trim_space i.user_id;
      roles = normalize_roles i.roles;
    }

    -- What the mapper made of the claims.
    mapped_decision : Option Identity → AuthenticationDecision
    unfolding normalized_identity
    mapped_decision none = rejected_decision
    mapped_decision (some i) =
        if is_empty (trim_space i.user_id)
        then rejected_decision
        else record { authenticated = true; identity = normalized_identity i; reason = [] }

    subject_decision : Authenticator → Claims → Option Text → AuthenticationDecision
    unfolding mapped_decision
    subject_decision a claims none = rejected_decision
    subject_decision a claims (some subject) =
        if is_empty (trim_space subject)
        then rejected_decision
        else mapped_decision (a.identity_mapper claims)

    parsed_decision : Authenticator → Option (Claims × Bool) → AuthenticationDecision
    unfolding subject_decision
    parsed_decision a none = rejected_decision
    parsed_decision a (some (claims, false)) = rejected_decision
    parsed_decision a (some (claims, true)) = subject_decision a claims (get_subject claims)

    -- `Authenticate`.
    unfoldable pub authenticate : Authenticator → Text → Call AuthenticationDecision
    unfolding parsed_decision
    authenticate a raw_token =
        if is_empty (trim_space raw_token)
        then returns rejected_decision
        else elim a.claims_factory [
          | none ↦ fails (failure (ascii "JWT claims factory returned nil"))
          | some claims ↦
              returns (parsed_decision a (parse a.secret a.parser_options raw_token claims))
        ]
