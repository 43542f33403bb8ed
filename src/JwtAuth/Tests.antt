-- ===== src/JwtAuth/Tests.antt =====
-- Tests of the JWT authenticator, and its theorems at a token.
use stellarmesh_sdk.Base.{
  ◌≡◌, refl, true, not, ◌&&◌, List, [], ◌∷◌, Option, none, some, pos, any, ok,
}
use stellarmesh_sdk.Text.{Text, ascii, has_text, trim_space, ◌==◌, has_prefix, text_discrete}
use stellarmesh_sdk.Gateway.Route.{is_empty}
use stellarmesh_sdk.Gateway.Types.{Identity, AuthenticationDecision, returns}
use stellarmesh_sdk.JwtAuth.{
  Config, Parser, Authenticator, normalize_roles, authenticate, new_authenticator,
}
use stellarmesh_sdk.JwtAuth.Roles.{
  Distinct, IsAccepted, normalize_roles-given, authenticate-IsAccepted,
}

-- Claims are a subject, and the parser takes the token for it.
abbrev parse : Parser Text
parse secret options raw_token claims = some (raw_token, true)

abbrev user : Text → Option Identity
user subject =
    some
      (record { user_id = subject; roles = ascii "admin" ∷ ascii " admin" ∷ []; attributes = none })

abbrev secret : Text
secret = ascii "0123456789abcdef0123456789abcdef"

abbrev config : Config Text
config = record {
  secret = secret;
  issuer = ascii " mesh ";
  audience = ascii "api";
  leeway = pos 0;
  claims_factory = none;
  identity_mapper = none;
}

abbrev authenticator : Authenticator Text
authenticator = record {
  secret = secret;
  parser_options = record {
    issuer = ascii "mesh";
    audience = ascii "api";
    leeway = pos 30_000_000_000;
  };
  claims_factory = some [];
  identity_mapper = user;
}

builds : new_authenticator Text [] user config ≡ ok authenticator
unfolding new_authenticator trim_space has_prefix
builds = refl

abbrev decision : AuthenticationDecision
decision = record {
  authenticated = true;
  identity = record { user_id = ascii "ann"; roles = ascii "admin" ∷ []; attributes = none };
  reason = [];
}

accepts : authenticate Text parse some authenticator (ascii "ann") ≡ returns decision
unfolding authenticate trim_space has_prefix normalize_roles has_text text_discrete
accepts = refl

authenticate-IsAccepted_example :
    IsAccepted Text parse some authenticator (ascii "ann") decision.identity
authenticate-IsAccepted_example =
    authenticate-IsAccepted Text parse some authenticator (ascii "ann") decision accepts refl

abbrev roles : List Text
roles = ascii " a" ∷ ascii "a" ∷ ascii " " ∷ []

normalize_roles-given_example :
    Distinct (normalize_roles roles)
    × ((t : Text)
        → has_text (normalize_roles roles) t
          ≡ (not (is_empty t) && any (λ r. trim_space r == t) roles))
normalize_roles-given_example = normalize_roles-given roles
