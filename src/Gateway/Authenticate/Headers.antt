-- ===== src/Gateway/Authenticate/Headers.antt =====
-- The identity headers of the request that the upstream sees.
use stellarmesh_sdk.Base.{◌≡◌, refl, List, [], ◌∷◌, Option, none, some, arith, ◌∙◌, if◌then◌else◌}
use stellarmesh_sdk.Text.{Text, ascii, ◌==◌, join, contains_byte, upper_byte, lower_byte}
use stellarmesh_sdk.Gateway.Token.{is_token_byte}
use stellarmesh_sdk.Gateway.Header.{Header, canonical_header_key, put, set, del}
use stellarmesh_sdk.Gateway.Types.{Identity}
use stellarmesh_sdk.Gateway.Authenticate.{add_roles, strip_and_inject_identity}

abbrev user_field : Text
user_field = ascii "X-User-Id"

abbrev roles_field : Text
roles_field = ascii "X-User-Roles"

canonical_user : canonical_header_key (ascii "X-User-ID") ≡ user_field
unfolding canonical_header_key is_token_byte contains_byte upper_byte lower_byte
canonical_user = refl

canonical_roles : canonical_header_key (ascii "X-User-Roles") ≡ roles_field
unfolding canonical_header_key is_token_byte contains_byte upper_byte lower_byte
canonical_roles = refl

-- The values that the gateway sends: none without an identity.
abbrev pub user_values : Option Identity → List Text
user_values none = []
user_values (some i) = i.user_id ∷ []

abbrev pub joined_roles : List Text → List Text
joined_roles [] = []
joined_roles (r ∷ rs) = join (r ∷ rs) b',' ∷ []

abbrev pub role_values : Option Identity → List Text
role_values none = []
role_values (some i) = joined_roles i.roles

-- The header at any field: the identity's two fields are the gateway's own, and every other field
-- is as it came.
abbrev joined_or : List Text → List Text → List Text
joined_or [] old = old
joined_or (r ∷ rs) old = join (r ∷ rs) b',' ∷ []

module _ (h : Header) (field : Text) where
  abbrev pub identity_values : Option Identity → List Text
  identity_values i =
      if user_field == field
      then user_values i
      else if roles_field == field
      then role_values i
      else h field

  add_roles-at :
      (roles : List Text) (h' : Header)
      → add_roles roles h' field
        ≡ (if roles_field == field then joined_or roles (h' field) else h' field)
  unfolding add_roles set put
  add_roles-at [] h' = ground arith
  add_roles-at (r ∷ rs) h' = rw canonical_roles (ground arith)

  injected : Identity → Header
  injected i =
      set (del (del h (ascii "X-User-ID")) (ascii "X-User-Roles")) (ascii "X-User-ID") i.user_id

  injected-at :
      (i : Identity)
      → injected i field ≡ (
          if user_field == field
          then i.user_id ∷ []
          else if roles_field == field
          then []
          else h field)
  unfolding injected set del put
  injected-at i = rw (canonical_user, canonical_roles) (ground arith)

  with_roles :
      (user : Text) (roles : List Text)
      → (if roles_field == field
          then joined_or roles (
              if user_field == field
              then user ∷ []
              else if roles_field == field
              then []
              else h field)
          else if user_field == field
          then user ∷ []
          else if roles_field == field
          then []
          else h field)
        ≡ (if user_field == field
            then user ∷ []
            else if roles_field == field
            then joined_roles roles
            else h field)
  with_roles user [] = ground arith
  with_roles user (r ∷ rs) = ground arith

  pub strip_and_inject_identity-at :
      (i : Option Identity) → strip_and_inject_identity h i field ≡ identity_values i
  unfolding strip_and_inject_identity
  strip_and_inject_identity-at none =
      unfold set del put in rw (canonical_user, canonical_roles) (ground arith)
  strip_and_inject_identity-at (some i) =
      unfold injected in
      (add_roles-at i.roles (injected i) ∙ (rw (injected-at i) (with_roles i.user_id i.roles)))
