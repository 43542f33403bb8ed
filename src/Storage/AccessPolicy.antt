-- ===== src/Storage/AccessPolicy.antt =====
-- services/storage/internal/storagev1/access_policy.go: who may do what in which namespace. A Go map
-- is the list of its entries, in the order of an iteration; SHA-256 is a parameter. `none` is a nil policy.
pub mod Compiled
pub mod Refines
use stellarmesh_sdk.Base.{
  Bool, true, false, not, ◌||◌, List, [], ◌∷◌, Option, none, some, ltb, if◌then◌else◌, Result, ok,
  err, refuse, ◌>>=◌, ◌>>◌,
}
use stellarmesh_sdk.Text.{Text, ascii, ◌==◌, has_text, trim_space}
use stellarmesh_sdk.Text.Utf8.{is_valid_utf8, contains_control, rune_count}
use stellarmesh_sdk.Gateway.Route.{is_empty}
use stellarmesh_sdk.ObjectStorage.{StorageError, Namespace, normalize_namespace}
use stellarmesh_sdk.Storage.Validation.{matches_namespace}

pub data Decision : Type 0 where
  decision_unauthenticated decision_forbidden decision_allowed : Decision

-- The capabilities of a namespace, by its name.
abbrev pub Grants : Type 0
Grants = List (Text × List Text)

pub record PrincipalConfig : Type 0 where
  pub tokens : List Text
  pub grants : Grants

-- `NamespaceConfig` has the fields of a namespace.
pub record AccessConfig : Type 0 where
  pub namespaces : List (Text × Namespace)
  pub principals : List (Text × PrincipalConfig)

pub data PolicyError : Type 0 where
  namespaces_empty principals_empty principal_name_invalid duplicate_token : PolicyError
  namespace_name_invalid : Text → PolicyError
  namespace_invalid : Text → StorageError → PolicyError
  tokens_empty grants_empty token_invalid : Text → PolicyError
  unknown_namespace empty_capabilities : (principal namespace : Text) → PolicyError
  unknown_capability : (principal capability : Text) → PolicyError
  duplicate_capability : (principal namespace capability : Text) → PolicyError

pub record CompiledPrincipal : Type 0 where
  pub tokens : List Text
  pub grants : Grants

-- `Policy`.
pub record Policy : Type 0 where
  pub namespaces : List (Text × Namespace)
  pub principals : List CompiledPrincipal

-- `m[key]`.
unfoldable pub lookup {ℓ} : {A : Type ℓ} → List (Text × A) → Text → Option A
lookup [] key = none
lookup ((k, a) ∷ m) key = if k == key then some a else lookup m key

abbrev is_missing {ℓ} : {A : Type ℓ} → Option A → Bool
is_missing none = true
is_missing (some a) = false

abbrev is_nil {ℓ} : {A : Type ℓ} → List A → Bool
is_nil [] = true
is_nil (x ∷ xs) = false

normalized : Text → Result StorageError Namespace → Result PolicyError Namespace
normalized name (ok n) = ok n
normalized name (err e) = err (namespace_invalid name e)

-- The loops of `CompilePolicy`, the outermost ones last.
compile_namespaces : List (Text × Namespace) → Result PolicyError (List (Text × Namespace))
unfolding normalized
compile_namespaces [] = ok []
compile_namespaces ((name, n) ∷ m) =
    refuse (not (matches_namespace name)) (namespace_name_invalid name)
    >> (normalized name (normalize_namespace n) >>= λ kept.
        compile_namespaces m >>= λ rest. ok ((name, kept) ∷ rest))

abbrev is_capability : Text → Bool
is_capability c = has_text (ascii "read" ∷ ascii "write" ∷ ascii "delete" ∷ []) c

compile_capabilities : Text → Text → List Text → List Text → Result PolicyError (List Text)
compile_capabilities principal namespace seen [] = ok []
compile_capabilities principal namespace seen (c ∷ cs) =
    refuse (not (is_capability c)) (unknown_capability principal c)
    >> (refuse (has_text seen c) (duplicate_capability principal namespace c)
        >> (compile_capabilities principal namespace (c ∷ seen) cs >>= λ rest. ok (c ∷ rest)))

compile_grants : List (Text × Namespace) → Text → Grants → Result PolicyError Grants
unfolding compile_capabilities
compile_grants namespaces principal [] = ok []
compile_grants namespaces principal ((namespace, capabilities) ∷ gs) =
    refuse (is_missing (lookup namespaces namespace)) (unknown_namespace principal namespace)
    >> (refuse (is_nil capabilities) (empty_capabilities principal namespace)
        >> (compile_capabilities principal namespace [] capabilities >>= λ set.
            compile_grants namespaces principal gs >>= λ rest. ok ((namespace, set) ∷ rest)))

module _ (sha256 : Text → Text) where
  -- The digests, and `seenTokens` after them.
  compile_tokens : Text → List Text → List Text → Result PolicyError (List Text × List Text)
  compile_tokens principal seen [] = ok ([], seen)
  compile_tokens principal seen (t ∷ ts) =
      refuse (not (is_valid_utf8 t) || (ltb (rune_count t) 32 || contains_control t))
        (token_invalid principal)
      >> (refuse (has_text seen (sha256 t)) duplicate_token
          >> (compile_tokens principal (sha256 t ∷ seen) ts >>= λ rest.
              ok (sha256 t ∷ rest.0, rest.1)))

  bad_name : Text → Bool
  bad_name name =
      is_empty (trim_space name)
      || (not (name == trim_space name) || (not (is_valid_utf8 name) || contains_control name))

  pub compile_principals :
      List (Text × Namespace)
      → List Text
      → List (Text × PrincipalConfig)
      → Result PolicyError (List CompiledPrincipal)
  unfolding compile_tokens compile_grants bad_name
  compile_principals namespaces seen [] = ok []
  compile_principals namespaces seen ((name, p) ∷ ps) =
      refuse (bad_name name) principal_name_invalid
      >> (refuse (is_nil p.tokens) (tokens_empty name)
          >> (refuse (is_nil p.grants) (grants_empty name)
              >> (compile_tokens name seen p.tokens >>= λ digests.
                  compile_grants namespaces name p.grants >>= λ grants.
                  compile_principals namespaces digests.1 ps >>= λ rest.
                  ok (record { tokens = digests.0; grants = grants } ∷ rest))))

  -- `CompilePolicy`.
  unfoldable pub compile_policy : AccessConfig → Result PolicyError Policy
  unfolding compile_namespaces compile_principals
  compile_policy config =
      refuse (is_nil config.namespaces) namespaces_empty
      >> (refuse (is_nil config.principals) principals_empty
          >> (compile_namespaces config.namespaces >>= λ namespaces.
              compile_principals namespaces [] config.principals >>= λ principals.
              ok (record { namespaces = namespaces; principals = principals })))

  -- The loop of `authenticate`; the principal stands for its index.
  last_match : Text → Option CompiledPrincipal → List CompiledPrincipal → Option CompiledPrincipal
  last_match digest matched [] = matched
  last_match digest matched (p ∷ ps) =
      last_match digest (if has_text p.tokens digest then some p else matched) ps

  find_principal : Policy → Text → Option CompiledPrincipal
  unfolding last_match
  find_principal p [] = none
  find_principal p (c ∷ token) = last_match (sha256 (c ∷ token)) none p.principals

  -- `Authorize`.
  unfoldable pub authorize : Option Policy → Text → Text → Text → Decision
  unfolding find_principal
  authorize none token namespace capability = decision_unauthenticated
  authorize (some p) token namespace capability = elim (find_principal p token) [
    | none ↦ decision_unauthenticated
    | some principal ↦ elim (lookup principal.grants namespace) [
      | none ↦ decision_forbidden
      | some capabilities ↦
          if has_text capabilities capability then decision_allowed else decision_forbidden
    ]
  ]

  -- `Authenticate`.
  unfoldable pub authenticate : Option Policy → Text → Bool
  unfolding find_principal
  authenticate none token = false
  authenticate (some p) token = not (is_missing (find_principal p token))

-- `Namespace`.
unfoldable pub namespace_of : Option Policy → Text → Option Namespace
namespace_of none name = none
namespace_of (some p) name = lookup p.namespaces name
