-- ===== src/Storage/Tests.antt =====
-- Tests of the storage service, and its theorems at concrete inputs.
use mathlib.Core.List.Perm
use stellarmesh_sdk.Base.{
  ◌≡◌, refl, true, false, [], ◌∷◌, Option, none, some, ℤ, pos, Result, ok, err, if◌then◌else◌,
}
use stellarmesh_sdk.Text.{
  Text, ascii, ◌==◌, has_prefix, has_text, text_discrete, trim_left, trim_right, trim_space,
}
use stellarmesh_sdk.ObjectStorage.{closed_prefix, normalize_namespace}
use stellarmesh_sdk.Storage.Validation.{matches_namespace, presign_ttl}
use stellarmesh_sdk.Storage.AccessPolicy.{
  AccessConfig, PrincipalConfig, Policy, PolicyError, duplicate_token, compile_policy, authorize,
  decision_allowed, decision_forbidden, lookup,
}
use stellarmesh_sdk.Storage.AccessPolicy.Refines.{granted, authorize-granted}
use stellarmesh_sdk.Storage.Config.{load, Config}
use stellarmesh_sdk.Storage.Config.Bounds.{IsBounded, load-IsBounded}
use stellarmesh_sdk.Storage.Health.{new_health, check_all}
use stellarmesh_sdk.Storage.Health.Readiness.{IsReadiness, check_all-IsReadiness_in_any_order}
use stellarmesh_sdk.EnvConfig.{Env, bool_strict, duration_strict, set_value, string}
use stellarmesh_sdk.EnvConfig.Loader.{loader_bool, loader_duration}
use stellarmesh_sdk.Text.Utf8.{contains_control, is_valid_utf8, rune_count}

-- A digest without collisions.
abbrev digest : Text → Text
digest s = b'#' ∷ s

abbrev token_a : Text
token_a = ascii "aaaaaaaaaaaaaaaaaaaaaaaaaaaaaaaa"

abbrev token_b : Text
token_b = ascii "bbbbbbbbbbbbbbbbbbbbbbbbbbbbbbbb"

abbrev reader : PrincipalConfig
reader = record { tokens = token_a ∷ []; grants = (ascii "media", ascii "read" ∷ []) ∷ [] }

abbrev writer : PrincipalConfig
writer = record { tokens = token_b ∷ []; grants = (ascii "media", ascii "write" ∷ []) ∷ [] }

abbrev access : AccessConfig
access = record {
  namespaces = (ascii "media", record { bucket = ascii "data"; prefix = ascii "m" }) ∷ [];
  principals = (ascii "web", reader) ∷ (ascii "job", writer) ∷ [];
}

abbrev policy_of : Result PolicyError Policy → Policy
policy_of (ok p) = p
policy_of (err e) = record { namespaces = []; principals = [] }

abbrev policy : Policy
policy = record {
  namespaces = (ascii "media", record { bucket = ascii "data"; prefix = ascii "m/" }) ∷ [];
  principals =
      record { tokens = digest token_a ∷ []; grants = reader.grants }
      ∷ record { tokens = digest token_b ∷ []; grants = writer.grants }
      ∷ [];
}

compiles : compile_policy digest access ≡ ok policy
unfolding compile_policy matches_namespace normalize_namespace trim_space has_prefix text_discrete
    is_valid_utf8 contains_control closed_prefix trim_right trim_left rune_count has_text lookup
compiles = refl

authorize-granted_example :
    authorize digest (some policy) token_b (ascii "media") (ascii "write")
    ≡ granted access token_b (ascii "media") (ascii "write")
authorize-granted_example =
    authorize-granted digest access policy token_b (ascii "media") (ascii "write") compiles
      (((λ e. cc), tt), (((λ e. cc), tt), tt))

allows : granted access token_b (ascii "media") (ascii "write") ≡ decision_allowed
unfolding has_text text_discrete lookup
allows = refl

forbids : granted access token_b (ascii "media") (ascii "read") ≡ decision_forbidden
unfolding has_text text_discrete lookup
forbids = refl

repeats :
    compile_policy digest (record {
      namespaces = access.namespaces;
      principals = (ascii "web", reader) ∷ (ascii "job", reader) ∷ [];
    })
    ≡ err duplicate_token
unfolding compile_policy matches_namespace normalize_namespace trim_space has_prefix text_discrete
    is_valid_utf8 contains_control closed_prefix trim_right trim_left rune_count has_text lookup
repeats = refl

names : matches_namespace (ascii "a-1_b") ≡ true
unfolding matches_namespace
names = refl

lifetimes : presign_ttl (pos 0) ≡ ok (pos 900_000_000_000)
unfolding presign_ttl
lifetimes = refl

abbrev no_duration : Text → Option ℤ
no_duration s = none

abbrev env : Env
env key =
    if key == ascii "STELLARMESH_STORAGE_ACCESS_FILE"
    then some (ascii "/etc/access.json")
    else if key == ascii "AWS_REGION"
    then some (ascii "eu-1")
    else none

abbrev loaded_config : Config
loaded_config = record {
  addr = ascii ":8090";
  access_file = ascii "/etc/access.json";
  region = ascii "eu-1";
  endpoint = [];
  presign_endpoint = [];
  use_path_style = false;
  default_presign_ttl = pos 900_000_000_000;
  max_presign_ttl = pos 3_600_000_000_000;
  read_header_timeout = pos 5_000_000_000;
  read_timeout = pos 10_000_000_000;
  write_timeout = pos 15_000_000_000;
  idle_timeout = pos 60_000_000_000;
  shutdown_timeout = pos 10_000_000_000;
  s3_check_timeout = pos 5_000_000_000;
  s3_check_interval = pos 30_000_000_000;
}

loads : load no_duration env ≡ ok loaded_config
unfolding load loader_duration duration_strict set_value text_discrete loader_bool bool_strict
    string trim_space has_prefix
loads = refl

load-IsBounded_example : IsBounded loaded_config
load-IsBounded_example = load-IsBounded no_duration env loaded_config loads

check_all-IsReadiness_in_any_order_example :
    IsReadiness
      (some new_health)
      (true ∷ false ∷ [])
      (check_all (some new_health) (false ∷ true ∷ []))
check_all-IsReadiness_in_any_order_example =
    check_all-IsReadiness_in_any_order (some new_health) (true ∷ false ∷ []) (false ∷ true ∷ [])
      (Perm.swap false true [])
