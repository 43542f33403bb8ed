-- ===== src/S3Store/Config.antt =====
-- sdk/go/objectstorage/s3store/config.go: the configuration and options of a client. The AWS SDK's
-- configuration and credentials are parameters; `none` is a nil option or component. Of the two
-- endpoints, which Go visits in either order, `endpoint` comes first.
pub mod Lifetimes
use stellarmesh_sdk.Base.{
  Bool, true, false, not, ◌&&◌, ◌||◌, List, [], ◌∷◌, Option, none, some, if◌then◌else◌, ℤ, pos, ltℤ,
  is_zero, Result, ok, err, refuse, ◌>>=◌, ◌>>◌,
}
use stellarmesh_sdk.Text.{Text, ascii, ◌==◌, has_text, trim_space}
use stellarmesh_sdk.Gateway.Route.{is_empty}
use stellarmesh_sdk.Gateway.Cors.{ParsedUrl, ParseUrl}
use stellarmesh_sdk.ObjectStorage.{
  StorageError, failed, unavailable, Namespace, normalize_namespace, is_trimmed, min_presign_ttl,
  max_presign_ttl,
}
use stellarmesh_sdk.S3Store.Provider.{Client}

pub record Config : Type 0 where
  pub region : Text
  pub namespace : Namespace
  pub endpoint : Text
  pub presign_endpoint : Text
  pub use_path_style : Bool
  pub default_presign_ttl : ℤ
  pub max_presign_ttl : ℤ

pub data ConfigError : Type 0 where
  region_invalid presign_endpoint_alone max_ttl_invalid default_ttl_invalid : ConfigError
  nil_option : ConfigError
  endpoint_invalid duplicate_option nil_component : Text → ConfigError
  storage_error : StorageError → ConfigError

namespace_result : Result StorageError Namespace → Result ConfigError Namespace
namespace_result (ok n) = ok n
namespace_result (err e) = err (storage_error e)

abbrev is_none {ℓ} : {A : Type ℓ} → Option A → Bool
is_none none = true
is_none (some a) = false

is_endpoint : Option ParsedUrl → Bool
is_endpoint none = false
is_endpoint (some u) =
    (u.scheme == ascii "http" || u.scheme == ascii "https")
    && (not (is_empty u.host)
        && (is_none u.user
            && (is_empty u.raw_query
                && (is_empty u.fragment && (is_empty u.path || u.path == ascii "/")))))

abbrev or_ttl : ℤ → ℤ → ℤ
or_ttl ttl default = if is_zero ttl then default else ttl

-- The last checks of `normalizeConfig`, of the two lifetimes.
with_lifetimes : Config → ℤ → ℤ → Result ConfigError Config
with_lifetimes cfg default_ttl max_ttl =
    refuse (ltℤ max_ttl min_presign_ttl || ltℤ max_presign_ttl max_ttl) max_ttl_invalid
    >> (refuse (ltℤ default_ttl min_presign_ttl || ltℤ max_ttl default_ttl) default_ttl_invalid
        >> ok (record cfg { default_presign_ttl = default_ttl; max_presign_ttl = max_ttl }))

-- Those of the endpoints before them.
with_namespace : ParseUrl → Config → Result ConfigError Config
unfolding is_endpoint with_lifetimes
with_namespace parse_url cfg =
    refuse (not (is_empty cfg.presign_endpoint) && is_empty cfg.endpoint) presign_endpoint_alone
    >> (refuse (not (is_empty cfg.endpoint || is_endpoint (parse_url cfg.endpoint)))
          (endpoint_invalid (ascii "endpoint"))
        >> (refuse
              (not (is_empty cfg.presign_endpoint || is_endpoint (parse_url cfg.presign_endpoint)))
              (endpoint_invalid (ascii "presign endpoint"))
            >> with_lifetimes cfg (or_ttl cfg.default_presign_ttl (pos 900_000_000_000))
                (or_ttl cfg.max_presign_ttl max_presign_ttl)))

-- `normalizeConfig`; the default lifetime is 15 minutes.
unfoldable pub normalize_config : ParseUrl → Config → Result ConfigError Config
unfolding namespace_result with_namespace
normalize_config parse_url cfg =
    refuse (is_empty (trim_space cfg.region) || not (is_trimmed cfg.region)) region_invalid
    >> (namespace_result (normalize_namespace cfg.namespace) >>= λ namespace.
        with_namespace parse_url (record cfg { namespace = namespace }))

-- What the options hand on: the AWS SDK's configuration, credentials and HTTP client.
module _ (AwsConfig : Type 0) (Credentials : Type 0) (HttpClient : Type 0) where
  -- One constructor for each function that makes an `Option`.
  pub data S3Option : Type 0 where
    with_aws_config : AwsConfig → S3Option
    with_credentials_provider : Option Credentials → S3Option
    with_http_client : Option HttpClient → S3Option
    with_observer : Bool → S3Option

  pub record OptionState : Type 0 where
    pub used : List Text
    pub aws_config : Option AwsConfig
    pub credentials : Option Credentials
    pub http_client : Option HttpClient
    pub observer : Bool

  abbrev pub option_name : S3Option → Text
  option_name (with_aws_config a) = ascii "aws-config"
  option_name (with_credentials_provider p) = ascii "credentials-provider"
  option_name (with_http_client c) = ascii "http-client"
  option_name (with_observer o) = ascii "observer"

  -- The functions `fn` of the options; an observer that is `false` is nil.
  set_option : S3Option → OptionState → Result ConfigError OptionState
  set_option (with_aws_config a) state = ok (record state { aws_config = some a })
  set_option (with_credentials_provider none) state =
      err (nil_component (ascii "credentials provider"))
  set_option (with_credentials_provider (some p)) state = ok (record state { credentials = some p })
  set_option (with_http_client none) state = err (nil_component (ascii "HTTP client"))
  set_option (with_http_client (some c)) state = ok (record state { http_client = some c })
  set_option (with_observer false) state = err (nil_component (ascii "observer"))
  set_option (with_observer true) state = ok (record state { observer = true })

  -- `option.apply`.
  unfoldable pub apply_option : S3Option → OptionState → Result ConfigError OptionState
  unfolding set_option
  apply_option o state =
      refuse (has_text state.used (option_name o)) (duplicate_option (option_name o))
      >> set_option o (record state { used = option_name o ∷ state.used })

  apply_options : List (Option S3Option) → OptionState → Result ConfigError OptionState
  apply_options [] state = ok state
  apply_options (none ∷ options) state = err nil_option
  apply_options (some o ∷ options) state =
      apply_option o state >>= λ next. apply_options options next

  abbrev no_options : OptionState
  no_options = record {
    used = [];
    aws_config = none;
    credentials = none;
    http_client = none;
    observer = false;
  }

  -- The SDK's operations that `loadAWSConfig` uses, on a configuration.
  pub record AwsSdk : Type 0 where
    pub copy : AwsConfig → AwsConfig
    pub load_default_config : Text → Option Credentials → Option HttpClient → Option AwsConfig
    pub set_region : Text → AwsConfig → AwsConfig
    pub set_cached_credentials : Credentials → AwsConfig → AwsConfig
    pub set_http_client : HttpClient → AwsConfig → AwsConfig

  abbrev and_set {ℓ} : {A : Type ℓ} → Option A → (A → AwsConfig → AwsConfig) → AwsConfig → AwsConfig
  and_set none set cfg = cfg
  and_set (some a) set cfg = set a cfg

  initial_config : AwsSdk → Text → OptionState → Option AwsConfig
  initial_config sdk region state = elim state.aws_config [
    | some cfg ↦ some (sdk.copy cfg)
    | none ↦ sdk.load_default_config region state.credentials state.http_client
  ]

  -- `loadAWSConfig`.
  unfoldable pub load_aws_config : AwsSdk → Text → OptionState → Option AwsConfig
  unfolding initial_config
  load_aws_config sdk region state = elim (initial_config sdk region state) [
    | none ↦ none
    | some cfg ↦ some (
        and_set state.http_client sdk.set_http_client
          (and_set state.credentials sdk.set_cached_credentials (sdk.set_region region cfg)))
  ]

  -- The endpoints of the two clients of the SDK that `New` makes of one configuration.
  pub record Connected : Type 0 where
    pub client : Client
    pub aws_config : AwsConfig
    pub service_endpoint : Text
    pub presign_endpoint : Text
    pub path_style : Bool

  connected : Config → OptionState → Option AwsConfig → Result ConfigError Connected
  connected cfg state none = err (storage_error (failed unavailable (ascii "configure") []))
  connected cfg state (some aws) = ok (record {
    client = record {
      namespace = cfg.namespace;
      default_presign_ttl = cfg.default_presign_ttl;
      max_presign_ttl = cfg.max_presign_ttl;
      observer = state.observer;
    };
    aws_config = aws;
    service_endpoint = cfg.endpoint;
    presign_endpoint = if is_empty cfg.presign_endpoint then cfg.endpoint else cfg.presign_endpoint;
    path_style = cfg.use_path_style;
  })

  -- `New`.
  unfoldable pub new_client :
      ParseUrl → AwsSdk → Config → List (Option S3Option) → Result ConfigError Connected
  unfolding apply_options connected
  new_client parse_url sdk given options = normalize_config parse_url given >>= λ cfg.
      apply_options options no_options >>= λ state.
      connected cfg state (load_aws_config sdk cfg.region state)
