-- ===== src/Storage/Config.antt =====
-- services/storage/internal/config/config.go: the settings of the storage service.
pub mod Bounds
use stellarmesh_sdk.Base.{
  Bool, true, false, not, ◌&&◌, ◌||◌, List, [], ◌∷◌, ◌++◌, Option, none, some, if◌then◌else◌, ℤ,
  pos, is_positive, ltℤ, Result, ok, err, refuse, ◌>>=◌, ◌>>◌,
}
use stellarmesh_sdk.Text.{Text, ascii}
use stellarmesh_sdk.Gateway.Route.{is_empty}
use stellarmesh_sdk.ObjectStorage.{min_presign_ttl, max_presign_ttl}
use stellarmesh_sdk.EnvConfig.{Env, EnvError, string}
use stellarmesh_sdk.EnvConfig.Loader.{StrictLoader, new_strict_loader, loader_bool, loader_duration}

pub record Config : Type 0 where
  pub addr : Text
  pub access_file : Text
  pub region : Text
  pub endpoint : Text
  pub presign_endpoint : Text
  pub use_path_style : Bool
  pub default_presign_ttl : ℤ
  pub max_presign_ttl : ℤ
  pub read_header_timeout : ℤ
  pub read_timeout : ℤ
  pub write_timeout : ℤ
  pub idle_timeout : ℤ
  pub shutdown_timeout : ℤ
  pub s3_check_timeout : ℤ
  pub s3_check_interval : ℤ

-- `httpserver.Config`.
pub record HttpServerConfig : Type 0 where
  pub addr : Text
  pub read_header_timeout : ℤ
  pub read_timeout : ℤ
  pub write_timeout : ℤ
  pub idle_timeout : ℤ

pub data LoadError : Type 0 where
  setting_invalid : EnvError → LoadError
  access_file_required region_required presign_endpoint_alone presign_ttl_unsupported : LoadError
  timeout_unsupported : Text → LoadError

loaded : Option EnvError → Result LoadError (Unit {0})
loaded none = ok tt
loaded (some e) = err (setting_invalid e)

-- The loop over the named timeouts; a day is the longest.
check_timeouts : List (Text × ℤ) → Result LoadError (Unit {0})
check_timeouts [] = ok tt
check_timeouts ((name, value) ∷ settings) =
    refuse (not (is_positive value) || ltℤ (pos 86_400_000_000_000) value)
      (timeout_unsupported name)
    >> check_timeouts settings

abbrev bad_lifetimes : Config → Bool
bad_lifetimes cfg =
    (ltℤ cfg.default_presign_ttl min_presign_ttl || ltℤ max_presign_ttl cfg.default_presign_ttl)
    || ((ltℤ cfg.max_presign_ttl min_presign_ttl || ltℤ max_presign_ttl cfg.max_presign_ttl)
        || ltℤ cfg.max_presign_ttl cfg.default_presign_ttl)

abbrev timeouts_of : Config → List (Text × ℤ)
timeouts_of cfg =
    (ascii "read header timeout", cfg.read_header_timeout)
    ∷ (ascii "read timeout", cfg.read_timeout)
    ∷ (ascii "write timeout", cfg.write_timeout)
    ∷ (ascii "idle timeout", cfg.idle_timeout)
    ∷ (ascii "shutdown timeout", cfg.shutdown_timeout)
    ∷ (ascii "S3 check timeout", cfg.s3_check_timeout)
    ∷ (ascii "S3 check interval", cfg.s3_check_interval)
    ∷ []

-- The checks of `Load`, of the settings that it read.
checked_config : Config → Result LoadError Config
unfolding check_timeouts
checked_config cfg =
    refuse (is_empty cfg.access_file) access_file_required
    >> (refuse (is_empty cfg.region) region_required
        >> (refuse (not (is_empty cfg.presign_endpoint) && is_empty cfg.endpoint)
              presign_endpoint_alone
            >> (refuse (bad_lifetimes cfg) presign_ttl_unsupported
                >> (check_timeouts (timeouts_of cfg) >> ok cfg))))

abbrev storage_key : Text → Text
storage_key name = ascii "STELLARMESH_STORAGE_" ++ name

module _ (parse_duration : Text → Option ℤ) (env : Env) where
  abbrev next_duration : StrictLoader → Text → ℤ → ℤ × StrictLoader
  next_duration loader name fallback =
      loader_duration parse_duration env loader (storage_key name) fallback

  abbrev setting : Text → Text → Text
  setting name fallback = string env (storage_key name) fallback

  -- The settings, and the loader after them.
  read_config : Config × StrictLoader
  read_config =
      let region = string env (ascii "AWS_REGION") (string env (ascii "AWS_DEFAULT_REGION") []) in
      let (path_style, l1) =
        loader_bool parse_duration env new_strict_loader (storage_key (ascii "USE_PATH_STYLE"))
          false in
      let (default_ttl, l2) =
        next_duration l1 (ascii "DEFAULT_PRESIGN_TTL") (pos 900_000_000_000) in
      let (max_ttl, l3) = next_duration l2 (ascii "MAX_PRESIGN_TTL") (pos 3_600_000_000_000) in
      let (read_header, l4) = next_duration l3 (ascii "READ_HEADER_TIMEOUT") (pos 5_000_000_000) in
      let (read, l5) = next_duration l4 (ascii "READ_TIMEOUT") (pos 10_000_000_000) in
      let (write, l6) = next_duration l5 (ascii "WRITE_TIMEOUT") (pos 15_000_000_000) in
      let (idle, l7) = next_duration l6 (ascii "IDLE_TIMEOUT") (pos 60_000_000_000) in
      let (shutdown, l8) = next_duration l7 (ascii "SHUTDOWN_TIMEOUT") (pos 10_000_000_000) in
      let (check_timeout, l9) = next_duration l8 (ascii "S3_CHECK_TIMEOUT") (pos 5_000_000_000) in
      let (check_interval, l10) =
        next_duration l9 (ascii "S3_CHECK_INTERVAL") (pos 30_000_000_000) in
      (
        record {
          addr = setting (ascii "ADDR") (ascii ":8090");
          access_file = setting (ascii "ACCESS_FILE") [];
          region = region;
          endpoint = setting (ascii "ENDPOINT") [];
          presign_endpoint = setting (ascii "PRESIGN_ENDPOINT") [];
          use_path_style = path_style;
          default_presign_ttl = default_ttl;
          max_presign_ttl = max_ttl;
          read_header_timeout = read_header;
          read_timeout = read;
          write_timeout = write;
          idle_timeout = idle;
          shutdown_timeout = shutdown;
          s3_check_timeout = check_timeout;
          s3_check_interval = check_interval;
        },
        l10,
      )

  -- `Load`.
  unfoldable pub load : Result LoadError Config
  unfolding loaded checked_config read_config
  load = loaded read_config.1.err >> checked_config read_config.0

-- `Config.HTTPServerConfig`.
unfoldable pub http_server_config : Config → HttpServerConfig
http_server_config cfg = record {
  addr = cfg.addr;
  read_header_timeout = cfg.read_header_timeout;
  read_timeout = cfg.read_timeout;
  write_timeout = cfg.write_timeout;
  idle_timeout = cfg.idle_timeout;
}
