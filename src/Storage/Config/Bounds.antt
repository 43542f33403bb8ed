-- ===== src/Storage/Config/Bounds.antt =====
-- The bounds of the settings that `Load` of services/storage/internal/config/config.go accepts.
use stellarmesh_sdk.Base.{
  ◌≡◌, subst, true, false, List, [], ◌∷◌, Option, ℤ, pos, is_positive, ltℤ, ok, >>=-eq-ok,
  refuse-eq-ok, ok-inj, arith, All,
}
use stellarmesh_sdk.Text.{Text}
use stellarmesh_sdk.Gateway.Route.{is_empty}
use stellarmesh_sdk.EnvConfig.{Env}
use stellarmesh_sdk.S3Store.Config.Lifetimes.{HasLifetimes}
use stellarmesh_sdk.Storage.Config.{
  timeouts_of, Config, access_file_required, region_required, presign_endpoint_alone,
  presign_ttl_unsupported, timeout_unsupported, loaded, check_timeouts, bad_lifetimes,
  checked_config, read_config, load,
}

-- Longer than nothing, and at most a day.
abbrev pub IsTimeout : ℤ → Type 0
IsTimeout t = (is_positive t ≡ true) × (ltℤ (pos 86_400_000_000_000) t ≡ false)

-- The settings as `Load` wants them.
pub record IsBounded (cfg : Config) : Type 0 where
  pub has_access_file : is_empty cfg.access_file ≡ false
  pub has_region : is_empty cfg.region ≡ false
  pub has_lifetimes : HasLifetimes cfg.default_presign_ttl cfg.max_presign_ttl
  pub has_timeouts : All IsTimeout (
      cfg.read_header_timeout ∷ cfg.read_timeout ∷ cfg.write_timeout ∷ cfg.idle_timeout
      ∷ cfg.shutdown_timeout ∷ cfg.s3_check_timeout ∷ cfg.s3_check_interval ∷ [])

abbrev values : List (Text × ℤ) → List ℤ
values [] = []
values ((name, value) ∷ settings) = value ∷ values settings

check_timeouts-eq-ok :
    (settings : List (Text × ℤ)) → check_timeouts settings ≡ ok tt → All IsTimeout (values settings)
unfolding check_timeouts
check_timeouts-eq-ok [] h = tt
check_timeouts-eq-ok ((name, value) ∷ settings) h =
    let (fits, h) = refuse-eq-ok _ (timeout_unsupported name) (check_timeouts settings) h in
    ((ground arith, ground arith), check_timeouts-eq-ok settings h)

bounded_lifetimes :
    (cfg : Config)
    → bad_lifetimes cfg ≡ false
    → HasLifetimes cfg.default_presign_ttl cfg.max_presign_ttl
bounded_lifetimes cfg h = record {
  is_long_enough = ground arith;
  is_in_maximum = ground arith;
  is_short_enough = ground arith;
}

checked_config-IsBounded : (read cfg : Config) → checked_config read ≡ ok cfg → IsBounded cfg
unfolding checked_config
checked_config-IsBounded read cfg h =
    let (file, h) = refuse-eq-ok (is_empty read.access_file) access_file_required _ h in
    let (region, h) = refuse-eq-ok (is_empty read.region) region_required _ h in
    let (together, h) = refuse-eq-ok _ presign_endpoint_alone _ h in
    let (lifetimes, h) = refuse-eq-ok (bad_lifetimes read) presign_ttl_unsupported _ h in
    let (u, timeouts, h) = >>=-eq-ok _ _ h in
    subst IsBounded (ok-inj h) (record {
      has_access_file = file;
      has_region = region;
      has_lifetimes = bounded_lifetimes read lifetimes;
      has_timeouts = check_timeouts-eq-ok (timeouts_of read) timeouts;
    })

-- Settings of the storage service that load without an error have an access file and a region, a
-- default lifetime of at least a minute and at most the maximum, which is at most an hour, and
-- seven timeouts that are positive and at most a day.
pub load-IsBounded :
    (parse_duration : Text → Option ℤ) (env : Env) (cfg : Config)
    → load parse_duration env ≡ ok cfg
    → IsBounded cfg
unfolding load
load-IsBounded parse_duration env cfg h =
    let (u, valid, h) = >>=-eq-ok (loaded (read_config parse_duration env).1.err) _ h in
    checked_config-IsBounded (read_config parse_duration env).0 cfg h
