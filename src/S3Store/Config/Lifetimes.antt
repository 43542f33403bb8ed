-- ===== src/S3Store/Config/Lifetimes.antt =====
-- The lifetimes of a client that `New` of sdk/go/objectstorage/s3store/config.go gives.
use stellarmesh_sdk.Base.{
  ◌≡◌, false, not, ◌||◌, List, Option, none, some, ℤ, pos, negsuc, ltℤ, ok, >>=-eq-ok, refuse-eq-ok,
  ok-inj, subst, true-ne-false, arith,
}
use stellarmesh_sdk.Text.{Text}
use stellarmesh_sdk.Gateway.Route.{is_empty}
use stellarmesh_sdk.Gateway.Cors.{ParseUrl}
use stellarmesh_sdk.ObjectStorage.{
  normalize_namespace, min_presign_ttl, max_presign_ttl, validate_ttl,
}
use stellarmesh_sdk.S3Store.Validation.{resolve_ttl, wrap_invalid}
use stellarmesh_sdk.S3Store.Config.{
  is_endpoint, apply_options, no_options, connected, load_aws_config, OptionState, with_lifetimes,
  region_invalid, with_namespace, namespace_result, presign_endpoint_alone, max_ttl_invalid,
  default_ttl_invalid, or_ttl, Config, normalize_config, new_client, AwsSdk, S3Option, Connected,
}

-- The default is at least a minute and at most the maximum, which is at most an hour.
pub record HasLifetimes (default_ttl max_ttl : ℤ) : Type 0 where
  pub is_long_enough : ltℤ default_ttl min_presign_ttl ≡ false
  pub is_in_maximum : ltℤ max_ttl default_ttl ≡ false
  pub is_short_enough : ltℤ max_presign_ttl max_ttl ≡ false

with_lifetimes-HasLifetimes :
    (given cfg : Config) (default_ttl max_ttl : ℤ)
    → with_lifetimes given default_ttl max_ttl ≡ ok cfg
    → HasLifetimes cfg.default_presign_ttl cfg.max_presign_ttl
unfolding with_lifetimes
with_lifetimes-HasLifetimes given cfg default_ttl max_ttl h =
    let (maximum, h) =
      refuse-eq-ok (ltℤ max_ttl min_presign_ttl || ltℤ max_presign_ttl max_ttl) max_ttl_invalid _
        h in
    let (default, h) =
      refuse-eq-ok (ltℤ default_ttl min_presign_ttl || ltℤ max_ttl default_ttl) default_ttl_invalid
        _ h in
    subst (λ c. HasLifetimes c.default_presign_ttl c.max_presign_ttl) (ok-inj h)
      (record {
        is_long_enough = ground arith;
        is_in_maximum = ground arith;
        is_short_enough = ground arith;
      })

normalize_config-HasLifetimes :
    (parse_url : ParseUrl) (given cfg : Config)
    → normalize_config parse_url given ≡ ok cfg
    → HasLifetimes cfg.default_presign_ttl cfg.max_presign_ttl
unfolding normalize_config with_namespace
normalize_config-HasLifetimes parse_url given cfg h =
    let (region, h) = refuse-eq-ok _ region_invalid _ h in
    let (namespace, bound, h) =
      >>=-eq-ok (namespace_result (normalize_namespace given.namespace)) _ h in
    let (together, h) = refuse-eq-ok _ presign_endpoint_alone _ h in
    let (endpoint, h) =
      refuse-eq-ok (not (is_empty given.endpoint || is_endpoint (parse_url given.endpoint))) _ _
        h in
    let (presign_endpoint, h) = refuse-eq-ok _ _ _ h in
    with_lifetimes-HasLifetimes (record given { namespace = namespace }) cfg
      (or_ttl given.default_presign_ttl (pos 900_000_000_000))
      (or_ttl given.max_presign_ttl max_presign_ttl) h

-- A lifetime that is left to the client is its default.
resolve_ttl-default :
    (default_ttl max_ttl : ℤ) (operation key : Text)
    → HasLifetimes default_ttl max_ttl
    → resolve_ttl default_ttl max_ttl (pos 0) operation key ≡ ok default_ttl
unfolding resolve_ttl validate_ttl wrap_invalid
resolve_ttl-default (pos d) (pos m) operation key h =
    ground (arith, h.is_long_enough, h.is_in_maximum, h.is_short_enough)
resolve_ttl-default (pos d) (negsuc m) operation key h = absurd (true-ne-false h.is_in_maximum)
resolve_ttl-default (negsuc d) m operation key h = absurd (true-ne-false h.is_long_enough)

module _ (AwsConfig : Type 0) (Credentials : Type 0) (HttpClient : Type 0) where
  -- A client that New makes has a default lifetime of at least a minute and at most its maximum,
  -- which is at most an hour, and a request that leaves its lifetime at zero is given exactly the
  -- default.
  pub new_client-default_ttl :
      (parse_url : ParseUrl) (sdk : AwsSdk AwsConfig Credentials HttpClient) (given : Config)
      (options : List (Option (S3Option AwsConfig Credentials HttpClient)))
      (c : Connected AwsConfig Credentials HttpClient) (operation key : Text)
      → new_client AwsConfig Credentials HttpClient parse_url sdk given options ≡ ok c
      → HasLifetimes c.client.default_presign_ttl c.client.max_presign_ttl
        × (resolve_ttl c.client.default_presign_ttl c.client.max_presign_ttl (pos 0) operation key
            ≡ ok c.client.default_presign_ttl)
  unfolding new_client connected
  new_client-default_ttl parse_url sdk given options c operation key h =
      let (cfg, normal, h) = >>=-eq-ok _ _ h in
      let (state, applied, h) =
        >>=-eq-ok
          (apply_options AwsConfig Credentials HttpClient options
            (no_options AwsConfig Credentials HttpClient))
          _ h in
      connects cfg state (load_aws_config AwsConfig Credentials HttpClient sdk cfg.region state) h
        (normalize_config-HasLifetimes parse_url given cfg normal)
    where
      connects :
          (cfg : Config) (state : OptionState AwsConfig Credentials HttpClient)
          (aws : Option AwsConfig)
          → connected AwsConfig Credentials HttpClient cfg state aws ≡ ok c
          → HasLifetimes cfg.default_presign_ttl cfg.max_presign_ttl
          → HasLifetimes c.client.default_presign_ttl c.client.max_presign_ttl
            × (resolve_ttl c.client.default_presign_ttl c.client.max_presign_ttl
                  (pos 0)
                  operation
                  key
                ≡ ok c.client.default_presign_ttl)
      connects cfg state none h lifetimes = cc
      connects cfg state (some aws) h lifetimes =
          subst
            (λ x.
              HasLifetimes x.client.default_presign_ttl x.client.max_presign_ttl
              × (resolve_ttl x.client.default_presign_ttl x.client.max_presign_ttl (pos 0) operation
                    key
                  ≡ ok x.client.default_presign_ttl))
            (ok-inj h)
            (
              lifetimes,
              resolve_ttl-default cfg.default_presign_ttl cfg.max_presign_ttl operation key
                  lifetimes,
            )
