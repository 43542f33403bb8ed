-- ===== src/S3Store/ConfigTests.antt =====
-- Tests of the configuration of a client, and its theorem at one.
use stellarmesh_sdk.Base.{◌≡◌, refl, true, [], ◌∷◌, none, some, pos, ok, err}
use stellarmesh_sdk.Text.{
  Text, ascii, has_prefix, has_text, text_discrete, trim_left, trim_right, trim_space,
}
use stellarmesh_sdk.Gateway.Cors.{ParseUrl}
use stellarmesh_sdk.S3Store.Validation.{resolve_ttl}
use stellarmesh_sdk.S3Store.Config.{
  Config, new_client, AwsSdk, Connected, with_observer, duplicate_option, apply_option,
  load_aws_config, normalize_config,
}
use stellarmesh_sdk.S3Store.Config.Lifetimes.{HasLifetimes, new_client-default_ttl}
use stellarmesh_sdk.ObjectStorage.{closed_prefix, normalize_namespace}
use stellarmesh_sdk.Text.Utf8.{contains_control, is_valid_utf8}

abbrev parse_url : ParseUrl
parse_url s = some (record {
  scheme = ascii "http";
  host = ascii "minio:9000";
  user = none;
  path = ascii "/";
  raw_query = [];
  fragment = [];
})

-- A configuration of the SDK is its region, and credentials and clients have names.
abbrev sdk : AwsSdk Text Text Text
sdk = record {
  copy = λ cfg. cfg;
  load_default_config = λ region credentials client. some region;
  set_region = λ region cfg. region;
  set_cached_credentials = λ credentials cfg. cfg;
  set_http_client = λ client cfg. cfg;
}

abbrev config : Config
config = record {
  region = ascii "eu-1";
  namespace = record { bucket = ascii "data"; prefix = [] };
  endpoint = ascii "http://minio:9000/";
  presign_endpoint = [];
  use_path_style = true;
  default_presign_ttl = pos 0;
  max_presign_ttl = pos 0;
}

abbrev connected : Connected Text Text Text
connected = record {
  client = record {
    namespace = record { bucket = ascii "data"; prefix = [] };
    default_presign_ttl = pos 900_000_000_000;
    max_presign_ttl = pos 3_600_000_000_000;
    observer = true;
  };
  aws_config = ascii "eu-1";
  service_endpoint = ascii "http://minio:9000/";
  presign_endpoint = ascii "http://minio:9000/";
  path_style = true;
}

connects :
    new_client Text Text Text parse_url sdk config (some (with_observer true) ∷ []) ≡ ok connected
unfolding new_client normalize_config trim_space has_prefix text_discrete normalize_namespace
    is_valid_utf8 contains_control closed_prefix trim_right trim_left apply_option has_text
    load_aws_config
connects = refl

repeats :
    new_client Text Text Text parse_url sdk config
      (some (with_observer true) ∷ some (with_observer true) ∷ [])
    ≡ err (duplicate_option (ascii "observer"))
unfolding new_client normalize_config trim_space has_prefix text_discrete normalize_namespace
    is_valid_utf8 contains_control closed_prefix trim_right trim_left apply_option has_text
repeats = refl

new_client-default_ttl_example :
    HasLifetimes connected.client.default_presign_ttl connected.client.max_presign_ttl
    × (resolve_ttl connected.client.default_presign_ttl connected.client.max_presign_ttl
          (pos 0)
          (ascii "get")
          (ascii "k")
        ≡ ok connected.client.default_presign_ttl)
new_client-default_ttl_example =
    new_client-default_ttl Text Text Text parse_url sdk config (some (with_observer true) ∷ [])
      connected (ascii "get") (ascii "k") connects
