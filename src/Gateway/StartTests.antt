-- ===== src/Gateway/StartTests.antt =====
-- The start of a gateway at concrete options.
use stellarmesh_sdk.Base.{
  ℕ_discrete, ◌≡◌, refl, true, false, List, [], ◌∷◌, Option, none, some, pos, Result, ok, err,
}
use stellarmesh_sdk.Text.{
  Text, ascii, trim_space, has_prefix, has_text, text_discrete, to_upper, contains_byte, upper_byte,
  join,
}
use stellarmesh_sdk.Text.Order.{sort_texts, add_key, insert_text}
use stellarmesh_sdk.Gateway.Token.{is_token_byte, is_http_token}
use stellarmesh_sdk.Gateway.Types.{access_protected, Route, returns, fails, failure}
use stellarmesh_sdk.Gateway.Recorder.{send_header}
use stellarmesh_sdk.Gateway.Respond.{default_error_responder}
use stellarmesh_sdk.Gateway.RequestId.{normalize_request_id_config}
use stellarmesh_sdk.Gateway.Credential.{bearer_credential}
use stellarmesh_sdk.Gateway.Route.{
  compile_methods, check_route, compile_route, route_match_key, insert_route, sort_routes,
  compile_table, is_exact, exact_routes, prefix_routes, new_static_route_resolver,
  contains_protected_route,
}
use stellarmesh_sdk.Gateway.ClientIp.{Netip}
use stellarmesh_sdk.Gateway.Cors.{ParseUrl}
use stellarmesh_sdk.Gateway.Pipeline.{Gateway}
use stellarmesh_sdk.Gateway.Options.{
  GatewayConfig, NewError, Setting, with_routes, with_upstreams, with_authenticator, component_name,
  configure, apply_setting, apply_settings,
}
use stellarmesh_sdk.Gateway.Options.Distinct.{
  AllDifferent, names_after, apply_settings-AllDifferent,
}
use stellarmesh_sdk.Gateway.Assembly.{
  ReverseProxy, find_proxy, choose_routes, normalized_id, choose_cors, choose_health,
  resolve_fixed_upstream, validate_static_upstreams, compile_upstreams, choose_upstreams,
  new_gateway,
}
use stellarmesh_sdk.Gateway.Assembly.Checked.{IsChecked, new_gateway-IsChecked}

abbrev textual : Netip
textual = record {
  Addr = Text;
  Prefix = Text;
  parse_addr = λ s. some s;
  unmap = λ a. a;
  to_text = λ a. a;
  parse_prefix = λ s. some s;
  masked = λ p. p;
  contains = λ p a. has_prefix a p;
  split_host = λ s. some s;
  is_ip = λ s. true;
}

abbrev any_url : ParseUrl
any_url s = some (record {
  scheme = ascii "http";
  host = s;
  user = none;
  path = [];
  raw_query = [];
  fragment = [];
})

abbrev teapot : ReverseProxy
teapot target transport responder header =
    λ r. record { calls = send_header 418 ∷ []; panic = none }

abbrev orders : Route
orders = record {
  name = ascii "orders";
  match = record { methods = []; exact_path = []; path_prefix = ascii "/orders" };
  upstream = ascii "shop";
  access = access_protected;
  max_body_bytes = pos 0;
}

abbrev no_config : GatewayConfig
no_config = record {
  route_resolver = none;
  static_routes = [];
  upstream_resolver = none;
  authenticator = none;
  credential_extractor = bearer_credential;
  authorizer = none;
  before_proxy = none;
  client_ip_resolver = none;
  client_ip_limiter = none;
  user_limiter = none;
  upstream_limiter = none;
  error_responder = none;
  request_id = record { header = []; max_length = pos 0; generate = none; trust_incoming = false };
  upstream_specs = [];
  transport = none;
  cors = none;
  access_logger = none;
  access_log_disabled = false;
  observer = false;
  health = none;
  configured_components = [];
}

abbrev settings : List (Option Setting)
settings =
    some (with_routes (orders ∷ []))
    ∷ some (with_upstreams (record { name = ascii "shop"; url = ascii "shop:80" } ∷ []))
    ∷ some (with_authenticator (some (λ credential. fails (failure (ascii "down")))) [])
    ∷ []

abbrev config_of : Result NewError GatewayConfig → GatewayConfig
config_of (ok c) = c
config_of (err e) = no_config

abbrev shop_config : GatewayConfig
shop_config = config_of (apply_settings textual 0 settings no_config)

settings_applied : apply_settings textual 0 settings no_config ≡ ok shop_config
unfolding apply_settings apply_setting configure component_name has_text text_discrete ℕ_discrete
settings_applied = refl

apply_settings-AllDifferent_example :
    AllDifferent shop_config.configured_components
    × (shop_config.configured_components ≡ names_after settings [])
apply_settings-AllDifferent_example =
    apply_settings-AllDifferent textual 0 settings no_config shop_config settings_applied tt

abbrev bare : Gateway
bare = record {
  routes = λ r. returns none;
  upstreams = λ route. returns none;
  authenticator = none;
  credential_extractor = bearer_credential;
  authorizer = none;
  before_proxy = none;
  client_ip_resolver = λ r. returns [];
  client_ip_limiter = none;
  user_limiter = none;
  upstream_limiter = none;
  error_responder = default_error_responder;
  request_id = record {
    header = [];
    max_length = 0;
    generate = returns [];
    trust_incoming = false;
  };
  cors = none;
  access_logger = none;
  observer = false;
  health = none;
}

abbrev gateway_of : Result NewError Gateway → Gateway
gateway_of (ok g) = g
gateway_of (err e) = bare

abbrev shop : Gateway
shop =
    gateway_of
      (new_gateway textual any_url teapot (returns (ascii "id-1")) (λ entry. false) shop_config)

shop_made :
    new_gateway textual any_url teapot (returns (ascii "id-1")) (λ entry. false) shop_config
    ≡ ok shop
unfolding new_gateway apply_settings apply_setting configure component_name has_text text_discrete
    ℕ_discrete choose_routes normalized_id choose_cors choose_health validate_static_upstreams
    compile_upstreams choose_upstreams find_proxy resolve_fixed_upstream normalize_request_id_config
    new_static_route_resolver compile_table compile_route check_route compile_methods trim_space
    has_prefix to_upper upper_byte is_http_token is_token_byte contains_byte add_key sort_texts
    insert_text route_match_key join is_exact exact_routes prefix_routes sort_routes insert_route
    contains_protected_route
shop_made = refl

new_gateway-IsChecked_example : IsChecked shop_config shop
new_gateway-IsChecked_example =
    new_gateway-IsChecked textual any_url teapot (returns (ascii "id-1")) (λ entry. false)
      shop_config shop shop_made
