-- ===== src/Gateway/ConfigTests.antt =====
-- The start-up checks, the lookups and the readers of headers at concrete inputs.
use stellarmesh_sdk.Base.{
  ℕ_discrete, ◌≡◌, ◌≤◌, ◌<◌, ◌↔◌, ◌+◌, ◌*◌, refl, true, false, List, [], ◌∷◌, none, some, pos,
  Result, ok, err, if◌then◌else◌,
}
use mathlib.Core.Option
use stellarmesh_sdk.Text.{
  Text, ascii, trim_space, split, has_prefix, has_text, text_discrete, to_upper, to_lower,
  contains_byte, upper_byte, lower_byte, cut, join,
}
use stellarmesh_sdk.Text.Order.{sort_texts, add_key, insert_text}
use stellarmesh_sdk.Gateway.Token.{is_token_byte, is_http_token}
use stellarmesh_sdk.Gateway.Header.{no_header, canonical_header_key, values, get, put, set}
use stellarmesh_sdk.Gateway.Types.{access_public, Route, Request, returns, empty_context}
use stellarmesh_sdk.Gateway.Respond.{retry_seconds, second}
use stellarmesh_sdk.Gateway.Respond.Retry.{retry_seconds_bounds}
use stellarmesh_sdk.Gateway.RequestId.{RequestIdConfig, is_safe_request_id, resolve_request_id}
use stellarmesh_sdk.Gateway.RequestId.Safe
use stellarmesh_sdk.Gateway.RequestId.Safe.{ComesFrom, resolve_request_id-IsSafe}
use stellarmesh_sdk.Gateway.Credential.{is_token68}
use stellarmesh_sdk.Gateway.Credential.Grammar.{IsB64Token, is_token68-IsB64Token}
use stellarmesh_sdk.Gateway.Route.{
  CompiledRoute, StaticRouteResolver, TableError, compile_methods, check_route, compile_route,
  route_match_key, insert_route, sort_routes, compile_table, is_exact, exact_routes, prefix_routes,
  new_static_route_resolver, resolve_route, is_empty,
}
use stellarmesh_sdk.Gateway.Route.Best.{Answers, resolve_route-Answers}
use stellarmesh_sdk.Gateway.ClientIp.{
  Netip, trusted, parse_remote_addr, parse_chain, nearest_untrusted, resolve_client_ip,
}
use stellarmesh_sdk.Gateway.ClientIp.Origin.{Origin, resolve_client_ip-Origin}
use stellarmesh_sdk.Gateway.Cors.{
  CorsConfig, CorsPolicy, ParseUrl, valid_cors_origin, compile_origins, compile_cors_methods,
  compile_cors_headers, new_cors_policy,
}
use stellarmesh_sdk.Gateway.Cors.Config.{IsSafe, new_cors_policy-IsSafe}

retry_seconds_bounds_example :
    (1_500_000_000 ≤ retry_seconds 1_500_000_000 * second)
    × (retry_seconds 1_500_000_000 * second < 1_500_000_000 + second)
retry_seconds_bounds_example = retry_seconds_bounds 1_500_000_000

is_token68-IsB64Token_example : (is_token68 (ascii "abc+/==") ≡ true) ↔ IsB64Token (ascii "abc+/==")
is_token68-IsB64Token_example = is_token68-IsB64Token (ascii "abc+/==")

abbrev order_request : Request
order_request = record {
  method = ascii "get";
  path = ascii "/a/b/c";
  header = set no_header (ascii "X-Forwarded-For") (ascii "198.51.100.7, 10.0.0.2");
  remote_addr = ascii "10.0.0.1:80";
  content_length = pos 0;
  has_body = false;
  body_limit = none;
  context = empty_context;
}

abbrev prefix_route : Text → Route
prefix_route prefix = record {
  name = prefix;
  match = record { methods = ascii "get" ∷ []; exact_path = []; path_prefix = prefix };
  upstream = ascii "files";
  access = access_public;
  max_body_bytes = pos 0;
}

abbrev file_routes : List Route
file_routes = prefix_route (ascii "/a") ∷ prefix_route (ascii "/a/b") ∷ []

abbrev table_of : Result TableError StaticRouteResolver → StaticRouteResolver
table_of (ok t) = t
table_of (err e) = record { exact = []; prefixes = [] }

abbrev file_table : StaticRouteResolver
file_table = table_of (new_static_route_resolver file_routes)

file_table_built : new_static_route_resolver file_routes ≡ ok file_table
unfolding new_static_route_resolver compile_table compile_route check_route compile_methods
    trim_space has_prefix to_upper upper_byte is_http_token is_token_byte contains_byte add_key
    has_text sort_texts insert_text route_match_key join text_discrete ℕ_discrete is_exact
    exact_routes prefix_routes sort_routes insert_route
file_table_built = refl

resolve_route-Answers_example :
    (cs : List CompiledRoute) × (compile_table 0 [] file_routes ≡ ok cs)
    × Answers cs order_request (resolve_route file_table order_request)
resolve_route-Answers_example =
    resolve_route-Answers file_routes file_table order_request file_table_built

abbrev generated : RequestIdConfig
generated = record {
  header = ascii "X-Request-ID";
  max_length = 128;
  generate = returns (ascii "id-1");
  trust_incoming = true;
}

generated_id : (resolve_request_id generated order_request).1 ≡ returns (ascii "id-1")
unfolding resolve_request_id values set put canonical_header_key is_token_byte contains_byte
    upper_byte lower_byte text_discrete ℕ_discrete is_safe_request_id
generated_id = refl

resolve_request_id-IsSafe_example :
    ComesFrom generated order_request (ascii "id-1") × Safe.IsSafe (ascii "id-1") 128
resolve_request_id-IsSafe_example =
    resolve_request_id-IsSafe generated order_request (ascii "id-1") generated_id

-- Addresses and prefixes as texts.
abbrev textual : Netip
textual = record {
  Addr = Text;
  Prefix = Text;
  parse_addr = λ s. if is_empty s then none else some s;
  unmap = λ a. a;
  to_text = λ a. a;
  parse_prefix = λ s. some s;
  masked = λ p. p;
  contains = λ p a. has_prefix a p;
  split_host = λ s. Option.map (λ (h : Text × Text). h.0) (cut s b':');
  is_ip = λ s. true;
}

proxied_ip : resolve_client_ip textual (ascii "10." ∷ []) order_request ≡ ok (ascii "198.51.100.7")
unfolding resolve_client_ip parse_remote_addr trusted parse_chain nearest_untrusted cut split
    trim_space has_prefix get values set put canonical_header_key is_token_byte contains_byte
    upper_byte lower_byte text_discrete ℕ_discrete
proxied_ip = refl

resolve_client_ip-Origin_example :
    Origin textual (ascii "10." ∷ []) order_request (ascii "198.51.100.7")
resolve_client_ip-Origin_example =
    resolve_client_ip-Origin textual (ascii "10." ∷ []) order_request (ascii "198.51.100.7")
      proxied_ip

abbrev https_only : ParseUrl
https_only s =
    if has_prefix s (ascii "https://")
    then some (record {
      scheme = ascii "https";
      host = ascii "shop";
      user = none;
      path = [];
      raw_query = [];
      fragment = [];
    })
    else none

abbrev shop_cors : CorsConfig
shop_cors = record {
  allowed_origins = ascii "https://shop" ∷ [];
  allowed_methods = ascii "GET" ∷ [];
  allowed_headers = ascii "X-A" ∷ [];
  allow_credentials = true;
  max_age = pos 0;
}

abbrev policy_of : CorsPolicy
policy_of = record {
  origins = ascii "https://shop" ∷ [];
  wildcard = false;
  methods = ascii "GET" ∷ [];
  headers = (ascii "x-a", ascii "X-A") ∷ [];
  allow_origin_value = [];
  methods_value = ascii "GET";
  headers_value = ascii "X-A";
  credentials = true;
  max_age = pos 0;
}

shop_cors_built : new_cors_policy https_only shop_cors ≡ ok policy_of
unfolding new_cors_policy compile_origins valid_cors_origin compile_cors_methods
    compile_cors_headers add_key has_text trim_space has_prefix to_upper to_lower is_http_token
    canonical_header_key is_token_byte contains_byte upper_byte lower_byte text_discrete ℕ_discrete
    join sort_texts insert_text
shop_cors_built = refl

new_cors_policy-IsSafe_example : IsSafe https_only shop_cors policy_of
new_cors_policy-IsSafe_example =
    new_cors_policy-IsSafe https_only shop_cors policy_of shop_cors_built
