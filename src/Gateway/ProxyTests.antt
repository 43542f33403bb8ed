-- ===== src/Gateway/ProxyTests.antt =====
-- Tests of the hooks of sdk/go/gateway/proxy.go, over an httputil that changes the URL alone.
use stellarmesh_sdk.Base.{◌≡◌, refl, true, false, [], ◌∷◌, none, some, pos}
use stellarmesh_sdk.Text.{ascii, ◌==◌, text_discrete, contains_byte, lower_byte, upper_byte}
use stellarmesh_sdk.Gateway.Header.{no_header, canonical_header_key, values, set}
use stellarmesh_sdk.Gateway.Types.{Request, failure}
use stellarmesh_sdk.Gateway.Cors.{ParsedUrl}
use stellarmesh_sdk.Gateway.Proxy.{Httputil, Outgoing, rewrite, modify_response, proxy_error}
use stellarmesh_sdk.Gateway.Proxy.Hooks.{rewrite-values}
use stellarmesh_sdk.Gateway.Token.{is_token_byte}

abbrev backend : ParsedUrl
backend = record {
  scheme = ascii "http";
  host = ascii "orders:8080";
  user = none;
  path = [];
  raw_query = [];
  fragment = [];
}

abbrev httputil : Httputil
httputil = record {
  set_url = λ target out. record out { url = target };
  set_x_forwarded = λ r out. out;
}

abbrev request : Request
request = record {
  method = ascii "GET";
  path = ascii "/orders";
  header = no_header;
  remote_addr = ascii "203.0.113.9:4000";
  content_length = pos 0;
  has_body = false;
  body_limit = none;
  context = record {
    request_id = some (ascii "r-1");
    route = none;
    identity = none;
    client_ip = some (ascii "203.0.113.9");
  };
}

-- A client's own values.
abbrev outgoing : Outgoing
outgoing = record {
  url = backend;
  host = ascii "shop.example";
  header = set no_header (ascii "X-Forwarded-For") (ascii "10.0.0.1");
}

apart :
    (canonical_header_key (ascii "X-Request-ID") == canonical_header_key (ascii "X-Forwarded-For"))
    ≡ false
unfolding canonical_header_key text_discrete is_token_byte contains_byte upper_byte lower_byte
apart = refl

rewrite-values_example :
    (values
        (rewrite httputil backend (ascii "X-Request-ID") request outgoing).header
        (ascii "X-Request-ID")
      ≡ ascii "r-1" ∷ [])
    × (values
          (rewrite httputil backend (ascii "X-Request-ID") request outgoing).header
          (ascii "X-Forwarded-For")
        ≡ ascii "203.0.113.9" ∷ [])
    × (values (modify_response (ascii "X-Request-ID") no_header) (ascii "X-Request-ID") ≡ [])
rewrite-values_example =
    rewrite-values httputil backend (ascii "X-Request-ID") request outgoing (ascii "r-1")
      (ascii "203.0.113.9") no_header refl refl apart

late :
    (proxy_error (record {
      is_max_bytes = false;
      is_deadline = true;
      is_timeout = true;
      cause = failure [];
    })).status
    ≡ 504
unfolding proxy_error
late = refl
