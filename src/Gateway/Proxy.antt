-- ===== src/Gateway/Proxy.antt =====
-- sdk/go/gateway/proxy.go: the hooks of `newReverseProxy`. httputil, which sends the request and calls
-- them, is a parameter: what `SetURL` and `SetXForwarded` make of an outgoing request.
pub mod Hooks
use stellarmesh_sdk.Base.{Bool, true, false, ◌||◌, Option, none, some, if◌then◌else◌, pos}
use stellarmesh_sdk.Text.{Text, ascii}
use stellarmesh_sdk.Gateway.Header.{Header, set, del}
use stellarmesh_sdk.Gateway.Types.{Error, GatewayError, Context, Request}
use stellarmesh_sdk.Gateway.AccessLog.{Exchange}
use stellarmesh_sdk.Gateway.Cors.{ParsedUrl}
use stellarmesh_sdk.Gateway.Respond.{ErrorResponder, fail}

-- What the hooks see of `ProxyRequest.Out`.
pub record Outgoing : Type 0 where
  pub url : ParsedUrl
  pub host : Text
  pub header : Header

pub record Httputil : Type 0 where
  pub set_url : ParsedUrl → Outgoing → Outgoing
  pub set_x_forwarded : Request → Outgoing → Outgoing

set_known : Option Text → Text → Outgoing → Outgoing
set_known none name out = out
set_known (some v) name out = record out { header = set out.header name v }

-- `Rewrite`.
unfoldable pub rewrite : Httputil → ParsedUrl → Text → Request → Outgoing → Outgoing
unfolding set_known
rewrite h target request_id_header r out =
    let routed = h.set_url target out in
    let forwarded = h.set_x_forwarded r (record routed { host = target.host }) in
    set_known r.context.request_id request_id_header
      (set_known r.context.client_ip (ascii "X-Forwarded-For") forwarded)

-- `ModifyResponse`.
unfoldable pub modify_response : Text → Header → Header
modify_response request_id_header h = del h request_id_header

-- An error of the proxy: whether it is a `MaxBytesError`, a passed deadline, or a timeout of the network.
pub record ProxyError : Type 0 where
  pub is_max_bytes : Bool
  pub is_deadline : Bool
  pub is_timeout : Bool
  pub cause : Error

-- What `ErrorHandler` makes of the error.
unfoldable pub proxy_error : ProxyError → GatewayError
proxy_error e =
    if e.is_max_bytes
    then record {
      status = 413;
      code = ascii "request_body_too_large";
      message = ascii "request body too large";
      retry_after = pos 0;
      cause = some e.cause;
    }
    else if e.is_deadline || e.is_timeout
    then record {
      status = 504;
      code = ascii "upstream_timeout";
      message = ascii "upstream timeout";
      retry_after = pos 0;
      cause = some e.cause;
    }
    else record {
      status = 502;
      code = ascii "upstream_unavailable";
      message = ascii "upstream unavailable";
      retry_after = pos 0;
      cause = some e.cause;
    }

-- `ErrorHandler`.
unfoldable pub handle_proxy_error : ErrorResponder → Exchange → ProxyError → Exchange
handle_proxy_error responder x e = fail responder x (proxy_error e)
