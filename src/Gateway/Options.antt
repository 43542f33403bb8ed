-- ===== src/Gateway/Options.antt =====
-- sdk/go/gateway/options.go, and the options of every component: what a project declares.
-- `none` is a nil interface, function or option.
pub mod Distinct
use stellarmesh_sdk.Base.{
  ℕ, suc, Bool, true, false, List, [], ◌∷◌, Option, none, some, Result, ok, err, ◌>>=◌, ◌>>◌,
  refuse,
}
use stellarmesh_sdk.Text.{Text, ascii, has_text}
use stellarmesh_sdk.Gateway.Types.{Route, Request, Call, returns, fails, failure}
use stellarmesh_sdk.Gateway.Recorder.{Reply}
use stellarmesh_sdk.Gateway.Respond.{ErrorResponder}
use stellarmesh_sdk.Gateway.RequestId.{RequestIdOptions}
use stellarmesh_sdk.Gateway.Credential.{bearer_credential}
use stellarmesh_sdk.Gateway.Route.{RouteError, TableError}
use stellarmesh_sdk.Gateway.RateLimit.{RateLimiter}
use stellarmesh_sdk.Gateway.Policy.{Policy}
use stellarmesh_sdk.Gateway.Authenticate.{Authenticator, CredentialExtractor}
use stellarmesh_sdk.Gateway.Cors.{CorsConfig, CorsError}
use stellarmesh_sdk.Gateway.Health.{HealthConfig}
use stellarmesh_sdk.Gateway.ClientIp.{Netip, ClientIpError, with_trusted_proxies, resolve_client_ip}
use stellarmesh_sdk.Gateway.Finish.{AccessLogger}
use stellarmesh_sdk.Gateway.Pipeline.{Handler}

pub record Upstream : Type 0 where
  pub name : Text
  pub url : Text

abbrev pub RouteResolver : Type 0
RouteResolver = Request → Call (Option Route)

abbrev pub UpstreamResolver : Type 0
UpstreamResolver = Route → Call (Option Handler)

abbrev pub ClientIpResolver : Type 0
ClientIpResolver = Request → Call Text

-- `http.RoundTripper`, which the reverse proxy alone calls.
abbrev pub RoundTripper : Type 0
RoundTripper = Request → Call Reply

-- `config`; an observer has nothing that the gateway reads.
pub record GatewayConfig : Type 0 where
  pub route_resolver : Option RouteResolver
  pub static_routes : List Route
  pub upstream_resolver : Option UpstreamResolver
  pub authenticator : Option Authenticator
  pub credential_extractor : CredentialExtractor
  pub authorizer : Option Policy
  pub before_proxy : Option Policy
  pub client_ip_resolver : Option ClientIpResolver
  pub client_ip_limiter : Option RateLimiter
  pub user_limiter : Option RateLimiter
  pub upstream_limiter : Option RateLimiter
  pub error_responder : Option ErrorResponder
  pub request_id : RequestIdOptions
  pub upstream_specs : List Upstream
  pub transport : Option RoundTripper
  pub cors : Option CorsConfig
  pub access_logger : Option AccessLogger
  pub access_log_disabled : Bool
  pub observer : Bool
  pub health : Option HealthConfig
  pub configured_components : List Text

pub data NewError : Type 0 where
  nil_option : ℕ → NewError
  duplicate_component : Text → NewError
  nil_component one_extractor_required trusted_proxies_invalid : NewError
  routes_exclusive route_resolver_required upstreams_exclusive : NewError
  table_error : TableError → NewError
  request_id_invalid upstream_name_required : NewError
  upstream_duplicate upstream_url_invalid : Text → NewError
  transport_without_upstreams upstream_resolver_required authenticator_required : NewError
  cors_error : CorsError → NewError
  health_invalid : NewError
  route_error : RouteError → NewError
  upstream_missing : Text → NewError

-- One constructor for each function that makes an `Option`.
pub data Setting : Type 0 where
  with_routes : List Route → Setting
  with_route_resolver : Option RouteResolver → Setting
  with_upstream_resolver : Option UpstreamResolver → Setting
  with_upstreams : List Upstream → Setting
  with_transport : Option RoundTripper → Setting
  with_authenticator : Option Authenticator → List (Option CredentialExtractor) → Setting
  with_authorizer with_before_proxy_policy : Option Policy → Setting
  with_proxies : List Text → Setting
  with_client_ip_resolver : Option ClientIpResolver → Setting
  with_client_ip_limiter with_user_limiter with_upstream_limiter : Option RateLimiter → Setting
  with_error_responder : Option ErrorResponder → Setting
  with_request_id : RequestIdOptions → Setting
  with_cors : CorsConfig → Setting
  with_access_logger : Option AccessLogger → Setting
  without_access_log : Setting
  with_slog_access_logger : AccessLogger → Setting
  with_observer : Bool → Setting
  with_health : HealthConfig → Setting

-- The name of the component that the option configures.
unfoldable pub component_name : Setting → Text
component_name (with_routes rs) = ascii "routes"
component_name (with_route_resolver r) = ascii "route_resolver"
component_name (with_upstream_resolver r) = ascii "upstream_resolver"
component_name (with_upstreams us) = ascii "upstreams"
component_name (with_transport t) = ascii "transport"
component_name (with_authenticator a es) = ascii "authenticator"
component_name (with_authorizer p) = ascii "authorizer"
component_name (with_before_proxy_policy p) = ascii "before_proxy_policy"
component_name (with_proxies cidrs) = ascii "client_ip_resolver"
component_name (with_client_ip_resolver r) = ascii "client_ip_resolver"
component_name (with_client_ip_limiter l) = ascii "client_ip_limiter"
component_name (with_user_limiter l) = ascii "user_limiter"
component_name (with_upstream_limiter l) = ascii "upstream_limiter"
component_name (with_error_responder r) = ascii "error_responder"
component_name (with_request_id r) = ascii "request_id"
component_name (with_cors c) = ascii "cors"
component_name (with_access_logger l) = ascii "access_logger"
component_name without_access_log = ascii "access_logger"
component_name (with_slog_access_logger l) = ascii "access_logger"
component_name (with_observer o) = ascii "observer"
component_name (with_health h) = ascii "health"

-- `isNilInterface`, and what is done with a value that is not nil.
abbrev given {ℓ} : {A : Type ℓ} → Option A → (A → GatewayConfig) → Result NewError GatewayConfig
given none put = err nil_component
given (some a) put = ok (put a)

one_extractor : List (Option CredentialExtractor) → Result NewError CredentialExtractor
one_extractor [] = ok bearer_credential
one_extractor (some e ∷ []) = ok e
one_extractor (none ∷ []) = err one_extractor_required
one_extractor (e ∷ f ∷ es) = err one_extractor_required

authenticated_by :
    GatewayConfig
    → Option Authenticator
    → List (Option CredentialExtractor)
    → Result NewError GatewayConfig
unfolding one_extractor
authenticated_by c none es = err nil_component
authenticated_by c (some a) es =
    one_extractor es >>= λ e. ok (record c { authenticator = some a; credential_extractor = e })

abbrev pub address_call : Result ClientIpError Text → Call Text
address_call (ok ip) = returns ip
address_call (err e) = fails (failure (ascii "invalid client address"))

module _ (n : Netip) where
  behind_proxies : GatewayConfig → Option (List n.Prefix) → Result NewError GatewayConfig
  behind_proxies c none = err trusted_proxies_invalid
  behind_proxies c (some ps) =
      ok (record c { client_ip_resolver = some (λ r. address_call (resolve_client_ip n ps r)) })

  -- The function in each option.
  unfoldable pub configure : Setting → GatewayConfig → Result NewError GatewayConfig
  unfolding authenticated_by behind_proxies
  configure (with_routes rs) c = ok (record c { static_routes = rs })
  configure (with_route_resolver r) c = given r (λ r. record c { route_resolver = some r })
  configure (with_upstream_resolver r) c = given r (λ r. record c { upstream_resolver = some r })
  configure (with_upstreams us) c = ok (record c { upstream_specs = us })
  configure (with_transport t) c = given t (λ t. record c { transport = some t })
  configure (with_authenticator a es) c = authenticated_by c a es
  configure (with_authorizer p) c = given p (λ p. record c { authorizer = some p })
  configure (with_before_proxy_policy p) c = given p (λ p. record c { before_proxy = some p })
  configure (with_proxies cidrs) c = behind_proxies c (with_trusted_proxies n cidrs)
  configure (with_client_ip_resolver r) c = given r (λ r. record c { client_ip_resolver = some r })
  configure (with_client_ip_limiter l) c = given l (λ l. record c { client_ip_limiter = some l })
  configure (with_user_limiter l) c = given l (λ l. record c { user_limiter = some l })
  configure (with_upstream_limiter l) c = given l (λ l. record c { upstream_limiter = some l })
  configure (with_error_responder r) c = given r (λ r. record c { error_responder = some r })
  configure (with_request_id r) c = ok (record c { request_id = r })
  configure (with_cors cors) c = ok (record c { cors = some cors })
  configure (with_access_logger l) c = given l (λ l. record c { access_logger = some l })
  configure without_access_log c = ok (record c { access_log_disabled = true })
  configure (with_slog_access_logger l) c = ok (record c { access_logger = some l })
  configure (with_observer true) c = ok (record c { observer = true })
  configure (with_observer false) c = err nil_component
  configure (with_health h) c = ok (record c { health = some h })

  -- `componentOption`: each component is configured at most once.
  unfoldable pub apply_setting : Setting → GatewayConfig → Result NewError GatewayConfig
  apply_setting s c = do
    refuse (has_text c.configured_components (component_name s))
        (duplicate_component (component_name s))
    configure s (record c { configured_components = component_name s ∷ c.configured_components })

  -- The loop of `New` over the options.
  unfoldable pub apply_settings :
      ℕ → List (Option Setting) → GatewayConfig → Result NewError GatewayConfig
  apply_settings index [] c = ok c
  apply_settings index (none ∷ ss) c = err (nil_option index)
  apply_settings index (some s ∷ ss) c =
      apply_setting s c >>= λ c'. apply_settings (suc index) ss c'
