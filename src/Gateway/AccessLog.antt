-- ===== src/Gateway/AccessLog.antt =====
-- sdk/go/gateway/access_log.go, the state of one request's log entry, and the exchange that the
-- pipeline threads: the request, the recorder and that state. What `finishRequest` makes of the
-- state is in Gateway/Finish.antt.
use stellarmesh_sdk.Base.{ℕ, Bool, true, false, List, [], Option, none, some, if◌then◌else◌}
use stellarmesh_sdk.Text.{Text, ascii}
use stellarmesh_sdk.Gateway.Types.{
  Identity, RateLimitScope, client_ip, user_id, upstream, Error, GatewayError, Request,
}
use stellarmesh_sdk.Gateway.Recorder.{Recorder}

-- `RateLimitResult`, a map from scopes, is a function; an absent entry is the empty text.
pub record AccessLog : Type 0 where
  pub timestamp : ℕ
  pub request_id : Text
  pub method : Text
  pub path : Text
  pub route : Text
  pub client_ip : Text
  pub auth_result : Text
  pub user_id : Text
  pub roles : List Text
  pub upstream : Text
  pub status : ℕ
  pub elapsed : ℕ
  pub error_code : Text
  pub rate_limit_result : RateLimitScope → Text

pub record AccessLogState : Type 0 where
  pub entry : AccessLog
  pub open entry use *
  pub started_at : ℕ
  pub failure_component : Text
  pub skip_successful : Bool

abbrev new_entry : Request → ℕ → AccessLog
new_entry r now = record {
  timestamp = now;
  request_id = [];
  method = r.method;
  path = r.path;
  route = [];
  client_ip = [];
  auth_result = ascii "skipped";
  user_id = [];
  roles = [];
  upstream = [];
  status = 0;
  elapsed = 0;
  error_code = [];
  rate_limit_result = λ scope. [];
}

unfoldable pub new_access_log_state : Request → ℕ → AccessLogState
new_access_log_state r now = record {
  entry = new_entry r now;
  started_at = now;
  failure_component = [];
  skip_successful = false;
}

-- The request keeps one `http.Header` map from its arrival to the upstream.
pub record Exchange : Type 0 where
  pub request : Request
  pub recorder : Recorder
  pub log : AccessLogState

abbrev pub with_log : Exchange → (AccessLog → AccessLog) → Exchange
with_log x f = record x { log = record (x.log) { entry = f x.log.entry } }

failure_of : GatewayError → Option Error → Text → Text
failure_of e none component = component
failure_of e (some cause) component = e.code

unfoldable pub record_gateway_error : Exchange → GatewayError → Exchange
unfolding failure_of
record_gateway_error x e = record x {
  log = record (x.log) {
    entry = record (x.log.entry) { error_code = e.code };
    failure_component = failure_of e e.cause x.log.failure_component;
  };
}

logged_identity : AccessLog → Option Identity → AccessLog
logged_identity log none = log
logged_identity log (some i) = record log { user_id = i.user_id; roles = i.roles }

unfoldable pub set_auth_result : Exchange → Text → Option Identity → Exchange
unfolding logged_identity
set_auth_result x result identity =
    with_log x (λ log. logged_identity (record log { auth_result = result }) identity)

abbrev pub same_scope : RateLimitScope → RateLimitScope → Bool
same_scope client_ip client_ip = true
same_scope user_id user_id = true
same_scope upstream upstream = true
same_scope _ _ = false

unfoldable pub set_rate_limit_result : Exchange → RateLimitScope → Text → Exchange
set_rate_limit_result x scope result = with_log x λ log. record log {
  rate_limit_result = λ s. if same_scope scope s then result else log.rate_limit_result s;
}
