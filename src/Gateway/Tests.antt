-- ===== src/Gateway/Tests.antt =====
-- The gateway at concrete requests.
use stellarmesh_sdk.Base.{
  ◌-◌, if◌then◌else◌, List, sym, subst, ◌∙◌, arith, ℕ_discrete, ◌≡◌, refl, inl, inr, true, false,
  [], ◌∷◌, none, some, pos,
}
use stellarmesh_sdk.Text.{
  Text, ascii, trim_space, has_prefix, text_discrete, to_upper, to_lower, trim_left, contains_byte,
  upper_byte, lower_byte, equal_fold, cut, join,
}
use stellarmesh_sdk.Gateway.Token.{is_token_byte}
use stellarmesh_sdk.Gateway.Header.{
  Header, no_header, canonical_header_key, values, get, put, set, add, del,
}
use stellarmesh_sdk.Gateway.Types.{
  access_protected, Route, Identity, PolicyDecision, Request, returns, empty_context,
}
use stellarmesh_sdk.Gateway.Recorder.{
  Recorder, WriterCall, Writer, send_header, send_body, writer_write_header, writer_write,
  new_recorder, write_header, write, run_call, run_calls,
}
use stellarmesh_sdk.Gateway.AccessLog.{
  Exchange, new_access_log_state, set_auth_result, set_rate_limit_result, record_gateway_error,
}
use stellarmesh_sdk.Gateway.Respond.{default_error_responder, plain_text, rejection, respond, fail}
use stellarmesh_sdk.Gateway.Respond.Answered.{AnswersAll, Answers}
use stellarmesh_sdk.Gateway.Recorder.Final.{informational_drops_final, run_calls-status}
use stellarmesh_sdk.Gateway.Finish.{request_completed, finish_request, default_error_code}
use stellarmesh_sdk.Gateway.Finish.Reports.{
  completions, entries, finish_request-completions, finish_request-entries,
}
use stellarmesh_sdk.Gateway.Authenticate.Headers.{identity_values}
use stellarmesh_sdk.Gateway.Pipeline.Forwarded.{admit-identity_values}
use stellarmesh_sdk.Gateway.Pipeline.Served.{IsSettled, serve_http-IsSettled}
use stellarmesh_sdk.Gateway.RequestId.{is_safe_request_id, resolve_request_id}
use stellarmesh_sdk.Gateway.Credential.{is_token68, scan_token, is_token68_byte, bearer_credential}
use stellarmesh_sdk.Gateway.Route.{is_empty, normalize_resolved_route}
use stellarmesh_sdk.Gateway.Flow.{Flow, next, done, panicked}
use stellarmesh_sdk.Gateway.RateLimit.{apply_rate_limit}
use stellarmesh_sdk.Gateway.Policy.{apply_authorizer, apply_before_proxy}
use stellarmesh_sdk.Gateway.Authenticate.{authenticate, strip_and_inject_identity}
use stellarmesh_sdk.Gateway.Pipeline.{
  Gateway, Handler, assign_request_id, check_cors, check_health, select_route, authorize_request,
  check_body, check_user, identify_client, select_upstream, admit, arrival, serve_http,
}
use stellarmesh_sdk.Gateway.Pipeline.Admitted.{Admitted, admit-Admitted}

abbrev orders : Route
orders = record {
  name = ascii "orders";
  match = record { methods = []; exact_path = []; path_prefix = ascii "/orders" };
  upstream = ascii "orders";
  access = access_protected;
  max_body_bytes = pos 10;
}

abbrev alice : Identity
alice = record { user_id = ascii "alice"; roles = ascii "buyer" ∷ []; attributes = none }

abbrev forged : Header
forged =
    set (set no_header (ascii "X-User-ID") (ascii "root")) (ascii "Authorization")
      (ascii "Bearer abc")

abbrev order_request : Request
order_request = record {
  method = ascii "GET";
  path = ascii "/orders/1";
  header = forged;
  remote_addr = ascii "192.0.2.1:80";
  content_length = pos 4;
  has_body = true;
  body_limit = none;
  context = empty_context;
}

abbrev served : Handler
served r = record { calls = send_header 200 ∷ []; panic = none }

abbrev permitted : PolicyDecision
permitted = record { allowed = true; reason = [] }

abbrev shop : Gateway
shop = record {
  routes = λ r. returns (some orders);
  upstreams = λ route. returns (some served);
  authenticator =
      some (λ credential. returns (record { authenticated = true; identity = alice; reason = [] }));
  credential_extractor = bearer_credential;
  authorizer = some (λ r c. returns permitted);
  before_proxy = none;
  client_ip_resolver = λ r. returns (ascii "192.0.2.1");
  client_ip_limiter = some (λ q.
      returns (record { allowed = true; remaining = pos 1; retry_after = pos 0; reason = [] }));
  user_limiter = none;
  upstream_limiter = none;
  error_responder = default_error_responder;
  request_id = record {
    header = ascii "X-Request-ID";
    max_length = 128;
    generate = returns (ascii "id-1");
    trust_incoming = false;
  };
  cors = none;
  access_logger = some (λ entry. false);
  observer = true;
  health = none;
}

abbrev open_writer : Writer
open_writer = record { header = no_header; informational = []; final = none; body = [] }

abbrev start : Exchange
start = arrival shop open_writer order_request 0

abbrev reached : Flow Handler → Exchange
reached (next h x) = x
reached (done x) = x
reached (panicked p x) = x

abbrev admitted : Exchange
admitted = reached (admit shop start)

start-admitted : admit shop start ≡ next served admitted
unfolding admit assign_request_id resolve_request_id values arrival set put text_discrete
    canonical_header_key is_token_byte contains_byte upper_byte lower_byte is_safe_request_id
    check_cors check_health select_route normalize_resolved_route new_access_log_state
    set_auth_result set_rate_limit_result authenticate strip_and_inject_identity add del get
    authorize_request check_body check_user identify_client select_upstream apply_authorizer
    apply_before_proxy apply_rate_limit new_recorder run_call run_calls write_header write
    writer_write writer_write_header has_prefix join trim_space bearer_credential cut trim_left
    equal_fold is_token68 scan_token is_token68_byte to_lower to_upper record_gateway_error
    ℕ_discrete
start-admitted = refl

admit-Admitted_example : Admitted shop start.request served admitted.request
admit-Admitted_example = admit-Admitted shop start admitted served start-admitted

admit-identity_values_example :
    (a : Admitted shop start.request served admitted.request) × ((field : Text)
      → admitted.request.header field
        ≡ identity_values
            (set (del start.request.header (ascii "X-Request-ID")) (ascii "X-Request-ID") a.id)
            field
            a.identity)
admit-identity_values_example = admit-identity_values shop start admitted served start-admitted

default_answers : AnswersAll default_error_responder
unfolding default_error_responder plain_text
default_answers r e = inl refl

handler-eq : {h k : Handler} {x y : Exchange} → next h x ≡ next k y → h ≡ k
handler-eq e = cc

served-Answers :
    (h : Handler) (y : Exchange)
    → admit shop (arrival shop open_writer order_request 0) ≡ next h y
    → Answers (h y.request)
served-Answers h y e =
    subst (λ (k : Handler). Answers (k y.request)) (handler-eq (sym start-admitted ∙ e)) (inl refl)

serve_http-IsSettled_example : IsSettled shop (serve_http shop open_writer order_request 0 5).0
serve_http-IsSettled_example =
    serve_http-IsSettled shop open_writer order_request 0 5 default_answers tt served-Answers

abbrev refused : Exchange
refused =
    fail default_error_responder start
      (rejection 404 (ascii "route_not_found") (ascii "route not found"))

refused_status : refused.recorder.status ≡ 404
unfolding fail respond default_error_responder plain_text arrival new_recorder run_calls run_call
    write_header write writer_write writer_write_header record_gateway_error new_access_log_state
    set put canonical_header_key
refused_status = refl

finish_request-completions_example :
    completions (finish_request (some (λ entry. true)) true refused 5)
    ≡ record {
      kind = request_completed;
      component = [];
      route = refused.log.entry.route;
      upstream = refused.log.entry.upstream;
      status = refused.recorder.status;
      elapsed = 5 - refused.log.started_at;
    }
      ∷ []
finish_request-completions_example = finish_request-completions (some (λ entry. true)) refused 5

finish_request-entries_example :
    entries (finish_request (some (λ entry. true)) true refused 5)
    ≡ record (refused.log.entry) {
      status = refused.recorder.status;
      elapsed = 5 - refused.log.started_at;
      error_code =
          if is_empty refused.log.entry.error_code
          then default_error_code refused.recorder.status
          else refused.log.entry.error_code;
    }
      ∷ []
finish_request-entries_example =
    finish_request-entries (λ entry. true) true refused 5 (inr (rw refused_status (omega arith)))

informational_drops_final_example :
    let r =
      run_calls
        (send_header 103 ∷ send_header 404 ∷ send_body (ascii "no") ∷ [])
        (new_recorder open_writer) in
    (r.status ≡ 103) × (r.writer.final ≡ some (200, no_header))
informational_drops_final_example =
    informational_drops_final open_writer 103 404 (ascii "no") refl refl

abbrev late_calls : List WriterCall
late_calls = send_header 500 ∷ send_body (ascii "late") ∷ []

abbrev missing : Recorder
missing = write_header 404 (new_recorder open_writer)

missing_started : missing.wrote_header ≡ true
unfolding write_header writer_write_header new_recorder
missing_started = refl

run_calls-status_example :
    ((run_calls late_calls missing).status ≡ missing.status)
    × ((run_calls late_calls missing).wrote_header ≡ true)
run_calls-status_example = run_calls-status late_calls missing missing_started
