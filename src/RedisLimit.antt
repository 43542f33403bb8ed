-- ===== src/RedisLimit.antt =====
-- sdk/go/gateway/redislimit/limiter.go: a limiter of the gateway on a script that Redis runs. Redis,
-- SHA-256 and the arithmetic and the parsing of floating-point numbers are parameters.
pub mod Decisions
pub mod Keys
mod Tests
use stellarmesh_sdk.Base.{
  ℕ, ◌+◌, ◌-◌, ◌*◌, ◌/◌, ◌%◌, ◌^◌, Bool, true, false, not, ◌&&◌, ◌||◌, List, [], ◌∷◌, ◌++◌, Option,
  none, some, ltb, eqb, any, if◌then◌else◌, length, ℤ, pos, negsuc, is_negative, is_positive,
  pos_part, Result, ok, err, refuse, ◌>>=◌, ◌>>◌,
}
use stellarmesh_sdk.Text.{Text, ascii, trim_space, contains_byte}
use stellarmesh_sdk.Text.ParseInt.{negated, parse_int}
use stellarmesh_sdk.Gateway.Route.{is_empty}
use stellarmesh_sdk.Gateway.Types.{
  RateLimitScope, client_ip, user_id, upstream, RateLimitRequest, RateLimitDecision, Error, failure,
  Call, returns, fails,
}

pub data LimiterError : Type 0 where
  client_required scope_invalid prefix_invalid rate_invalid burst_invalid : LimiterError
  refill_too_long : LimiterError

pub data DecisionError : Type 0 where
  unexpected_result invalid_flag invalid_remaining invalid_retry : DecisionError

-- The text of a scope.
abbrev pub scope_text : RateLimitScope → Text
scope_text client_ip = ascii "client_ip"
scope_text user_id = ascii "user_id"
scope_text upstream = ascii "upstream"

abbrev pub same_scope : RateLimitScope → RateLimitScope → Bool
same_scope client_ip client_ip = true
same_scope user_id user_id = true
same_scope upstream upstream = true
same_scope _ _ = false

-- What the script gives as a Go value: an `int64` or an `int`, a string, a `[]byte`, or any other.
pub data Value : Type 0 where
  integer : ℤ → Value
  string bytes : Text → Value
  other : Value

-- A `float64`, as far as the parse of an answer reads it: a finite number is given by its floor,
-- which is negative where the number is.
pub data Float : Type 0 where
  nan infinite : Float
  finite : ℤ → Float

-- `asInt64`.
as_int64 : Value → Option ℤ
as_int64 (integer z) = some z
as_int64 (string s) = parse_int s
as_int64 (bytes s) = parse_int s
as_int64 other = none

flag_of : Option ℤ → Option Bool
flag_of (some (pos n)) = if eqb n 0 then some false else if eqb n 1 then some true else none
flag_of _ = none

-- `int64` of a number without a fraction; outside 64 bits the language leaves it open.
to_int64 : ℤ → ℤ → ℤ
to_int64 out_of_range (pos n) = if ltb n (2 ^ 63) then pos n else out_of_range
to_int64 out_of_range (negsuc n) = if ltb n (2 ^ 63) then negsuc n else out_of_range

remaining_of : ℤ → Option Float → Option ℤ
unfolding to_int64
remaining_of out_of_range (some (finite z)) =
    if is_negative z then none else some (to_int64 out_of_range z)
remaining_of out_of_range _ = none

-- A wait in nanoseconds, from one in milliseconds.
retry_of : Option ℤ → Option ℤ
retry_of (some (pos n)) =
    if ltb ((2 ^ 63 - 1) / 1_000_000) n then none else some (pos (n * 1_000_000))
retry_of _ = none

wanted : Option Bool → Option ℤ → Option ℤ → Result DecisionError RateLimitDecision
wanted none _ _ = err invalid_flag
wanted (some allowed) none _ = err invalid_remaining
wanted (some allowed) (some remaining) none = err invalid_retry
wanted (some allowed) (some remaining) (some retry_after) = ok (record {
  allowed = allowed;
  remaining = remaining;
  retry_after = retry_after;
  reason = if allowed then [] else ascii "rate limit exceeded";
})

-- `strconv.ParseFloat` of a printed value, and `int64` of a number that is too large.
module _ (parse_float : Value → Option Float) (out_of_range : ℤ) where
  -- `parseDecision`; `none` is a value that is not a list.
  unfoldable pub parse_decision : Option (List Value) → Result DecisionError RateLimitDecision
  unfolding as_int64 flag_of remaining_of retry_of wanted
  parse_decision (some (allowed ∷ remaining ∷ retry ∷ [])) =
      wanted (flag_of (as_int64 allowed)) (remaining_of out_of_range (parse_float remaining))
        (retry_of (as_int64 retry))
  parse_decision _ = err unexpected_result

abbrev pub decided : Result DecisionError RateLimitDecision → Call RateLimitDecision
decided (ok d) = returns d
decided (err e) = fails (failure (ascii "invalid Redis token bucket result"))

hex_digit : ℕ → ℕ
hex_digit d = if ltb d 10 then b'0' + d else b'a' + (d - 10)

-- `hex.EncodeToString`.
unfoldable pub hex : Text → Text
unfolding hex_digit
hex [] = []
hex (c ∷ s) = hex_digit (c / 16) ∷ hex_digit (c % 16) ∷ hex s

module _ (Rate : Type 0) where
  -- `has_client` says that the runner is neither nil nor a nil pointer; `scope` is none where the text
  -- is of no scope.
  pub record Config : Type 0 where
    pub has_client : Bool
    pub scope : Option RateLimitScope
    pub key_prefix : Text
    pub rate_per_second : Rate
    pub burst : ℤ

  pub record Limiter : Type 0 where
    pub scope : RateLimitScope
    pub key_prefix : Text
    pub rate_per_second : Rate
    pub burst : ℤ
    pub ttl : ℕ

  -- The key and the arguments of the script.
  pub record ScriptCall : Type 0 where
    pub key : Text
    pub now_ms : ℤ
    pub rate : Rate
    pub burst : ℤ
    pub ttl_ms : ℕ

  check_scope : Option RateLimitScope → Result LimiterError RateLimitScope
  check_scope none = err scope_invalid
  check_scope (some scope) = ok scope

  check_refill : Option ℕ → Result LimiterError ℕ
  check_refill none = err refill_too_long
  check_refill (some ttl) = ok ttl

  bad_prefix : Text → Bool
  bad_prefix prefix =
      is_empty prefix
      || (ltb 128 (length prefix) || any (λ c. contains_byte (ascii "\r\n\t ") c) prefix)

  -- `New`, with whether a rate is finite and positive, and the time, in nanoseconds, in which twice the
  -- burst refills, a second at least, where a duration can hold it.
  unfoldable pub new_limiter :
      (Rate → Bool) → (ℤ → Rate → Option ℕ) → Config → Result LimiterError Limiter
  unfolding check_scope check_refill bad_prefix
  new_limiter is_usable refill_time config =
      let prefix = trim_space config.key_prefix in
      refuse (not config.has_client) client_required
      >> (check_scope config.scope >>= λ scope.
          refuse (bad_prefix prefix) prefix_invalid
          >> (refuse (not (is_usable config.rate_per_second)) rate_invalid
              >> (refuse (not (is_positive config.burst)) burst_invalid
                  >> (check_refill (refill_time config.burst config.rate_per_second) >>= λ ttl.
                      ok (record {
                        scope = scope;
                        key_prefix = prefix;
                        rate_per_second = config.rate_per_second;
                        burst = config.burst;
                        ttl = ttl;
                      })))))

  -- `redisKey`.
  unfoldable pub redis_key : (Text → Text) → Limiter → Text → Text
  redis_key sha256 l key =
      l.key_prefix ++ b':' ∷ (scope_text l.scope ++ b':' ∷ hex (sha256 (trim_space key)))

  module _ (sha256 : Text → Text) (parse_float : Value → Option Float) (out_of_range : ℤ)
      (eval : ScriptCall → Result Error (Option (List Value))) where
    pub script_call : Limiter → ℤ → Text → ScriptCall
    unfolding redis_key
    script_call l now key = record {
      key = redis_key sha256 l key;
      now_ms = now;
      rate = l.rate_per_second;
      burst = l.burst;
      ttl_ms = l.ttl / 1_000_000;
    }

    answered : Result Error (Option (List Value)) → Call RateLimitDecision
    answered (err e) = fails e
    answered (ok values) = decided (parse_decision parse_float out_of_range values)

    -- `Allow`, at a time in milliseconds.
    unfoldable pub allow : Limiter → ℤ → RateLimitRequest → Call RateLimitDecision
    unfolding script_call answered
    allow l now q =
        if not (same_scope q.scope l.scope)
        then fails (failure (ascii "Redis rate limiter scope mismatch"))
        else if is_empty (trim_space q.key)
        then fails (failure (ascii "Redis rate limiter key is empty"))
        else answered (eval (script_call l now q.key))
