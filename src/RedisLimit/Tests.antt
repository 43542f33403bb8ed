-- ===== src/RedisLimit/Tests.antt =====
-- Runs of the limiter of sdk/go/gateway/redislimit/limiter.go.
use stellarmesh_sdk.Base.{
  ◌≡◌, refl, ℕ, ◌%◌, Bool, true, false, List, [], ◌∷◌, map, Option, some, ltb, ℤ, pos, Result, ok,
  err, arith,
}
use stellarmesh_sdk.Text.{Text, ascii, trim_space, has_prefix, text_discrete, contains_byte}
use stellarmesh_sdk.Gateway.Types.{RateLimitRequest, RateLimitDecision, Error, client_ip, returns}
use stellarmesh_sdk.RedisLimit.{
  Value, integer, string, other, Float, finite, Config, Limiter, ScriptCall, new_limiter,
  burst_invalid, hex, redis_key, allow, parse_decision, invalid_flag,
}
use stellarmesh_sdk.RedisLimit.Decisions.{IsDecision, allow-IsDecision}
use stellarmesh_sdk.RedisLimit.Keys.{IsBytes, redis_key-distinct}

abbrev config : ℤ → Config ℕ
config burst = record {
  has_client = true;
  scope = some client_ip;
  key_prefix = ascii " gateway:rate ";
  rate_per_second = 2;
  burst = burst;
}

abbrev limiter : Limiter ℕ
limiter = record {
  scope = client_ip;
  key_prefix = ascii "gateway:rate";
  rate_per_second = 2;
  burst = pos 4;
  ttl = 4_000_000_000;
}

abbrev is_usable : ℕ → Bool
is_usable rate = ltb 0 rate

abbrev refill_time : ℤ → ℕ → Option ℕ
refill_time burst rate = some 4_000_000_000

makes : new_limiter ℕ is_usable refill_time (config (pos 4)) ≡ ok limiter
unfolding new_limiter trim_space has_prefix text_discrete contains_byte
makes = refl

needs_burst : new_limiter ℕ is_usable refill_time (config (pos 0)) ≡ err burst_invalid
unfolding new_limiter trim_space has_prefix text_discrete contains_byte
needs_burst = refl

-- A stand-in for SHA-256.
abbrev digest : Text → Text
digest s = map (λ c. c % 256) s

abbrev quarter : Value → Option Float
quarter v = some (finite (pos 0))

-- The answer in the tests of the source.
abbrev answer : ScriptCall ℕ → Result Error (Option (List Value))
answer call = ok (some (integer (pos 0) ∷ string (ascii "0.25") ∷ integer (pos 750) ∷ []))

abbrev request : RateLimitRequest
request = record { scope = client_ip; key = ascii "203.0.113.1"; route = []; upstream = [] }

abbrev refusal : RateLimitDecision
refusal = record {
  allowed = false;
  remaining = pos 0;
  retry_after = pos 750_000_000;
  reason = ascii "rate limit exceeded";
}

refuses : allow ℕ digest quarter (pos 0) answer limiter (pos 1234) request ≡ returns refusal
unfolding allow parse_decision trim_space has_prefix
refuses = refl

bad_flag :
    parse_decision quarter (pos 0) (some (integer (pos 2) ∷ other ∷ integer (pos 0) ∷ []))
    ≡ err invalid_flag
unfolding parse_decision
bad_flag = refl

writes_hex : hex (0 ∷ 255 ∷ 26 ∷ []) ≡ ascii "00ff1a"
unfolding hex
writes_hex = refl

allow-IsDecision_example : IsDecision (pos 0) refusal
allow-IsDecision_example =
    allow-IsDecision ℕ digest quarter (pos 0) answer limiter (pos 1234) request refusal refuses

digest-IsBytes : (s : Text) → IsBytes (digest s)
digest-IsBytes [] = tt
digest-IsBytes (c ∷ s) = (omega arith, digest-IsBytes s)

trims : trim_space (ascii " u1 ") ≡ trim_space (ascii "u1")
unfolding trim_space has_prefix
trims = refl

same_key : redis_key ℕ digest limiter (ascii " u1 ") ≡ redis_key ℕ digest limiter (ascii "u1")
unfolding redis_key
same_key = rw trims refl

redis_key-distinct_example :
    (limiter.scope ≡ limiter.scope) × (trim_space (ascii " u1 ") ≡ trim_space (ascii "u1"))
redis_key-distinct_example =
    redis_key-distinct ℕ digest limiter limiter (ascii " u1 ") (ascii "u1") digest-IsBytes refl
      (λ e. trims) same_key
