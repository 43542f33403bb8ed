-- ===== src/RedisLimit/Decisions.antt =====
-- The decisions of the limiter of sdk/go/gateway/redislimit/limiter.go.
use stellarmesh_sdk.Base.{
  err-ne-ok, Result-cases, some-inj, ◌≡◌, ◌⊎◌, refl, sym, subst, ℕ, ◌<◌, ◌≤◌, ◌*◌, ◌^◌, Bool, true,
  false, List, [], ◌∷◌, Option, none, some, ltb, if◌then◌else◌, ℤ, pos, negsuc, Result, ok, err,
  ok-inj, arith, Bool-cases, Option-cases, inl, inr,
}
use stellarmesh_sdk.Text.{Text, ascii, trim_space}
use stellarmesh_sdk.Gateway.Route.{is_empty}
use stellarmesh_sdk.Gateway.Types.{
  returns-inj, fails-ne-returns, RateLimitRequest, RateLimitDecision, Error, returns,
}
use stellarmesh_sdk.RedisLimit.{
  Value, integer, Float, finite, nan, infinite, same_scope, to_int64, remaining_of, retry_of,
  flag_of, wanted, parse_decision, as_int64, Limiter, ScriptCall, answered, script_call, allow,
}

-- A wait that a duration holds, a reason exactly where the request is refused, and a number of
-- remaining tokens, unless the script's is too large.
pub record IsDecision (out_of_range : ℤ) (d : RateLimitDecision) : Type 0 where
  pub has_retry : (n : ℕ) × (d.retry_after ≡ pos n) × (n < 2 ^ 63)
  pub has_remaining :
      (d.remaining ≡ out_of_range) ⊎ ((n : ℕ) × (d.remaining ≡ pos n) × (n < 2 ^ 63))
  pub has_reason : is_empty d.reason ≡ d.allowed

retry_of-bound : (o : Option ℤ) (z : ℤ) → retry_of o ≡ some z → (n : ℕ) × (z ≡ pos n) × (n < 2 ^ 63)
unfolding retry_of
retry_of-bound none z h = cc
retry_of-bound (some (negsuc n)) z h = cc
retry_of-bound (some (pos n)) z h = elim (Bool-cases (ltb 9223372036854 n)) [
  | inl long ↦ cc
  | inr short ↦ (n * 1_000_000, sym (some-inj (rw (short, retry_of) at h)), ground arith)
]

remaining_of-bound :
    (out_of_range : ℤ) (o : Option Float) (z : ℤ)
    → remaining_of out_of_range o ≡ some z
    → (z ≡ out_of_range) ⊎ ((n : ℕ) × (z ≡ pos n) × (n < 2 ^ 63))
unfolding remaining_of to_int64
remaining_of-bound out_of_range none z h = cc
remaining_of-bound out_of_range (some nan) z h = cc
remaining_of-bound out_of_range (some infinite) z h = cc
remaining_of-bound out_of_range (some (finite (negsuc n))) z h = cc
remaining_of-bound out_of_range (some (finite (pos n))) z h = elim (Bool-cases (ltb n (2 ^ 63))) [
  | inl small ↦ inr (n, sym (some-inj (rw (small, remaining_of) at h)), ground arith)
  | inr large ↦ inl (sym (some-inj (rw (large, remaining_of) at h)))
]

-- The parts of an answer that the script gives.
flag_of-bool : (b : Bool) → flag_of (some (pos (if b then 1 else 0))) ≡ some b
unfolding flag_of
flag_of-bool true = refl
flag_of-bool false = refl

remaining_of-finite :
    (out_of_range : ℤ) (n : ℕ)
    → n < 2 ^ 63
    → remaining_of out_of_range (some (finite (pos n))) ≡ some (pos n)
unfolding remaining_of to_int64
remaining_of-finite out_of_range n h =
    let small : ltb n (2 ^ 63) ≡ true = ground arith in rw small refl

retry_of-pos : (n : ℕ) → n ≤ 9223372036854 → retry_of (some (pos n)) ≡ some (pos (n * 1_000_000))
unfolding retry_of
retry_of-pos n h = let short : ltb 9223372036854 n ≡ false = ground arith in rw short refl

wanted-IsDecision :
    (out_of_range : ℤ) (a : Option Bool) (o : Option Float) (r : Option ℤ) (d : RateLimitDecision)
    → wanted a (remaining_of out_of_range o) (retry_of r) ≡ ok d
    → IsDecision out_of_range d
unfolding wanted
wanted-IsDecision out_of_range none o r d h = cc
wanted-IsDecision out_of_range (some a) o r d h =
    elim (Option-cases (remaining_of out_of_range o)) [
      | inl broken ↦ absurd (err-ne-ok (rw (broken, wanted) at h))
      | inr (remaining, read) ↦ elim (Option-cases (retry_of r)) [
        | inl broken ↦ absurd (err-ne-ok (rw (read, broken, wanted) at h))
        | inr (retry, waits) ↦
            subst (IsDecision out_of_range) (ok-inj (rw (read, waits, wanted) at h)) (record {
              has_retry = retry_of-bound r retry waits;
              has_remaining = remaining_of-bound out_of_range o remaining read;
              has_reason = reason a;
            })
      ]
    ]
  where
    reason : (a : Bool) → is_empty (if a then [] else ascii "rate limit exceeded") ≡ a
    reason true = refl
    reason false = refl

parse_decision-IsDecision :
    (parse_float : Value → Option Float) (out_of_range : ℤ) (values : Option (List Value))
    (d : RateLimitDecision)
    → parse_decision parse_float out_of_range values ≡ ok d
    → IsDecision out_of_range d
unfolding parse_decision
parse_decision-IsDecision f z none d h = cc
parse_decision-IsDecision f z (some []) d h = cc
parse_decision-IsDecision f z (some (a ∷ [])) d h = cc
parse_decision-IsDecision f z (some (a ∷ b ∷ [])) d h = cc
parse_decision-IsDecision f z (some (a ∷ b ∷ c ∷ e ∷ vs)) d h = cc
parse_decision-IsDecision f z (some (a ∷ b ∷ c ∷ [])) d h =
    wanted-IsDecision z (flag_of (as_int64 a)) (f b) (as_int64 c) d h

module _ (Rate : Type 0) (sha256 : Text → Text) (parse_float : Value → Option Float)
    (out_of_range : ℤ) (eval : ScriptCall Rate → Result Error (Option (List Value))) where
  answered-IsDecision :
      (r : Result Error (Option (List Value))) (d : RateLimitDecision)
      → answered Rate sha256 parse_float out_of_range eval r ≡ returns d
      → IsDecision out_of_range d
  unfolding answered
  answered-IsDecision (err e) d h = absurd (fails-ne-returns h)
  answered-IsDecision (ok values) d h =
      elim (Result-cases (parse_decision parse_float out_of_range values)) [
        | inl (e, broken) ↦ absurd (fails-ne-returns (rw (broken, answered) at h))
        | inr (x, parsed) ↦
            subst (IsDecision out_of_range) (returns-inj (rw (parsed, answered) at h))
              (parse_decision-IsDecision parse_float out_of_range values x parsed)
      ]

  -- Whatever Redis answers, a decision that the Redis limiter gives has a wait that is not
  -- negative and below 2 to the 63 nanoseconds, a reason exactly if the request is refused, and a
  -- number of remaining tokens that is not negative and below 2 to the 63, or what a conversion to
  -- 64 bits makes of a number that is too large.
  pub allow-IsDecision :
      (l : Limiter Rate) (now : ℤ) (q : RateLimitRequest) (d : RateLimitDecision)
      → allow Rate sha256 parse_float out_of_range eval l now q ≡ returns d
      → IsDecision out_of_range d
  unfolding allow
  allow-IsDecision l now q d h = elim (Bool-cases (same_scope q.scope l.scope)) [
    | inl same ↦ elim (Bool-cases (is_empty (trim_space q.key))) [
      | inl blank ↦ absurd (fails-ne-returns (rw (same, blank, allow) at h))
      | inr filled ↦
          answered-IsDecision
            (eval (script_call Rate sha256 parse_float out_of_range eval l now q.key)) d
            (rw (same, filled, allow) at h)
    ]
    | inr different ↦ absurd (fails-ne-returns (rw (different, allow) at h))
  ]

  -- Where the request has the scope of the Redis limiter and a key that is not blank, and the
  -- script answers with a flag of 0 or 1, a number of tokens whose floor is not negative and fits
  -- 64 bits, and a wait in milliseconds of at most 9223372036854, the limiter decides by the flag,
  -- with that floor as the tokens that remain, the wait in nanoseconds, and a reason only for a
  -- refusal.
  pub allow-decision :
      (l : Limiter Rate) (now : ℤ) (q : RateLimitRequest) (allowed : Bool) (remaining : Value)
      (n retry : ℕ)
      → same_scope q.scope l.scope ≡ true
      → is_empty (trim_space q.key) ≡ false
      → eval (script_call Rate sha256 parse_float out_of_range eval l now q.key)
        ≡ ok
            (some (integer (pos (if allowed then 1 else 0)) ∷ remaining ∷ integer (pos retry) ∷ []))
      → parse_float remaining ≡ some (finite (pos n))
      → n < 2 ^ 63
      → retry ≤ 9223372036854
      → allow Rate sha256 parse_float out_of_range eval l now q
        ≡ returns (record {
          allowed = allowed;
          remaining = pos n;
          retry_after = pos (retry * 1_000_000);
          reason = if allowed then [] else ascii "rate limit exceeded";
        })
  unfolding allow answered parse_decision as_int64
  allow-decision l now q allowed remaining n retry same filled e parsed small short =
      let flag = flag_of-bool allowed in
      let rest = remaining_of-finite out_of_range n small in
      let wait = retry_of-pos retry short in rw (same, filled, e, parsed, flag, rest, wait) refl
