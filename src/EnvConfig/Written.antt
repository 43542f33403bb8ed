-- ===== src/EnvConfig/Written.antt =====
-- Integers and durations in seconds, as sdk/go/envconfig/env.go reads what `strconv` writes.
use stellarmesh_sdk.Base.{
  ℕ, zero, suc, ◌*◌, ◌^◌, ◌<◌, ◌≡◌, refl, Option, none, some, ltb, if◌then◌else◌, ℤ, pos, arith,
}
use stellarmesh_sdk.Text.{Text, decimal}
use stellarmesh_sdk.Text.ParseInt.{signed_decimal}
use stellarmesh_sdk.Text.ParseInt.Decimal.{
  IsInt64, parse_int-signed_decimal, signed_decimal-IsSolid, signed_decimal-is_empty,
}
use stellarmesh_sdk.EnvConfig.{
  Env, read, rejected, strict, set_value-IsSolid, int_strict, duration_strict, parsed_duration,
  from_seconds, not_a_duration,
}

-- A 64-bit integer that is written in decimal is read back as itself, without an error.
pub int_strict-signed_decimal :
    (env : Env) (key : Text) (fallback z : ℤ)
    → env key ≡ some (signed_decimal z)
    → IsInt64 z
    → int_strict env key fallback ≡ read z
unfolding int_strict
int_strict-signed_decimal env key fallback z set bounded =
    rw
      (
        set_value-IsSolid env key (signed_decimal z) set (signed_decimal-IsSolid z bounded)
            (signed_decimal-is_empty z bounded),
        strict,
        parse_int-signed_decimal z bounded,
      )
      refl

-- A positive 64-bit integer that is no duration of its own is read as that many seconds if their
-- nanoseconds fit in 64 bits, and else it is an error that comes with the fallback.
pub duration_strict-decimal :
    (parse_duration : Text → Option ℤ) (env : Env) (key : Text) (fallback : ℤ) (n : ℕ)
    → env key ≡ some (decimal n)
    → 0 < n
    → n < 2 ^ 63
    → parse_duration (decimal n) ≡ none
    → duration_strict parse_duration env key fallback ≡ (
        if ltb (n * 1_000_000_000) (2 ^ 63)
        then read (pos (n * 1_000_000_000))
        else rejected fallback (not_a_duration key))
unfolding duration_strict parsed_duration from_seconds signed_decimal
duration_strict-decimal parse_duration env key fallback zero set h bounded unitless =
    absurd (omega (arith, h))
duration_strict-decimal parse_duration env key fallback (suc n) set h bounded unitless =
    let value =
      set_value-IsSolid env key (decimal (suc n)) set (signed_decimal-IsSolid (pos (suc n)) bounded)
        (signed_decimal-is_empty (pos (suc n)) bounded) in
    rw (value, strict, unitless, parse_int-signed_decimal (pos (suc n)) bounded) ground arith
