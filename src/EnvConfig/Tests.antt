-- ===== src/EnvConfig/Tests.antt =====
-- Tests of the settings, and the theorems of the module at an environment.
use stellarmesh_sdk.Base.{
  ◌^◌, ◌*◌, ◌≡◌, refl, true, List, [], ◌∷◌, ◌++◌, Option, none, some, ltb, if◌then◌else◌, ℤ, pos,
  negsuc, All, arith,
}
use stellarmesh_sdk.Text.{
  contains_byte, Text, ascii, decimal, ◌==◌, join, has_prefix, has_suffix, split, trim_space,
  upper_byte,
}
use stellarmesh_sdk.Text.ParseInt.{signed_decimal, parse_digits, parse_int, parse_natural}
use stellarmesh_sdk.EnvConfig.{
  Env, read, rejected, not_a_byte_size, no_values, int_strict, csv_strict, parse_csv, set_value,
}
use stellarmesh_sdk.EnvConfig.Size.{byte_size_strict}
use stellarmesh_sdk.EnvConfig.Size.Bounds.{unit_text, unit_bytes, mib, byte_size_strict-unit}
use stellarmesh_sdk.EnvConfig.Csv.{IsValue, csv_strict-join}
use stellarmesh_sdk.EnvConfig.Written.{int_strict-signed_decimal}
use stellarmesh_sdk.EnvConfig.Loader.{new_strict_loader}
use stellarmesh_sdk.EnvConfig.Loader.First.{
  Setting, int_setting, byte_size_setting, bool_setting, load_all, IsFirstError,
  load_all-IsFirstError,
}

abbrev no_duration : Text → Option ℤ
no_duration s = none

-- Each key has this value.
abbrev env_of : Text → Env
env_of value key = some value

abbrev sample_env : Env
sample_env key =
    if key == ascii "PORT"
    then some (ascii " 80 ")
    else if key == ascii "DEBUG"
    then some (ascii "maybe")
    else if key == ascii "LIMIT"
    then some (ascii "9gib")
    else none

abbrev settings : List Setting
settings =
    int_setting (ascii "PORT") (pos 1)
    ∷ bool_setting (ascii "DEBUG") true
    ∷ byte_size_setting (ascii "LIMIT") (pos 0)
    ∷ []

load_all-IsFirstError_example :
    IsFirstError no_duration sample_env settings
      (load_all no_duration sample_env new_strict_loader settings).err
load_all-IsFirstError_example = load_all-IsFirstError no_duration sample_env settings

byte_size_strict-unit_example :
    byte_size_strict (env_of (decimal 2 ++ unit_text mib)) (ascii "LIMIT") (pos 7) ≡ (
      if ltb (2 * unit_bytes mib) (2 ^ 63)
      then read (pos (2 * unit_bytes mib))
      else rejected (pos 7) (not_a_byte_size (ascii "LIMIT")))
byte_size_strict-unit_example =
    byte_size_strict-unit (env_of (decimal 2 ++ unit_text mib)) (ascii "LIMIT") (pos 7) 2 mib refl
      (omega arith) (omega arith)

-- 9 GiB, with small letters and a space.
sized : byte_size_strict (env_of (ascii " 9 gib")) [] (pos 7) ≡ read (pos 9663676416)
unfolding byte_size_strict set_value trim_space has_prefix parse_int has_suffix upper_byte
    parse_natural parse_digits
sized = refl

-- One more than 64 bits hold.
oversized :
    byte_size_strict (env_of (ascii "8589934592GiB")) [] (pos 7)
    ≡ rejected (pos 7) (not_a_byte_size [])
unfolding byte_size_strict set_value trim_space has_prefix parse_int has_suffix upper_byte
    parse_natural parse_digits
oversized = refl

int_strict-signed_decimal_example :
    int_strict (env_of (signed_decimal (negsuc 41))) [] (pos 7) ≡ read (negsuc 41)
int_strict-signed_decimal_example =
    int_strict-signed_decimal (env_of (signed_decimal (negsuc 41))) [] (pos 7) (negsuc 41) refl
      (omega arith)

abbrev hosts : List Text
hosts = ascii "a" ∷ ascii "b c" ∷ []

hosts-AreValues : All IsValue hosts
unfolding trim_space contains_byte has_prefix
hosts-AreValues = (
  record { is_trimmed = refl; is_filled = refl; has_no_comma = refl },
  (record { is_trimmed = refl; is_filled = refl; has_no_comma = refl }, tt),
)

csv_strict-join_example : csv_strict (env_of (join hosts b',')) [] (ascii "x") ≡ read hosts
csv_strict-join_example =
    csv_strict-join (env_of (join hosts b',')) [] (ascii "x") hosts refl hosts-AreValues

blank_list :
    csv_strict (env_of (ascii " , ")) (ascii "HOSTS") (ascii "x")
    ≡ rejected (ascii "x" ∷ []) (no_values (ascii "HOSTS"))
unfolding csv_strict parse_csv split trim_space has_prefix
blank_list = refl
