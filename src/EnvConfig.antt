-- ===== src/EnvConfig.antt =====
-- sdk/go/envconfig/env.go: the environment as typed settings. `Env` is `os.LookupEnv`;
-- `time.ParseDuration` is a parameter, for its fractions are those of floating point. An error is
-- what it says, without its text.
pub mod Size
pub mod Loader
pub mod Csv
pub mod Written
mod Tests
use stellarmesh_sdk.Base.{
  ◌≡◌, ◌≢◌, refl, ℕ, suc, ◌+◌, ◌*◌, ◌/◌, ◌^◌, Bool, true, false, ◌&&◌, ◌||◌, List, [], ◌∷◌, reverse,
  Option, none, some, ltb, leb, eqb, if◌then◌else◌, length, ℤ, pos, negsuc, is_positive, not,
}
use stellarmesh_sdk.Text.{Text, ascii, trim_space, to_lower, has_text, split}
use stellarmesh_sdk.Text.Trim.{IsSolid, trim_space-IsSolid}
use stellarmesh_sdk.Text.ParseInt.{parse_int}
use stellarmesh_sdk.Gateway.Route.{is_empty}

abbrev pub Env : Type 0
Env = Text → Option Text

pub data EnvError : Type 0 where
  not_a_duration not_an_integer not_a_byte_size not_a_boolean no_values : Text → EnvError

-- A value, and the error beside it: a strict function gives the fallback with its error.
pub record Reading {ℓ} (A : Type ℓ) : Type ℓ where
  pub value : A
  pub error : Option EnvError

abbrev pub read {ℓ} : {A : Type ℓ} → A → Reading A
read a = record { value = a; error = none }

abbrev pub rejected {ℓ} : {A : Type ℓ} → A → EnvError → Reading A
rejected fallback e = record { value = fallback; error = some e }

-- `os.Getenv`.
getenv : Env → Text → Text
getenv env key = elim (env key) [ none ↦ [] | some value ↦ value ]

-- The value, where there is one that is not blank.
not_blank : Text → Option Text
not_blank value = if is_empty value then none else some value

unfoldable pub set_value : Env → Text → Option Text
unfolding not_blank
set_value env key = elim (env key) [ none ↦ none | some value ↦ not_blank (trim_space value) ]

abbrev or_else {ℓ} : {A : Type ℓ} → A → Option A → A
or_else fallback none = fallback
or_else fallback (some a) = a

-- A value without spaces is read as it is.
pub set_value-IsSolid :
    (env : Env) (key value : Text)
    → env key ≡ some value
    → IsSolid value
    → value ≢ []
    → set_value env key ≡ some value
unfolding set_value not_blank
set_value-IsSolid env key [] set solid filled = absurd (filled refl)
set_value-IsSolid env key (c ∷ s) set solid filled =
    rw (set, set_value, trim_space-IsSolid (c ∷ s) solid) refl

-- `String`.
unfoldable pub string : Env → Text → Text → Text
unfolding getenv not_blank
string env key fallback = or_else fallback (not_blank (trim_space (getenv env key)))

-- `RequiredString`.
unfoldable pub required_string : Env → Text → Text × Bool
unfolding getenv
required_string env key = let value = trim_space (getenv env key) in (value, not (is_empty value))

-- A strict reading of a value that is set.
abbrev strict {ℓ} : {A : Type ℓ} → Option Text → A → (Text → Option A) → EnvError → Reading A
strict none fallback parse e = read fallback
strict (some value) fallback parse e = elim (parse value) [
  | none ↦ rejected fallback e
  | some a ↦ read a
]

-- Nanoseconds in a second, and the seconds that 64 bits of them hold.
abbrev second : ℕ
second = 1_000_000_000

abbrev max_int64 : ℕ
max_int64 = 9_223_372_036_854_775_807

-- The parsed value where it is positive.
abbrev positive : Option ℤ → Option ℕ
positive (some (pos (suc n))) = some (suc n)
positive _ = none

from_seconds : Option ℕ → Option ℤ
from_seconds none = none
from_seconds (some n) = if leb n (max_int64 / second) then some (pos (n * second)) else none

parsed_duration : (Text → Option ℤ) → Text → Option ℤ
unfolding from_seconds
parsed_duration parse_duration value = elim (positive (parse_duration value)) [
  | some n ↦ some (pos n)
  | none ↦ from_seconds (positive (parse_int value))
]

-- `DurationStrict` and `Duration`.
unfoldable pub duration_strict : (Text → Option ℤ) → Env → Text → ℤ → Reading ℤ
unfolding parsed_duration
duration_strict parse_duration env key fallback =
    strict (set_value env key) fallback (parsed_duration parse_duration) (not_a_duration key)

-- What a function that is not strict makes of the strict one.
abbrev pub lenient {ℓ} : {A : Type ℓ} → A → Reading A → A
lenient fallback r = elim r.error [ none ↦ r.value | some e ↦ fallback ]

unfoldable pub duration : (Text → Option ℤ) → Env → Text → ℤ → ℤ
duration parse_duration env key fallback =
    lenient fallback (duration_strict parse_duration env key fallback)

-- `IntStrict` and `Int`.
unfoldable pub int_strict : Env → Text → ℤ → Reading ℤ
int_strict env key fallback = strict (set_value env key) fallback parse_int (not_an_integer key)

unfoldable pub int : Env → Text → ℤ → ℤ
int env key fallback = lenient fallback (int_strict env key fallback)

-- `Int64`.
unfoldable pub int64 : Env → Text → ℤ → ℤ
unfolding getenv not_blank
int64 env key fallback = elim (not_blank (trim_space (getenv env key))) [
  | none ↦ fallback
  | some value ↦ elim (positive (parse_int value)) [ none ↦ fallback | some n ↦ pos n ]
]

parsed_bool : Text → Option Bool
parsed_bool value =
    if has_text (ascii "1" ∷ ascii "true" ∷ ascii "yes" ∷ ascii "on" ∷ []) value
    then some true
    else if has_text (ascii "0" ∷ ascii "false" ∷ ascii "no" ∷ ascii "off" ∷ []) value
    then some false
    else none

-- The value of `BoolStrict`, in lower case before it is trimmed; no word that counts has a letter that
-- is the lower case of a rune outside ASCII.
lower_value : Env → Text → Option Text
unfolding not_blank
lower_value env key = elim (env key) [
  | none ↦ none
  | some value ↦ not_blank (trim_space (to_lower value))
]

-- `BoolStrict` and `Bool`.
unfoldable pub bool_strict : Env → Text → Bool → Reading Bool
unfolding lower_value parsed_bool
bool_strict env key fallback = strict (lower_value env key) fallback parsed_bool (not_a_boolean key)

unfoldable pub bool : Env → Text → Bool → Bool
bool env key fallback = lenient fallback (bool_strict env key fallback)

trimmed_parts : List Text → List Text
trimmed_parts [] = []
trimmed_parts (part ∷ parts) =
    let rest = trimmed_parts parts in
    if is_empty (trim_space part) then rest else trim_space part ∷ rest

-- `parseCSV`.
unfoldable pub parse_csv : Text → List Text
unfolding trimmed_parts
parse_csv raw = trimmed_parts (split raw b',')

-- `CSV`, `CSVStrict` and `CSVAllowEmpty`.
unfoldable pub csv : Env → Text → Text → List Text
csv env key fallback = parse_csv (string env key fallback)

abbrev csv_reading : Text → List Text → List Text → Reading (List Text)
csv_reading key [] fallback = rejected fallback (no_values key)
csv_reading key (value ∷ values) fallback = read (value ∷ values)

unfoldable pub csv_strict : Env → Text → Text → Reading (List Text)
csv_strict env key fallback = elim (env key) [
  | none ↦ read (parse_csv fallback)
  | some raw ↦ csv_reading key (parse_csv raw) (parse_csv fallback)
]

unfoldable pub csv_allow_empty : Env → Text → Text → List Text
csv_allow_empty env key fallback = parse_csv (or_else fallback (env key))
