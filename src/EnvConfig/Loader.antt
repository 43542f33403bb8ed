-- ===== src/EnvConfig/Loader.antt =====
-- `StrictLoader` of sdk/go/envconfig/env.go: the first error of the settings that were read.
pub mod First
use stellarmesh_sdk.Base.{List, [], ◌∷◌, Option, none, some, Bool, ℤ}
use stellarmesh_sdk.Text.{Text}
use stellarmesh_sdk.EnvConfig.{
  Env, EnvError, Reading, duration_strict, duration, int_strict, int, bool_strict, bool, csv_strict,
}
use stellarmesh_sdk.EnvConfig.Size.{byte_size_strict, byte_size}

-- `StrictLoader`, of which `Err` gives the field.
pub record StrictLoader : Type 0 where
  pub err : Option EnvError

-- `NewStrictLoader`.
abbrev pub new_strict_loader : StrictLoader
new_strict_loader = record { err = none }

-- `record`.
record_error : StrictLoader → Option EnvError → StrictLoader
record_error loader none = loader
record_error loader (some e) = elim loader.err [
  | none ↦ record { err = some e }
  | some first ↦ loader
]

-- A method of the loader, around the strict function: the value, and the loader after it.
abbrev noted {ℓ} : {A : Type ℓ} → StrictLoader → Reading A → A × StrictLoader
noted loader r = (r.value, record_error loader r.error)

module _ (parse_duration : Text → Option ℤ) (env : Env) where
  unfoldable pub loader_duration : StrictLoader → Text → ℤ → ℤ × StrictLoader
  unfolding record_error
  loader_duration loader key fallback =
      noted loader (duration_strict parse_duration env key fallback)

  unfoldable pub loader_int : StrictLoader → Text → ℤ → ℤ × StrictLoader
  unfolding record_error
  loader_int loader key fallback = noted loader (int_strict env key fallback)

  unfoldable pub loader_byte_size : StrictLoader → Text → ℤ → ℤ × StrictLoader
  unfolding record_error
  loader_byte_size loader key fallback = noted loader (byte_size_strict env key fallback)

  unfoldable pub loader_bool : StrictLoader → Text → Bool → Bool × StrictLoader
  unfolding record_error
  loader_bool loader key fallback = noted loader (bool_strict env key fallback)

  unfoldable pub loader_csv : StrictLoader → Text → Text → List Text × StrictLoader
  unfolding record_error
  loader_csv loader key fallback = noted loader (csv_strict env key fallback)
