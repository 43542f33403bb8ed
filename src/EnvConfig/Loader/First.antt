-- ===== src/EnvConfig/Loader/First.antt =====
-- The error that a strict loader is left with.
use stellarmesh_sdk.Base.{
  ◌≡◌, refl, ap, List, [], ◌∷◌, ◌++◌, Option, none, some, Bool, ℤ, All, Option-cases, inl, inr,
}
use stellarmesh_sdk.Text.{Text}
use stellarmesh_sdk.EnvConfig.{
  set_value, lower_value, parsed_duration, parsed_bool, not_a_duration, not_an_integer,
  not_a_byte_size, not_a_boolean, Env, EnvError, duration_strict, duration, int_strict, int,
  bool_strict, bool, csv_strict, lenient, strict,
}
use stellarmesh_sdk.Text.ParseInt.{parse_int}
use stellarmesh_sdk.EnvConfig.Size.{parsed_byte_size, byte_size_strict, byte_size}
use stellarmesh_sdk.EnvConfig.Loader.{
  StrictLoader, new_strict_loader, record_error, loader_duration, loader_int, loader_byte_size,
  loader_bool, loader_csv,
}

-- A call of a method of the loader.
pub data Setting : Type 0 where
  duration_setting : (key : Text) (fallback : ℤ) → Setting
  int_setting : (key : Text) (fallback : ℤ) → Setting
  byte_size_setting : (key : Text) (fallback : ℤ) → Setting
  bool_setting : (key : Text) (fallback : Bool) → Setting
  csv_setting : (key fallback : Text) → Setting

strict-lenient {ℓ} :
    {A : Type ℓ} (value : Option Text) (fallback : A) (parse : Text → Option A) (e : EnvError)
    → (strict value fallback parse e).value ≡ lenient fallback (strict value fallback parse e)
strict-lenient none fallback parse e = refl
strict-lenient (some value) fallback parse e = elim (Option-cases (parse value)) [
  | inl failed ↦ rw (failed, strict) refl
  | inr parsed ↦ rw (parsed.1, strict) refl
]

module _ (parse_duration : Text → Option ℤ) (env : Env) where
  -- The loader after one call, and after several.
  unfoldable pub load : StrictLoader → Setting → StrictLoader
  load l (duration_setting key fallback) = (loader_duration parse_duration env l key fallback).1
  load l (int_setting key fallback) = (loader_int parse_duration env l key fallback).1
  load l (byte_size_setting key fallback) = (loader_byte_size parse_duration env l key fallback).1
  load l (bool_setting key fallback) = (loader_bool parse_duration env l key fallback).1
  load l (csv_setting key fallback) = (loader_csv parse_duration env l key fallback).1

  unfoldable pub load_all : StrictLoader → List Setting → StrictLoader
  load_all l [] = l
  load_all l (s ∷ ss) = load_all (load l s) ss

  -- The error of a strict function.
  abbrev pub setting_error : Setting → Option EnvError
  setting_error (duration_setting key fallback) =
      (duration_strict parse_duration env key fallback).error
  setting_error (int_setting key fallback) = (int_strict env key fallback).error
  setting_error (byte_size_setting key fallback) = (byte_size_strict env key fallback).error
  setting_error (bool_setting key fallback) = (bool_strict env key fallback).error
  setting_error (csv_setting key fallback) = (csv_strict env key fallback).error

  abbrev IsValid : Setting → Type 0
  IsValid s = setting_error s ≡ none

  -- No setting is in error; or the error is that of a setting, and those before it are not.
  abbrev pub IsFirstError : List Setting → Option EnvError → Type 0
  IsFirstError ss none = All IsValid ss
  IsFirstError ss (some e) =
      (before : List Setting) × (s : Setting) × (after : List Setting) × (ss ≡ before ++ s ∷ after)
      × All IsValid before
      × (setting_error s ≡ some e)

  load-record_error : (l : StrictLoader) (s : Setting) → load l s ≡ record_error l (setting_error s)
  unfolding load loader_duration loader_int loader_byte_size loader_bool loader_csv
  load-record_error l (duration_setting key fallback) = refl
  load-record_error l (int_setting key fallback) = refl
  load-record_error l (byte_size_setting key fallback) = refl
  load-record_error l (bool_setting key fallback) = refl
  load-record_error l (csv_setting key fallback) = refl

  -- A loader with an error keeps it.
  load_all-kept :
      (e : EnvError) (ss : List Setting) → (load_all (record { err = some e }) ss).err ≡ some e
  unfolding load_all record_error
  load_all-kept e [] = refl
  load_all-kept e (s ∷ ss) = elim (Option-cases (setting_error s)) [
    | inl valid ↦
        rw (load-record_error (record { err = some e }) s, valid, load_all) (load_all-kept e ss)
    | inr failed ↦
        rw (load-record_error (record { err = some e }) s, failed.1, load_all) (load_all-kept e ss)
  ]

  later :
      (s : Setting) (ss : List Setting) (o : Option EnvError)
      → IsValid s
      → IsFirstError ss o
      → IsFirstError (s ∷ ss) o
  later s ss none valid h = (valid, h)
  later s ss (some e) valid (before, t, after, split, all_set, error) =
      (s ∷ before, t, after, ap (λ ts. s ∷ ts) split, (valid, all_set), error)

  -- A new strict loader that has read a list of settings has no error only if every setting is
  -- valid, and else the error of a setting before which every one is valid.
  pub load_all-IsFirstError :
      (ss : List Setting) → IsFirstError ss (load_all new_strict_loader ss).err
  unfolding load_all record_error
  load_all-IsFirstError [] = tt
  load_all-IsFirstError (s ∷ ss) = elim (Option-cases (setting_error s)) [
    | inl valid ↦
        rw (load-record_error new_strict_loader s, valid, load_all)
          (later s ss _ valid (load_all-IsFirstError ss))
    | inr failed ↦
        rw (load-record_error new_strict_loader s, failed.1, load_all, load_all-kept failed.0 ss)
          ([], s, ss, refl, tt, failed.1)
  ]

  -- The value that a loader gives is that of the function which is not strict.
  loader-lenient :
      (l : StrictLoader) (key : Text) (z : ℤ) (b : Bool)
      → ((loader_duration parse_duration env l key z).0 ≡ duration parse_duration env key z)
        × ((loader_int parse_duration env l key z).0 ≡ int env key z)
        × ((loader_byte_size parse_duration env l key z).0 ≡ byte_size env key z)
        × ((loader_bool parse_duration env l key b).0 ≡ bool env key b)
  unfolding loader_duration duration duration_strict loader_int int int_strict loader_byte_size
      byte_size byte_size_strict loader_bool bool bool_strict
  loader-lenient l key z b = (
    strict-lenient (set_value env key) z (parsed_duration parse_duration) (not_a_duration key),
    strict-lenient (set_value env key) z parse_int (not_an_integer key),
    strict-lenient (set_value env key) z parsed_byte_size (not_a_byte_size key),
    strict-lenient (lower_value env key) b parsed_bool (not_a_boolean key),
  )
