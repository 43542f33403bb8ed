-- ===== src/EnvConfig/Csv.antt =====
-- `parseCSV` of sdk/go/envconfig/env.go, of values that commas join.
use stellarmesh_sdk.Base.{◌≡◌, refl, ap, ◌∙◌, false, List, [], ◌∷◌, some, All}
use stellarmesh_sdk.Text.{Text, trim_space, contains_byte, split, join}
use stellarmesh_sdk.Text.Split.{split-one, split-first}
use stellarmesh_sdk.Gateway.Route.{is_empty}
use stellarmesh_sdk.EnvConfig.{Env, read, rejected, no_values, trimmed_parts, parse_csv, csv_strict}

-- A value of a list: not empty, without a comma and without spaces around it.
pub record IsValue (s : Text) : Type 0 where
  pub is_trimmed : trim_space s ≡ s
  pub is_filled : is_empty s ≡ false
  pub has_no_comma : contains_byte s b',' ≡ false

split-join :
    (s : Text) (ss : List Text) → All IsValue (s ∷ ss) → split (join (s ∷ ss) b',') b',' ≡ s ∷ ss
unfolding join
split-join s [] h = split-one s b',' h.0.has_no_comma
split-join s (t ∷ ts) h =
    split-first s (join (t ∷ ts) b',') b',' h.0.has_no_comma ∙ ap (λ u. s ∷ u) (split-join t ts h.1)

trimmed_parts-values : (ss : List Text) → All IsValue ss → trimmed_parts ss ≡ ss
unfolding trimmed_parts
trimmed_parts-values [] h = refl
trimmed_parts-values (s ∷ ss) h =
    rw (h.0.is_trimmed, h.0.is_filled, trimmed_parts-values ss h.1) refl

parse_csv-join : (ss : List Text) → All IsValue ss → parse_csv (join ss b',') ≡ ss
unfolding parse_csv join split trimmed_parts trim_space
parse_csv-join [] h = refl
parse_csv-join (s ∷ ss) h = ap trimmed_parts (split-join s ss h) ∙ trimmed_parts-values (s ∷ ss) h

-- Values that are not empty, have no spaces around them and no commas, joined by commas, are read
-- back as themselves, and where there are none the fallback comes with an error.
pub csv_strict-join :
    (env : Env) (key fallback : Text) (ss : List Text)
    → env key ≡ some (join ss b',')
    → All IsValue ss
    → csv_strict env key fallback ≡ elim ss [
      | [] ↦ rejected (parse_csv fallback) (no_values key)
      | value ∷ values ↦ read (value ∷ values)
    ]
unfolding csv_strict
csv_strict-join env key fallback [] set h = rw (set, csv_strict, parse_csv-join [] h) refl
csv_strict-join env key fallback (s ∷ ss) set h =
    rw (set, csv_strict, parse_csv-join (s ∷ ss) h) refl
