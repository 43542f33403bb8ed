-- ===== src/EnvConfig/Size.antt =====
-- Byte sizes in sdk/go/envconfig/env.go.
pub mod Bounds
use stellarmesh_sdk.Base.{
  ℕ, zero, suc, ◌*◌, ◌/◌, ◌^◌, Bool, true, false, ◌&&◌, List, [], ◌∷◌, reverse, Option, none, some,
  leb, eqb, if◌then◌else◌, length, ℤ, pos,
}
use stellarmesh_sdk.Text.{Text, ascii, trim_space, upper_byte, has_suffix}
use stellarmesh_sdk.Text.ParseInt.{parse_int}
use stellarmesh_sdk.EnvConfig.{
  Env, Reading, strict, lenient, set_value, positive, max_int64, not_a_byte_size,
}

-- `strings.ToUpper`, but for runes whose upper case is not ASCII either: neither they nor their upper
-- case are in a number or in a suffix. The dotless i and the long s have ASCII letters.
upper_text : Text → Text
upper_text [] = []
upper_text (c ∷ []) = upper_byte c ∷ []
upper_text (c ∷ d ∷ s) = elim (eqb c 0xc4 && eqb d 0xb1) [
  | true ↦ b'I' ∷ upper_text s
  | false ↦ elim (eqb c 0xc5 && eqb d 0xbf) [
    | true ↦ b'S' ∷ upper_text s
    | false ↦ upper_byte c ∷ upper_text (d ∷ s)
  ]
]

abbrev multipliers : List (Text × ℕ)
multipliers =
    (ascii "GIB", 2 ^ 30)
    ∷ (ascii "MIB", 2 ^ 20)
    ∷ (ascii "KIB", 2 ^ 10)
    ∷ (ascii "GB", 1_000_000_000)
    ∷ (ascii "MB", 1_000_000)
    ∷ (ascii "KB", 1_000)
    ∷ (ascii "B", 1)
    ∷ []

-- `strings.TrimSuffix` of a suffix that is there, of this length.
drop : ℕ → Text → Text
drop n [] = []
drop zero (c ∷ s) = c ∷ s
drop (suc n) (c ∷ s) = drop n s

trim_suffix : Text → Text → Text
unfolding drop
trim_suffix s suffix = reverse (drop (length suffix) (reverse s))

-- The loop over the suffixes: the text of the number, and the multiplier.
size_parts : List (Text × ℕ) → Text → Text × ℕ
unfolding trim_suffix
size_parts [] upper = (upper, 1)
size_parts ((suffix, multiplier) ∷ ms) upper =
    if has_suffix upper suffix
    then (trim_space (trim_suffix upper suffix), multiplier)
    else size_parts ms upper

size_of : Option ℕ → ℕ → Option ℤ
size_of none multiplier = none
size_of (some n) multiplier =
    if leb n (max_int64 / multiplier) then some (pos (n * multiplier)) else none

pub parsed_byte_size : Text → Option ℤ
unfolding size_of size_parts upper_text
parsed_byte_size value =
    let (number, multiplier) = size_parts multipliers (upper_text value) in
    size_of (positive (parse_int number)) multiplier

-- `ByteSizeStrict` and `ByteSize`.
unfoldable pub byte_size_strict : Env → Text → ℤ → Reading ℤ
unfolding parsed_byte_size
byte_size_strict env key fallback =
    strict (set_value env key) fallback parsed_byte_size (not_a_byte_size key)

unfoldable pub byte_size : Env → Text → ℤ → ℤ
byte_size env key fallback = lenient fallback (byte_size_strict env key fallback)
