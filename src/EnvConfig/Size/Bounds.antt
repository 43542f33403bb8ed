-- ===== src/EnvConfig/Size/Bounds.antt =====
-- The sizes that `ByteSizeStrict` of sdk/go/envconfig/env.go gives: in 64 bits, and what is written.
use mathlib.Core.List.{append-nil, reverse-append, reverse-reverse}
use stellarmesh_sdk.Base.{
  ℕ, zero, suc, ◌*◌, ◌^◌, ◌<◌, ◌≡◌, ◌≢◌, refl, sym, ap, ◌∙◌, subst, true, false, [], ◌∷◌, ◌++◌,
  reverse, none, some, ltb, if◌then◌else◌, ℤ, pos, arith, Bool-cases, inl, inr,
}
use stellarmesh_sdk.Text.{Text, ascii, trim_space, upper_byte, has_suffix, has_prefix, decimal}
use stellarmesh_sdk.Text.Trim.{IsSolid, trim_space-IsSolid}
use stellarmesh_sdk.Text.ParseInt.{to_positive, is_digit}
use stellarmesh_sdk.Text.ParseInt.Decimal.{
  AreDigits, reverse-decimal, parse_int-to_positive, decimal-digits, decimal-IsSolid,
}
use stellarmesh_sdk.EnvConfig.{
  set_value-IsSolid, Env, read, rejected, strict, positive, not_a_byte_size,
}
use stellarmesh_sdk.EnvConfig.Size.{
  upper_text, multipliers, drop, trim_suffix, size_parts, size_of, parsed_byte_size,
  byte_size_strict,
}

-- The units of the documentation, as they are written there.
pub data SizeUnit : Type 0 where
  plain b kb mb gb kib mib gib : SizeUnit

abbrev pub unit_text : SizeUnit → Text
unit_text plain = []
unit_text b = ascii "B"
unit_text kb = ascii "KB"
unit_text mb = ascii "MB"
unit_text gb = ascii "GB"
unit_text kib = ascii "KiB"
unit_text mib = ascii "MiB"
unit_text gib = ascii "GiB"

abbrev pub unit_bytes : SizeUnit → ℕ
unit_bytes plain = 1
unit_bytes b = 1
unit_bytes kb = 1000
unit_bytes mb = 1000 ^ 2
unit_bytes gb = 1000 ^ 3
unit_bytes kib = 1024
unit_bytes mib = 1024 ^ 2
unit_bytes gib = 1024 ^ 3

upper_text-digit : (c : ℕ) (t : Text) → is_digit c ≡ true → upper_text (c ∷ t) ≡ c ∷ upper_text t
unfolding upper_text upper_byte
upper_text-digit c [] h = ground arith
upper_text-digit c (d ∷ t) h = ground arith

upper_text-append : (s t : Text) → AreDigits s → upper_text (s ++ t) ≡ s ++ upper_text t
upper_text-append [] t h = refl
upper_text-append (c ∷ s) t h =
    upper_text-digit c (s ++ t) h.0 ∙ ap (λ u. c ∷ u) (upper_text-append s t h.1)

module _ (number : Text) (d : ℕ) (ds : Text) where
  read_back :
      reverse number ≡ d ∷ ds → trim_space number ≡ number → trim_space (reverse (d ∷ ds)) ≡ number
  read_back e k = ap trim_space (ap reverse (sym e) ∙ reverse-reverse number) ∙ k

  reversed_with : (s : Text) → reverse number ≡ d ∷ ds → reverse (number ++ s) ≡ reverse s ++ d ∷ ds
  reversed_with s e = reverse-append number s ∙ ap (λ t. reverse s ++ t) e

  size_parts-unit :
      (u : SizeUnit)
      → reverse number ≡ d ∷ ds
      → is_digit d ≡ true
      → trim_space number ≡ number
      → size_parts multipliers (number ++ upper_text (unit_text u)) ≡ (number, unit_bytes u)
  unfolding size_parts upper_text upper_byte has_suffix has_prefix trim_suffix drop
  size_parts-unit plain e h k =
      rw (reverse-append number [] ∙ e, size_parts, has_suffix) ground (arith, append-nil number)
  size_parts-unit b e h k =
      rw (reversed_with (ascii "B") e, size_parts, has_suffix) ground (arith, read_back e k)
  size_parts-unit kb e h k =
      rw (reversed_with (ascii "KB") e, size_parts, has_suffix) ground (arith, read_back e k)
  size_parts-unit mb e h k =
      rw (reversed_with (ascii "MB") e, size_parts, has_suffix) ground (arith, read_back e k)
  size_parts-unit gb e h k =
      rw (reversed_with (ascii "GB") e, size_parts, has_suffix) ground (arith, read_back e k)
  size_parts-unit kib e h k =
      rw (reversed_with (ascii "KIB") e, size_parts, has_suffix) ground (arith, read_back e k)
  size_parts-unit mib e h k =
      rw (reversed_with (ascii "MIB") e, size_parts, has_suffix) ground (arith, read_back e k)
  size_parts-unit gib e h k =
      rw (reversed_with (ascii "GIB") e, size_parts, has_suffix) ground (arith, read_back e k)

All-++ : (s t : Text) → IsSolid s → IsSolid t → IsSolid (s ++ t)
All-++ [] t h k = k
All-++ (c ∷ s) t h k = (h.0, All-++ s t h.1 k)

unit-IsSolid : (u : SizeUnit) → IsSolid (unit_text u)
unit-IsSolid plain = tt
unit-IsSolid b = ((omega arith, omega arith), tt)
unit-IsSolid kb = ((omega arith, omega arith), ((omega arith, omega arith), tt))
unit-IsSolid mb = ((omega arith, omega arith), ((omega arith, omega arith), tt))
unit-IsSolid gb = ((omega arith, omega arith), ((omega arith, omega arith), tt))
unit-IsSolid kib =
    ((omega arith, omega arith), ((omega arith, omega arith), ((omega arith, omega arith), tt)))
unit-IsSolid mib =
    ((omega arith, omega arith), ((omega arith, omega arith), ((omega arith, omega arith), tt)))
unit-IsSolid gib =
    ((omega arith, omega arith), ((omega arith, omega arith), ((omega arith, omega arith), tt)))

size_parts-decimal :
    (n : ℕ) (u : SizeUnit)
    → n < 10 ^ 20
    → size_parts multipliers (upper_text (decimal n ++ unit_text u)) ≡ (decimal n, unit_bytes u)
size_parts-decimal n u h =
    let (d, ds, back, digit) = reverse-decimal n in
    let (c, s, text, digits, parsed) = decimal-digits n h in
    ap (size_parts multipliers)
      (upper_text-append (decimal n) (unit_text u) (subst AreDigits (sym text) digits))
    ∙ size_parts-unit (decimal n) d ds u back digit
        (trim_space-IsSolid (decimal n) (decimal-IsSolid n h))

-- What is positive fits in 64 bits of bytes, or it is refused.
size_of-unit :
    (n : ℕ) (u : SizeUnit)
    → size_of (some n) (unit_bytes u)
      ≡ (if ltb (n * unit_bytes u) (2 ^ 63) then some (pos (n * unit_bytes u)) else none)
unfolding size_of
size_of-unit n plain = ground arith
size_of-unit n b = ground arith
size_of-unit n kb = ground arith
size_of-unit n mb = ground arith
size_of-unit n gb = ground arith
size_of-unit n kib = ground arith
size_of-unit n mib = ground arith
size_of-unit n gib = ground arith

too_large :
    (n : ℕ) (u : SizeUnit) → ltb n (2 ^ 63) ≡ false → ltb (n * unit_bytes u) (2 ^ 63) ≡ false
too_large n plain h = ground arith
too_large n b h = ground arith
too_large n kb h = ground arith
too_large n mb h = ground arith
too_large n gb h = ground arith
too_large n kib h = ground arith
too_large n mib h = ground arith
too_large n gib h = ground arith

positive_size :
    (n : ℕ) (u : SizeUnit)
    → 0 < n
    → size_of (positive (to_positive (some n))) (unit_bytes u)
      ≡ (if ltb (n * unit_bytes u) (2 ^ 63) then some (pos (n * unit_bytes u)) else none)
unfolding size_of
positive_size zero u h = absurd (omega (arith, h))
positive_size (suc n) u h = elim (Bool-cases (ltb (suc n) (2 ^ 63))) [
  | inl fits ↦ rw (fits) (size_of-unit (suc n) u)
  | inr large ↦ rw (large, size_of, too_large (suc n) u large) refl
]

parsed_byte_size-unit :
    (n : ℕ) (u : SizeUnit)
    → 0 < n
    → n < 10 ^ 20
    → parsed_byte_size (decimal n ++ unit_text u)
      ≡ (if ltb (n * unit_bytes u) (2 ^ 63) then some (pos (n * unit_bytes u)) else none)
unfolding parsed_byte_size
parsed_byte_size-unit n u h small =
    rw (size_parts-decimal n u small, parse_int-to_positive n small) (positive_size n u h)

decimal-filled : (n : ℕ) (t : Text) → n < 10 ^ 20 → decimal n ++ t ≢ []
decimal-filled n t small e =
    let (c, s, text, digits, parsed) = decimal-digits n small in
    let filled : c ∷ s ++ t ≡ [] = subst (λ x. x ++ t ≡ []) text e in cc

-- A positive number below 10 to the 20, written in decimal and followed by one of the units B, KB,
-- MB, GB, KiB, MiB and GiB or by none, is read as the number times the unit's bytes if that is
-- below 2 to the 63, and else it is an error that comes with the fallback.
pub byte_size_strict-unit :
    (env : Env) (key : Text) (fallback : ℤ) (n : ℕ) (u : SizeUnit)
    → env key ≡ some (decimal n ++ unit_text u)
    → 0 < n
    → n < 10 ^ 20
    → byte_size_strict env key fallback ≡ (
        if ltb (n * unit_bytes u) (2 ^ 63)
        then read (pos (n * unit_bytes u))
        else rejected fallback (not_a_byte_size key))
unfolding byte_size_strict
byte_size_strict-unit env key fallback n u set h small =
    let solid = All-++ (decimal n) (unit_text u) (decimal-IsSolid n small) (unit-IsSolid u) in
    let value =
      set_value-IsSolid env key (decimal n ++ unit_text u) set solid
        (decimal-filled n (unit_text u) small) in
    rw (value, strict, parsed_byte_size-unit n u h small) ground arith
