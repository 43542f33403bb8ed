-- ===== src/Text/ParseInt.antt =====
-- `strconv.ParseInt` in base 10 for 64 bits, and `strconv.Atoi`: no result where they give an error.
pub mod Decimal
use stellarmesh_sdk.Base.{
  ◌≡◌, refl, ℕ, zero, suc, ◌+◌, ◌-◌, ◌*◌, ◌^◌, Bool, true, false, ◌&&◌, List, [], ◌∷◌, Option, none,
  some, ltb, leb, eqb, if◌then◌else◌, ℤ, pos, negsuc,
}
use stellarmesh_sdk.Text.{Text, ascii, decimal}

abbrev pub is_digit : ℕ → Bool
is_digit c = leb b'0' c && leb c b'9'

-- The digits of a number, after those of `acc`.
unfoldable pub parse_digits : ℕ → Text → Option ℕ
parse_digits acc [] = some acc
parse_digits acc (c ∷ s) =
    let rest = parse_digits (acc * 10 + (c - b'0')) s in if is_digit c then rest else none

unfoldable pub parse_natural : Text → Option ℕ
parse_natural [] = none
parse_natural (c ∷ s) = parse_digits 0 (c ∷ s)

abbrev pub to_positive : Option ℕ → Option ℤ
to_positive none = none
to_positive (some n) = if ltb n (2 ^ 63) then some (pos n) else none

-- Minus the number; minus zero is zero.
abbrev pub negated : ℕ → ℤ
negated zero = pos 0
negated (suc n) = negsuc n

abbrev pub to_negative : Option ℕ → Option ℤ
to_negative none = none
to_negative (some n) = if leb n (2 ^ 63) then some (negated n) else none

unfoldable pub parse_int : Text → Option ℤ
parse_int [] = none
parse_int (c ∷ s) =
    if eqb c b'-'
    then to_negative (parse_natural s)
    else if eqb c b'+'
    then to_positive (parse_natural s)
    else to_positive (parse_natural (c ∷ s))

-- `strconv.FormatInt` in base 10.
unfoldable pub signed_decimal : ℤ → Text
signed_decimal (pos n) = decimal n
signed_decimal (negsuc n) = b'-' ∷ decimal (n + 1)

parses : parse_int (b'-' ∷ b'4' ∷ b'2' ∷ []) ≡ some (negsuc 41)
unfolding parse_int parse_natural parse_digits
parses = refl

-- 2 ^ 63, which only its negation reaches.
overflows : parse_int (ascii "9223372036854775808") ≡ none
unfolding parse_int parse_natural parse_digits
overflows = refl

least : parse_int (ascii "-9223372036854775808") ≡ some (negsuc 9223372036854775807)
unfolding parse_int parse_natural parse_digits
least = refl
