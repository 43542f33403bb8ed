-- ===== src/Text/ParseInt/Decimal.antt =====
-- `strconv.ParseInt` of what `strconv.FormatInt` writes.
use stellarmesh_sdk.Base.{
  ℕ, zero, suc, ◌+◌, ◌-◌, ◌*◌, ◌/◌, ◌%◌, ◌^◌, ◌<◌, ◌≡◌, ◌≢◌, refl, sym, ap, subst, ◌∙◌, true, [],
  ◌∷◌, ◌++◌, reverse, Option, none, some, eqb, ℤ, pos, negsuc, All, All-map, arith, Bool-cases, inl,
  inr,
}
use mathlib.Core.List.{reverse-cons, reverse-reverse}
use stellarmesh_sdk.Text.{Text, digits_from, decimal}
use stellarmesh_sdk.Text.ParseInt.{
  is_digit, parse_digits, parse_natural, to_positive, parse_int, signed_decimal,
}
use stellarmesh_sdk.Text.Trim.{IsSolid}

-- The number of digits that stand with the last one first.
abbrev value_of : Text → ℕ
value_of [] = 0
value_of (d ∷ ds) = (d - b'0') + 10 * value_of ds

abbrev pub AreDigits : Text → Type 0
AreDigits ds = All (λ d. is_digit d ≡ true) ds

abbrev then_digits : Option ℕ → Text → Option ℕ
then_digits none s = none
then_digits (some n) s = parse_digits n s

parse_digits-append :
    (n : ℕ) (s t : Text) → parse_digits n (s ++ t) ≡ then_digits (parse_digits n s) t
unfolding parse_digits
parse_digits-append n [] t = refl
parse_digits-append n (c ∷ s) t = elim (Bool-cases (is_digit c)) [
  | inl e ↦ rw (e) (parse_digits-append (n * 10 + (c - b'0')) s t)
  | inr e ↦ rw (e) refl
]

parse_digits-reverse : (ds : Text) → AreDigits ds → parse_digits 0 (reverse ds) ≡ some (value_of ds)
unfolding parse_digits
parse_digits-reverse [] h = refl
parse_digits-reverse (d ∷ ds) h =
    let rest = parse_digits-reverse ds h.1 in
    rw (reverse-cons d ds, parse_digits-append 0 (reverse ds) (d ∷ []), rest, h.0)
      (ap some (omega arith))

digit-is_digit : (n : ℕ) → is_digit (n % 10 + b'0') ≡ true
digit-is_digit n = ground arith

digits_from-AreDigits : (fuel n : ℕ) → AreDigits (digits_from fuel n)
unfolding digits_from
digits_from-AreDigits zero n = tt
digits_from-AreDigits (suc fuel) n = elim (Bool-cases (eqb (n / 10) 0)) [
  | inl e ↦ rw (e) (digit-is_digit n, tt)
  | inr e ↦ rw (e) (digit-is_digit n, digits_from-AreDigits fuel (n / 10))
]

below_tenth : (fuel n : ℕ) → n < 10 ^ suc fuel → n / 10 < 10 ^ fuel
below_tenth fuel n h = omega arith

digits_from-value_of : (fuel n : ℕ) → n < 10 ^ fuel → value_of (digits_from fuel n) ≡ n
unfolding digits_from
digits_from-value_of zero n h = omega arith
digits_from-value_of (suc fuel) n h = elim (Bool-cases (eqb (n / 10) 0)) [
  | inl e ↦ rw (e) (ground arith)
  | inr e ↦
      let below : n / 10 < 10 ^ fuel = below_tenth fuel n h in
      let rest : value_of (digits_from fuel (n / 10)) ≡ n / 10 =
        digits_from-value_of fuel (n / 10) below in
      rw (e, rest) (omega arith)
]

All-append {κ} : (P : ℕ → Type κ) (ds es : Text) → All P ds → All P es → All P (ds ++ es)
All-append P [] es h k = k
All-append P (d ∷ ds) es h k = (h.0, All-append P ds es h.1 k)

-- What stands first in the reverse of digits.
reverse-digits :
    (d : ℕ) (ds : Text)
    → AreDigits (d ∷ ds)
    → (c : ℕ) × (s : Text) × (reverse (d ∷ ds) ≡ c ∷ s) × AreDigits (c ∷ s)
reverse-digits d [] h = (d, [], refl, h)
reverse-digits d (e ∷ es) h =
    let (c, s, eqn, digits) = reverse-digits e es h.1 in
    (
      c,
      s ++ d ∷ [],
      reverse-cons d (e ∷ es) ∙ ap (λ t. t ++ d ∷ []) eqn,
      (digits.0, All-append _ s (d ∷ []) digits.1 (h.0, tt)),
    )

digits_from-suc : (fuel n : ℕ) → (ds : Text) × (digits_from (suc fuel) n ≡ (n % 10 + b'0') ∷ ds)
unfolding digits_from
digits_from-suc fuel n = (_, refl)

-- The digits that are written, and what they are read as.
reverse-digits_from :
    (fuel n : ℕ)
    → n < 10 ^ suc fuel
    → (c : ℕ) × (s : Text) × (reverse (digits_from (suc fuel) n) ≡ c ∷ s)
      × AreDigits (c ∷ s)
      × (parse_digits 0 (c ∷ s) ≡ some n)
reverse-digits_from fuel n h =
    let (ds, eqn) = digits_from-suc fuel n in
    let digits = subst AreDigits eqn (digits_from-AreDigits (suc fuel) n) in
    let (c, s, reversed, valid) = reverse-digits (n % 10 + b'0') ds digits in
    let text = ap reverse eqn ∙ reversed in
    (
      c,
      s,
      text,
      valid,
      ap (parse_digits 0) (sym text)
          ∙ parse_digits-reverse (digits_from (suc fuel) n) (digits_from-AreDigits (suc fuel) n)
          ∙ ap some (digits_from-value_of (suc fuel) n h),
    )

-- A number below 2 ^ 64 is written in digits, at least one, which are read as the number.
pub decimal-digits :
    (n : ℕ)
    → n < 10 ^ 20
    → (c : ℕ) × (s : Text) × (decimal n ≡ c ∷ s)
      × AreDigits (c ∷ s)
      × (parse_digits 0 (c ∷ s) ≡ some n)
unfolding decimal
decimal-digits n h = reverse-digits_from 19 n h

pub parse_natural-decimal : (n : ℕ) → n < 10 ^ 20 → parse_natural (decimal n) ≡ some n
unfolding parse_natural
parse_natural-decimal n h =
    let (c, s, eqn, digits, parsed) = decimal-digits n h in ap parse_natural eqn ∙ parsed

pub parse_int-to_positive : (n : ℕ) → n < 10 ^ 20 → parse_int (decimal n) ≡ to_positive (some n)
unfolding parse_int parse_natural
parse_int-to_positive n h =
    let (c, s, eqn, digits, parsed) = decimal-digits n h in
    ap parse_int eqn ∙ ground (arith, digits.0, parsed)

pub parse_int-decimal : (n : ℕ) → n < 2 ^ 63 → parse_int (decimal n) ≡ some (pos n)
parse_int-decimal n h = parse_int-to_positive n (omega arith) ∙ ground arith

-- The values of 64 bits.
abbrev pub IsInt64 : ℤ → Type 0
IsInt64 (pos n) = n < 2 ^ 63
IsInt64 (negsuc n) = n < 2 ^ 63

pub parse_int-signed_decimal : (z : ℤ) → IsInt64 z → parse_int (signed_decimal z) ≡ some z
unfolding parse_int signed_decimal
parse_int-signed_decimal (pos n) h = parse_int-decimal n h
parse_int-signed_decimal (negsuc n) h = ground (arith, parse_natural-decimal (n + 1) (omega arith))

digits-IsSolid : (s : Text) → AreDigits s → IsSolid s
digits-IsSolid s h = All-map (λ c e. ground arith) s h

pub decimal-IsSolid : (n : ℕ) → n < 10 ^ 20 → IsSolid (decimal n)
decimal-IsSolid n h =
    let (c, s, eqn, digits, parsed) = decimal-digits n h in
    subst IsSolid (sym eqn) (digits-IsSolid (c ∷ s) digits)

pub signed_decimal-IsSolid : (z : ℤ) → IsInt64 z → IsSolid (signed_decimal z)
unfolding signed_decimal
signed_decimal-IsSolid (pos n) h = decimal-IsSolid n (omega arith)
signed_decimal-IsSolid (negsuc n) h =
    ((omega arith, omega arith), decimal-IsSolid (n + 1) (omega arith))

pub signed_decimal-is_empty : (z : ℤ) → IsInt64 z → signed_decimal z ≢ []
unfolding signed_decimal
signed_decimal-is_empty (pos n) h e =
    let (c, s, eqn, digits, parsed) = decimal-digits n (omega arith) in cc
signed_decimal-is_empty (negsuc n) h e = cc

-- The last digit that is written.
pub reverse-decimal :
    (n : ℕ) → (d : ℕ) × (ds : Text) × (reverse (decimal n) ≡ d ∷ ds) × (is_digit d ≡ true)
unfolding decimal
reverse-decimal n =
    let (ds, e) = digits_from-suc 19 n in
    (n % 10 + b'0', ds, reverse-reverse (digits_from 20 n) ∙ e, ground arith)
