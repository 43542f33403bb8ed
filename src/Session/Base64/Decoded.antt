-- ===== src/Session/Base64/Decoded.antt =====
-- The encoded bytes of a session ID, decoded again.
use mathlib.Core.Option
use stellarmesh_sdk.Base.{
  ℕ, ◌+◌, ◌*◌, ◌/◌, ◌%◌, ◌<◌, ◌≡◌, refl, ◌∙◌, true, List, [], ◌∷◌, Option, none, some, length, All,
  arith,
}
use stellarmesh_sdk.Text.{Text}
use stellarmesh_sdk.Text.Laws.{eq→==}
use stellarmesh_sdk.Session.Base64.{
  digit, digit_value, encode, values_of, from_values, decode, valid_session_id,
}

abbrev pub AreBytes : Text → Type 0
AreBytes s = All (λ b. b < 256) s

digit_value-digit : (n : ℕ) → n < 64 → digit_value (digit n) ≡ some n
unfolding digit digit_value
digit_value-digit n h = ground arith

values_of-digit :
    (n : ℕ) (s : Text) → n < 64 → values_of (digit n ∷ s) ≡ Option.map (λ vs. n ∷ vs) (values_of s)
unfolding values_of digit
values_of-digit n s h = rw (digit_value-digit n h) ground arith

length-encode : (s : Text) → length (encode s) ≡ (length s * 4 + 2) / 3
unfolding encode
length-encode [] = omega arith
length-encode (a ∷ []) = omega arith
length-encode (a ∷ b ∷ []) = omega arith
length-encode (a ∷ b ∷ c ∷ s) = omega (arith, length-encode s)

abbrev then_values : Option (List ℕ) → Option Text
then_values none = none
then_values (some vs) = from_values vs

abbrev cons_bytes : ℕ → ℕ → ℕ → Option Text → Option Text
cons_bytes a b c o = Option.map (λ t. a ∷ b ∷ c ∷ t) o

from_values-four :
    (w x y z a b c : ℕ) (o : Option (List ℕ))
    → w * 4 + x / 16 ≡ a
    → x % 16 * 16 + y / 4 ≡ b
    → y % 4 * 64 + z ≡ c
    → then_values (
        Option.map
          (λ vs. w ∷ vs)
          (Option.map (λ vs. x ∷ vs) (Option.map (λ vs. y ∷ vs) (Option.map (λ vs. z ∷ vs) o))))
      ≡ cons_bytes a b c (then_values o)
unfolding from_values
from_values-four w x y z a b c none ea eb ec = refl
from_values-four w x y z a b c (some vs) ea eb ec = rw (ea, eb, ec) refl

values_of-nil : values_of [] ≡ some []
unfolding values_of
values_of-nil = refl

from_values-nil : from_values [] ≡ some []
unfolding from_values
from_values-nil = refl

from_values-two : (w x a : ℕ) → w * 4 + x / 16 ≡ a → from_values (w ∷ x ∷ []) ≡ some (a ∷ [])
unfolding from_values
from_values-two w x a e = rw (e) refl

from_values-three :
    (w x y a b : ℕ)
    → w * 4 + x / 16 ≡ a
    → x % 16 * 16 + y / 4 ≡ b
    → from_values (w ∷ x ∷ y ∷ []) ≡ some (a ∷ b ∷ [])
unfolding from_values
from_values-three w x y a b e f = rw (e, f) refl

decode-encode : (s : Text) → AreBytes s → then_values (values_of (encode s)) ≡ some s
unfolding encode
decode-encode [] h = rw (values_of-nil) from_values-nil
decode-encode (a ∷ []) h =
    let ha = h.0 in
    rw
      (
        values_of-digit (a / 4) (digit (a % 4 * 16) ∷ []) (omega arith),
        values_of-digit (a % 4 * 16) [] (omega arith),
        values_of-nil,
      )
      (from_values-two (a / 4) (a % 4 * 16) a (omega arith))
decode-encode (a ∷ b ∷ []) h =
    let (ha, (hb, hs)) = h in
    rw
      (
        values_of-digit (a / 4) (digit (a % 4 * 16 + b / 16) ∷ digit (b % 16 * 4) ∷ [])
            (omega arith),
        values_of-digit (a % 4 * 16 + b / 16) (digit (b % 16 * 4) ∷ []) (omega arith),
        values_of-digit (b % 16 * 4) [] (omega arith),
        values_of-nil,
      )
      (from_values-three (a / 4) (a % 4 * 16 + b / 16) (b % 16 * 4) a b (omega arith) (omega arith))
decode-encode (a ∷ b ∷ c ∷ s) h =
    let (ha, (hb, (hc, hs))) = h in
    rw
      (
        values_of-digit (a / 4)
            (digit (a % 4 * 16 + b / 16) ∷ digit (b % 16 * 4 + c / 64) ∷ digit (c % 64) ∷ encode s)
            (omega arith),
        values_of-digit (a % 4 * 16 + b / 16)
            (digit (b % 16 * 4 + c / 64) ∷ digit (c % 64) ∷ encode s) (omega arith),
        values_of-digit (b % 16 * 4 + c / 64) (digit (c % 64) ∷ encode s) (omega arith),
        values_of-digit (c % 64) (encode s) (omega arith),
        from_values-four (a / 4) (a % 4 * 16 + b / 16) (b % 16 * 4 + c / 64) (c % 64) a b c
            (values_of (encode s)) (omega arith) (omega arith) (omega arith),
        decode-encode s hs,
      )
      refl

decode-then_values : (s : Text) → decode s ≡ then_values (values_of s)
unfolding decode
decode-then_values s = refl

-- The encoding of any 32 bytes is a session ID that the check of IDs accepts.
pub encode-valid_session_id :
    (bytes : Text) → AreBytes bytes → length bytes ≡ 32 → valid_session_id (encode bytes) ≡ true
unfolding valid_session_id
encode-valid_session_id bytes h long =
    let size : length (encode bytes) ≡ 43 = omega (arith, length-encode bytes, long) in
    let decoded : decode (encode bytes) ≡ some bytes =
      decode-then_values (encode bytes) ∙ decode-encode bytes h in
    let same = eq→== (encode bytes) (encode bytes) refl in rw (size, decoded, long, same) refl
