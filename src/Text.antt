-- ===== src/Text.antt =====
-- Go's `string` and the functions of the packages `strings` and `sort` that the program calls.
-- A text is the list of its bytes.
pub mod Order
pub mod Laws
pub mod Utf8
pub mod ParseInt
pub mod Trim
pub mod Split
use Prim.Native.Char.{code}
use Prim.Native.String
use mathlib.Core.Option
use stellarmesh_sdk.Base.{
  ℕ, zero, suc, ◌+◌, ◌-◌, ◌/◌, ◌%◌, ◌≤◌, ◌≡◌, refl, Bool, true, false, ◌&&◌, ◌||◌, List, [], ◌∷◌,
  ◌++◌, map, reverse, Option, none, some, ℕ_discrete, leb, eqb, if◌then◌else◌, length,
}

abbrev pub Text : Type 0
Text = List ℕ

-- The bytes of an ASCII literal.
abbrev pub ascii : String.String → Text
ascii String.[] = []
ascii (String.◌∷◌ c s) = code c ∷ ascii s

unfoldable pub text_discrete : Discrete Text
unfolding ℕ_discrete
text_discrete [] [] = yes refl
text_discrete [] (d ∷ t) = no (λ e. cc)
text_discrete (c ∷ s) [] = no (λ e. cc)
text_discrete (c ∷ s) (d ∷ t) = elim (ℕ_discrete c d) [
  | no other ↦ no (λ e. other cc)
  | yes same ↦ elim (text_discrete s t) [ no other ↦ no (λ e. other cc) | yes rest ↦ yes cc ]
]

infix 50 ◌==◌
abbrev pub ◌==◌ : Text → Text → Bool
s == t = elim (text_discrete s t) [ yes _ ↦ true | no _ ↦ false ]

-- `strings.HasPrefix`.
unfoldable pub has_prefix : Text → Text → Bool
has_prefix s [] = true
has_prefix [] (d ∷ p) = false
has_prefix (c ∷ s) (d ∷ p) = eqb c d && has_prefix s p

-- `strings.HasSuffix`.
unfoldable pub has_suffix : Text → Text → Bool
has_suffix s p = has_prefix (reverse s) (reverse p)

-- The UTF-8 encodings of the runes of `unicode.IsSpace`.
abbrev spaces : List Text
spaces =
    (0x09 ∷ [])
    ∷ (0x0a ∷ [])
    ∷ (0x0b ∷ [])
    ∷ (0x0c ∷ [])
    ∷ (0x0d ∷ [])
    ∷ (0x20 ∷ [])
    ∷ (0xc2 ∷ 0x85 ∷ [])
    ∷ (0xc2 ∷ 0xa0 ∷ [])
    ∷ (0xe1 ∷ 0x9a ∷ 0x80 ∷ [])
    ∷ (0xe2 ∷ 0x80 ∷ 0x80 ∷ [])
    ∷ (0xe2 ∷ 0x80 ∷ 0x81 ∷ [])
    ∷ (0xe2 ∷ 0x80 ∷ 0x82 ∷ [])
    ∷ (0xe2 ∷ 0x80 ∷ 0x83 ∷ [])
    ∷ (0xe2 ∷ 0x80 ∷ 0x84 ∷ [])
    ∷ (0xe2 ∷ 0x80 ∷ 0x85 ∷ [])
    ∷ (0xe2 ∷ 0x80 ∷ 0x86 ∷ [])
    ∷ (0xe2 ∷ 0x80 ∷ 0x87 ∷ [])
    ∷ (0xe2 ∷ 0x80 ∷ 0x88 ∷ [])
    ∷ (0xe2 ∷ 0x80 ∷ 0x89 ∷ [])
    ∷ (0xe2 ∷ 0x80 ∷ 0x8a ∷ [])
    ∷ (0xe2 ∷ 0x80 ∷ 0xa8 ∷ [])
    ∷ (0xe2 ∷ 0x80 ∷ 0xa9 ∷ [])
    ∷ (0xe2 ∷ 0x80 ∷ 0xaf ∷ [])
    ∷ (0xe2 ∷ 0x81 ∷ 0x9f ∷ [])
    ∷ (0xe3 ∷ 0x80 ∷ 0x80 ∷ [])
    ∷ []

-- The bytes, besides the first, of the space that the text begins with; `none` if it begins with
-- another rune.
space_tail : List Text → Text → Option ℕ
space_tail [] s = none
space_tail ([] ∷ ws) s = space_tail ws s
space_tail ((c ∷ w) ∷ ws) s = if has_prefix s (c ∷ w) then some (length w) else space_tail ws s

-- Drops leading spaces; the number is how many bytes of a space are still to go.
trim_from : List Text → ℕ → Text → Text
unfolding space_tail
trim_from ws pending [] = []
trim_from ws (suc k) (c ∷ s) = trim_from ws k s
trim_from ws zero (c ∷ s) = elim (space_tail ws (c ∷ s)) [
  | none ↦ c ∷ s
  | some k ↦ trim_from ws k s
]

-- `strings.TrimSpace`.
unfoldable pub trim_space : Text → Text
unfolding trim_from
trim_space s = reverse (trim_from (map reverse spaces) 0 (reverse (trim_from spaces 0 s)))

-- The bytes of an ASCII letter in the other case.
abbrev is_lower : ℕ → Bool
is_lower c = leb b'a' c && leb c b'z'

abbrev is_upper : ℕ → Bool
is_upper c = leb b'A' c && leb c b'Z'

unfoldable pub upper_byte : ℕ → ℕ
upper_byte c = if is_lower c then c - 32 else c

unfoldable pub lower_byte : ℕ → ℕ
lower_byte c = if is_upper c then c + 32 else c

-- `strings.ToUpper` and `strings.ToLower` of an ASCII text.
unfoldable pub to_upper : Text → Text
to_upper s = map upper_byte s

unfoldable pub to_lower : Text → Text
to_lower s = map lower_byte s

-- `strings.EqualFold` of a text with an ASCII text.
unfoldable pub equal_fold : Text → Text → Bool
equal_fold s t = to_lower s == to_lower t

-- `strings.Split` at a separator of one byte: what stands before the first one, and the parts
-- after it.
split_at : ℕ → Text → Text × List Text
split_at sep [] = ([], [])
split_at sep (c ∷ s) =
    let (part, parts) = split_at sep s in
    if eqb c sep then ([], part ∷ parts) else (c ∷ part, parts)

unfoldable pub split : Text → ℕ → List Text
unfolding split_at
split s sep = let (part, parts) = split_at sep s in part ∷ parts

-- `strings.Cut` at a separator of one byte.
unfoldable pub cut : Text → ℕ → Option (Text × Text)
cut [] sep = none
cut (c ∷ s) sep = if eqb c sep then some ([], s) else Option.map (λ p. (c ∷ p.0, p.1)) (cut s sep)

-- `strings.Join` with a separator of one byte.
unfoldable pub join : List Text → ℕ → Text
join [] sep = []
join (s ∷ []) sep = s
join (s ∷ t ∷ ts) sep = s ++ sep ∷ join (t ∷ ts) sep

-- `strings.TrimLeft` with a cutset of one byte.
unfoldable pub trim_left : Text → ℕ → Text
trim_left [] b = []
trim_left (c ∷ s) b = if eqb c b then trim_left s b else c ∷ s

-- `strings.TrimRight` with a cutset of one byte.
unfoldable pub trim_right : Text → ℕ → Text
trim_right s b = reverse (trim_left (reverse s) b)

-- `strings.ContainsRune` of an ASCII text and a byte.
unfoldable pub contains_byte : Text → ℕ → Bool
contains_byte [] b = false
contains_byte (c ∷ s) b = eqb c b || contains_byte s b

-- A Go set or map key lookup: `_, ok := set[key]`.
unfoldable pub has_text : List Text → Text → Bool
has_text [] t = false
has_text (s ∷ ss) t = s == t || has_text ss t

trimmed : trim_space (0xe2 ∷ 0x80 ∷ 0x80 ∷ ascii " a b\t" ++ 0xc2 ∷ 0xa0 ∷ []) ≡ ascii "a b"
unfolding trim_space has_prefix
trimmed = refl

splits : split (ascii "a,,b") b',' ≡ ascii "a" ∷ [] ∷ ascii "b" ∷ []
unfolding split
splits = refl

cuts : cut (ascii "Bearer x y") b' ' ≡ some (ascii "Bearer", ascii "x y")
unfolding cut
cuts = refl

-- `strconv.FormatInt` of a value that is not negative: its digits, the last one first.
digits_from : ℕ → ℕ → Text
digits_from zero n = []
digits_from (suc fuel) n =
    let more = digits_from fuel (n / 10) in (n % 10 + b'0') ∷ (if eqb (n / 10) 0 then [] else more)

-- A number below 2 ^ 64 has at most twenty digits.
unfoldable pub decimal : ℕ → Text
unfolding digits_from
decimal n = reverse (digits_from 20 n)

decimals : decimal 9007199254740991 ≡ ascii "9007199254740991"
unfolding decimal
decimals = refl
