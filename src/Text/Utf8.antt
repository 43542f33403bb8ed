-- ===== src/Text/Utf8.antt =====
-- `unicode/utf8` and `unicode.IsControl` on the bytes of a text.
use stellarmesh_sdk.Base.{
  ℕ, zero, suc, Bool, true, false, ◌&&◌, ◌||◌, [], ◌∷◌, leb, ltb, eqb, if◌then◌else◌, ◌≡◌, refl,
  ◌++◌,
}
use stellarmesh_sdk.Text.{Text, ascii}

abbrev within : ℕ → ℕ → ℕ → Bool
within lo hi c = leb lo c && leb c hi

abbrev is_continuation : ℕ → Bool
is_continuation = within 0x80 0xbf

-- The second byte that may follow a first byte of two, three or four.
second_byte : ℕ → ℕ → Bool
second_byte c d =
    if eqb c 0xe0
    then within 0xa0 0xbf d
    else if eqb c 0xed
    then within 0x80 0x9f d
    else if eqb c 0xf0
    then within 0x90 0xbf d
    else if eqb c 0xf4
    then within 0x80 0x8f d
    else is_continuation d

abbrev leads_two : ℕ → Bool
leads_two = within 0xc2 0xdf

abbrev leads_three : ℕ → Bool
leads_three = within 0xe0 0xef

abbrev leads_four : ℕ → Bool
leads_four = within 0xf0 0xf4

-- The bytes of the rune that a text begins with, 0 if it begins with none.
rune_size : Text → ℕ
unfolding second_byte
rune_size [] = 0
rune_size (c ∷ []) = if ltb c 0x80 then 1 else 0
rune_size (c ∷ d ∷ []) = if ltb c 0x80 then 1 else if leads_two c && is_continuation d then 2 else 0
rune_size (c ∷ d ∷ e ∷ []) =
    if ltb c 0x80
    then 1
    else if leads_two c && is_continuation d
    then 2
    else if leads_three c && (second_byte c d && is_continuation e)
    then 3
    else 0
rune_size (c ∷ d ∷ e ∷ f ∷ s) =
    if ltb c 0x80
    then 1
    else if leads_two c && is_continuation d
    then 2
    else if leads_three c && (second_byte c d && is_continuation e)
    then 3
    else if leads_four c && (second_byte c d && (is_continuation e && is_continuation f))
    then 4
    else 0

-- The number is how many bytes of a rune are still to go.
valid_from : ℕ → Text → Bool
unfolding rune_size
valid_from pending [] = true
valid_from (suc k) (c ∷ s) = valid_from k s
valid_from zero (c ∷ s) = elim (rune_size (c ∷ s)) [ zero ↦ false | suc k ↦ valid_from k s ]

-- `utf8.ValidString`.
unfoldable pub is_valid_utf8 : Text → Bool
unfolding valid_from
is_valid_utf8 s = valid_from 0 s

-- A byte that begins no rune counts as one.
count_from : ℕ → Text → ℕ
unfolding rune_size
count_from pending [] = 0
count_from (suc k) (c ∷ s) = count_from k s
count_from zero (c ∷ s) = elim (rune_size (c ∷ s)) [
  | zero ↦ suc (count_from 0 s)
  | suc k ↦ suc (count_from k s)
]

-- `utf8.RuneCountInString`.
unfoldable pub rune_count : Text → ℕ
unfolding count_from
rune_count s = count_from 0 s

-- U+0080 to U+009F are the byte 0xc2, which only begins a rune, and the byte of their number.
after_c2 : Text → Bool
after_c2 [] = false
after_c2 (d ∷ s) = within 0x80 0x9f d

-- `strings.IndexFunc(value, unicode.IsControl) >= 0`.
unfoldable pub contains_control : Text → Bool
unfolding after_c2
contains_control [] = false
contains_control (c ∷ s) =
    ltb c 0x20 || (eqb c 0x7f || (eqb c 0xc2 && after_c2 s || contains_control s))

two_runes : rune_count (0xe4 ∷ 0xb8 ∷ 0xad ∷ ascii "a") ≡ 2
unfolding rune_count
two_runes = refl

surrogate : is_valid_utf8 (0xed ∷ 0xa0 ∷ 0x80 ∷ []) ≡ false
unfolding is_valid_utf8
surrogate = refl

next_line : contains_control (ascii "a" ++ 0xc2 ∷ 0x85 ∷ []) ≡ true
unfolding contains_control
next_line = refl
