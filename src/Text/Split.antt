-- ===== src/Text/Split.antt =====
-- `strings.Split` of a part without the separator, and of what follows.
use stellarmesh_sdk.Base.{ℕ, ◌≡◌, refl, false, true, [], ◌∷◌, ◌++◌, eqb, arith}
use stellarmesh_sdk.Text.{Text, contains_byte, split, split_at}

split_at-last : (s : Text) (b : ℕ) → contains_byte s b ≡ false → split_at b s ≡ (s, [])
unfolding split_at contains_byte
split_at-last [] b h = refl
split_at-last (c ∷ s) b h =
    let rest : split_at b s ≡ (s, []) = split_at-last s b (ground arith) in
    let other : eqb c b ≡ false = ground arith in rw (other, split_at, rest) refl

split_at-first :
    (s t : Text) (b : ℕ) → contains_byte s b ≡ false → split_at b (s ++ b ∷ t) ≡ (s, split t b)
unfolding split_at split contains_byte
split_at-first [] t b h = let same : eqb b b ≡ true = ground arith in rw (same, split_at) refl
split_at-first (c ∷ s) t b h =
    let rest : split_at b (s ++ b ∷ t) ≡ (s, split t b) = split_at-first s t b (ground arith) in
    let other : eqb c b ≡ false = ground arith in rw (other, split_at, rest) refl

pub split-one : (s : Text) (b : ℕ) → contains_byte s b ≡ false → split s b ≡ s ∷ []
unfolding split
split-one s b h = rw (split_at-last s b h) refl

pub split-first :
    (s t : Text) (b : ℕ) → contains_byte s b ≡ false → split (s ++ b ∷ t) b ≡ s ∷ split t b
unfolding split
split-first s t b h = rw (split_at-first s t b h) refl
