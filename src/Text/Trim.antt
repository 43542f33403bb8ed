-- ===== src/Text/Trim.antt =====
-- Texts without spaces and without bytes of other scripts, for `strings.TrimSpace`.
use mathlib.Core.List.{reverse-cons, reverse-reverse}
use stellarmesh_sdk.Base.{
  ℕ, ◌≤◌, ◌<◌, ◌≡◌, refl, sym, ap, ◌∙◌, subst, Bool, true, ◌||◌, List, [], ◌∷◌, ◌++◌, map, reverse,
  none, ltb, leb, All, all, arith,
}
use stellarmesh_sdk.Text.{Text, spaces, space_tail, trim_from, trim_space, has_prefix}

-- Each byte is a printable ASCII character but the space.
abbrev pub IsSolid : Text → Type 0
IsSolid s = All (λ c. (0x21 ≤ c) × (c < 0x80)) s

abbrev starts_apart : Text → Bool
starts_apart [] = true
starts_apart (c ∷ w) = ltb c 0x21 || leb 0x80 c

space_tail-none :
    (ws : List Text) (c : ℕ) (s : Text)
    → all starts_apart ws ≡ true
    → (0x21 ≤ c) × (c < 0x80)
    → space_tail ws (c ∷ s) ≡ none
unfolding space_tail has_prefix
space_tail-none [] c s h k = refl
space_tail-none ([] ∷ ws) c s h k = space_tail-none ws c s h k
space_tail-none ((d ∷ w) ∷ ws) c s h k =
    let rest = space_tail-none ws c s (ground arith) k in ground arith

trim_from-solid :
    (ws : List Text) (s : Text) → all starts_apart ws ≡ true → IsSolid s → trim_from ws 0 s ≡ s
unfolding trim_from
trim_from-solid ws [] h k = refl
trim_from-solid ws (c ∷ s) h k = rw (space_tail-none ws c s h k.0, trim_from) refl

All-snoc : (s : Text) (c : ℕ) → IsSolid s → (0x21 ≤ c) × (c < 0x80) → IsSolid (s ++ c ∷ [])
All-snoc [] c h k = (k, tt)
All-snoc (d ∷ s) c h k = (h.0, All-snoc s c h.1 k)

reverse-IsSolid : (s : Text) → IsSolid s → IsSolid (reverse s)
reverse-IsSolid [] h = tt
reverse-IsSolid (c ∷ s) h =
    subst IsSolid (sym (reverse-cons c s)) (All-snoc (reverse s) c (reverse-IsSolid s h.1) h.0)

spaces_apart : all starts_apart spaces ≡ true
spaces_apart = refl

ends_apart : all starts_apart (map reverse spaces) ≡ true
ends_apart = refl

pub trim_space-IsSolid : (s : Text) → IsSolid s → trim_space s ≡ s
unfolding trim_space
trim_space-IsSolid s h =
    ap (λ t. reverse (trim_from (map reverse spaces) 0 (reverse t)))
      (trim_from-solid spaces s spaces_apart h)
    ∙ ap reverse (trim_from-solid (map reverse spaces) (reverse s) ends_apart (reverse-IsSolid s h))
    ∙ reverse-reverse s
