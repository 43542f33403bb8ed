-- ===== src/Text/Laws.antt =====
-- Laws of the text functions that several components rely on.
use stellarmesh_sdk.Base.{◌≡◌, refl, ◌⊎◌, inl, inr, true, List, [], ◌∷◌, ◌++◌, arith}
use stellarmesh_sdk.Text.{Text, ◌==◌, text_discrete, has_text, has_prefix}

-- The text is one of the list.
abbrev pub In : Text → List Text → Type 0
In t [] = ⊥
In t (s ∷ ss) = (s ≡ t) ⊎ In t ss

pub has_text→In : (ss : List Text) (t : Text) → has_text ss t ≡ true → In t ss
unfolding has_text
has_text→In [] t h = cc
has_text→In (s ∷ ss) t h = elim (text_discrete s t) [
  | yes same ↦ inl same
  | no other ↦ inr (has_text→In ss t (ground arith))
]

pub In→has_text : (ss : List Text) (t : Text) → In t ss → has_text ss t ≡ true
unfolding has_text
In→has_text [] t h = absurd h
In→has_text (s ∷ ss) t (inl e) = ground arith
In→has_text (s ∷ ss) t (inr h) = ground (arith, In→has_text ss t h)

pub ==→eq : (s t : Text) → (s == t) ≡ true → s ≡ t
==→eq s t h = ground arith

pub eq→== : (s t : Text) → s ≡ t → (s == t) ≡ true
eq→== s t h = ground arith

-- `HasPrefix` finds the rest.
pub has_prefix→append : (s p : Text) → has_prefix s p ≡ true → (rest : Text) × (s ≡ p ++ rest)
unfolding has_prefix
has_prefix→append s [] h = (s, refl)
has_prefix→append [] (d ∷ p) h = cc
has_prefix→append (c ∷ s) (d ∷ p) h =
    let (rest, e) = has_prefix→append s p (ground arith) in (rest, ground arith)

pub has_prefix-append : (p rest : Text) → has_prefix (p ++ rest) p ≡ true
unfolding has_prefix
has_prefix-append [] rest = refl
has_prefix-append (c ∷ p) rest = ground (arith, has_prefix-append p rest)
