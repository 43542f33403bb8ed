-- ===== src/Text/Order.antt =====
-- `sort.Strings` over the keys of a Go map: a sorted list without repetitions.
use stellarmesh_sdk.Base.{Bool, true, false, List, [], ◌∷◌, ◌||◌, ◌&&◌, ltb, eqb, if◌then◌else◌}
use stellarmesh_sdk.Text.{Text, has_text}

-- `left < right`, byte by byte.
unfoldable pub text_ltb : Text → Text → Bool
text_ltb [] [] = false
text_ltb [] (d ∷ t) = true
text_ltb (c ∷ s) [] = false
text_ltb (c ∷ s) (d ∷ t) = ltb c d || (eqb c d && text_ltb s t)

unfoldable pub insert_text : Text → List Text → List Text
insert_text t [] = t ∷ []
insert_text t (s ∷ ss) = if text_ltb s t then s ∷ insert_text t ss else t ∷ s ∷ ss

-- `sort.Strings`.
unfoldable pub sort_texts : List Text → List Text
sort_texts [] = []
sort_texts (t ∷ ts) = insert_text t (sort_texts ts)

-- The keys of a Go map after `set[key] = struct{}{}`: the key is added once.
unfoldable pub add_key : Text → List Text → List Text
add_key t keys = if has_text keys t then keys else t ∷ keys
