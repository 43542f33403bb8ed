-- ===== src/Session/Script/Surviving.antt =====
-- The members of an index that are left when some are dropped, for the script of
-- sdk/go/gateway/sessionauth/store.go.
use stellarmesh_sdk.Base.{
  ◌≡◌, refl, ◌∙◌, ℕ, suc, ◌≤◌, true, List, [], ◌∷◌, ◌++◌, Option, if◌then◌else◌, length, All,
  All-map, arith,
}
use stellarmesh_sdk.Text.{Text, has_text}
use stellarmesh_sdk.Text.Laws.{eq→==}
use stellarmesh_sdk.Session.Redis.{
  Members, Entry, absent, other_kind, string_value, sorted_set, without, held, removed,
}
use stellarmesh_sdk.Session.Load.{Item}

-- The members under a key.
abbrev pub members : Entry → Members
members (sorted_set ms expiry) = ms
members _ = []

-- The members that are not of the list.
unfoldable pub surviving : List Text → Members → ℕ
surviving xs [] = 0
surviving xs ((sid, score) ∷ ms) =
    if has_text xs sid then surviving xs ms else suc (surviving xs ms)

unfoldable pub outside : List Text → List Item → ℕ
outside xs [] = 0
outside xs (item ∷ items) = if has_text xs item.id then outside xs items else suc (outside xs items)

pub surviving-without :
    (xs : List Text) (m : Text) (ms : Members) → surviving xs (without m ms) ≡ surviving (m ∷ xs) ms
unfolding surviving has_text
surviving-without xs m [] = refl
surviving-without xs m ((sid, score) ∷ ms) = ground (arith, surviving-without xs m ms)

pub surviving-removed :
    (xs : List Text) (m : Text) (e : Entry)
    → surviving xs (members (removed m e)) ≡ surviving (m ∷ xs) (members e)
unfolding surviving
surviving-removed xs m absent = refl
surviving-removed xs m other_kind = refl
surviving-removed xs m (string_value raw expiry) = refl
surviving-removed xs m (sorted_set ms expiry) =
    members_held (without m ms) expiry ∙ surviving-without xs m ms
  where
    members_held :
        (ms : Members) (expiry : Option ℕ)
        → surviving xs (members (held ms expiry)) ≡ surviving xs ms
    members_held [] expiry = refl
    members_held (m ∷ ms) expiry = refl

pub length-without : (m : Text) (ms : Members) → length (without m ms) ≤ length ms
length-without m [] = omega arith
length-without m ((sid, score) ∷ ms) = ground (arith, length-without m ms)

pub surviving_all : (ms : Members) → surviving [] ms ≡ length ms
unfolding surviving has_text
surviving_all [] = refl
surviving_all (m ∷ ms) = omega (arith, surviving_all ms)

pub outside_all : (items : List Item) → outside [] items ≡ length items
unfolding outside has_text
outside_all [] = refl
outside_all (item ∷ items) = omega (arith, outside_all items)

pub outside-cons :
    (x : Text) (xs : List Text) (items : List Item) → outside (x ∷ xs) items ≤ outside xs items
unfolding outside has_text
outside-cons x xs [] = omega arith
outside-cons x xs (item ∷ items) = ground (arith, outside-cons x xs items)

pub outside-append :
    (xs ys : List Text) (items : List Item) → outside (xs ++ ys) items ≤ outside ys items
outside-append [] ys items = omega arith
outside-append (x ∷ xs) ys items =
    omega (arith, outside-cons x (xs ++ ys) items, outside-append xs ys items)

pub outside-cons_self :
    (item : Item) (xs : List Text) (items : List Item)
    → outside (item.id ∷ xs) (item ∷ items) ≤ outside xs items
unfolding outside has_text
outside-cons_self item xs items = rw (eq→== item.id item.id refl) (outside-cons item.id xs items)

pub All-has_text : (xs ys : List Text) → All (λ t. has_text (xs ++ ys) t ≡ true) xs
unfolding has_text
All-has_text [] ys = tt
All-has_text (x ∷ xs) ys =
    (rw (eq→== x x refl) refl, All-map (λ t h. ground (arith, h)) xs (All-has_text xs ys))
