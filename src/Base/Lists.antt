-- ===== src/Base/Lists.antt =====
-- Lists measured by native numbers, under the library's names, and predicates over their items.
use Prim.Native.Nat.{ℕ, suc, ◌+◌}
use mathlib.Core.Path.{◌≡◌}
use mathlib.Core.Bool.{Bool, true, false, ◌&&◌, ◌||◌}
use mathlib.Core.Option.{Option, none, some}
use mathlib.Core.List.{List, [], ◌∷◌, ◌++◌}
use mathlib.Core.Logic.{inl, inr}
use native.Mathlib.Omega.{arith}
use stellarmesh_sdk.Base.Tests.{Bool-cases}

module _ {ℓ} {A : Type ℓ} where
  abbrev pub length : List A → ℕ
  length [] = 0
  length (x ∷ xs) = suc (length xs)

  pub length-append : (xs ys : List A) → length (xs ++ ys) ≡ length xs + length ys
  length-append [] ys = omega arith
  length-append (x ∷ xs) ys = omega (arith, length-append xs ys)

  abbrev pub head? : List A → Option A
  head? [] = none
  head? (x ∷ xs) = some x

  -- Every item passes the test.
  abbrev pub all : (A → Bool) → List A → Bool
  all p [] = true
  all p (x ∷ xs) = p x && all p xs

  -- Some item passes the test.
  abbrev pub any : (A → Bool) → List A → Bool
  any p [] = false
  any p (x ∷ xs) = p x || any p xs

  -- The first item that passes the test.
  abbrev pub find : (A → Bool) → List A → Option A
  find p [] = none
  find p (x ∷ xs) = elim (p x) [ true ↦ some x | false ↦ find p xs ]

module _ {ℓ κ} {A : Type ℓ} where
  -- Every item has the property.
  abbrev pub All : (A → Type κ) → List A → Type κ
  All P [] = Unit
  All P (item ∷ items) = P item × All P items

  pub All-of : {P : A → Type κ} → ((x : A) → P x) → (xs : List A) → All P xs
  All-of h [] = tt
  All-of h (x ∷ xs) = (h x, All-of h xs)

  -- One of the items has the property; a value of the type says where.
  pub data Some (P : A → Type κ) : List A → Type (ℓ ⊔ κ) where
    here : {x : A} {xs : List A} → P x → Some P (x ∷ xs)
    there : {x : A} {xs : List A} → Some P xs → Some P (x ∷ xs)

module _ {ℓ κ μ} {A : Type ℓ} where
  pub All-map :
      {P : A → Type κ} {Q : A → Type μ} (f : (x : A) → P x → Q x) (xs : List A)
      → All P xs
      → All Q xs
  All-map f [] h = tt
  All-map f (x ∷ xs) h = (f x h.0, All-map f xs h.1)

  pub All-zip :
      (P : A → Type κ) (Q : A → Type μ) (xs : List A)
      → All P xs
      → All Q xs
      → All (λ x. P x × Q x) xs
  All-zip P Q [] hp hq = tt
  All-zip P Q (x ∷ xs) hp hq = ((hp.0, hq.0), All-zip P Q xs hp.1 hq.1)

  pub Some-map :
      {P : A → Type κ} {Q : A → Type μ} (f : (x : A) → P x → Q x) {xs : List A}
      → Some P xs
      → Some Q xs
  Some-map f (here h) = here (f _ h)
  Some-map f (there h) = there (Some-map f h)

module _ {ℓ} {A : Type ℓ} where
  some-inj : {a b : A} → some a ≡ some b → a ≡ b
  some-inj h = cc

  some-ne-none : {a : A} → ¬ (some a ≡ none)
  some-ne-none h = cc

module _ {ℓ} {A : Type ℓ} (p : A → Bool) where
  pub find-some : (xs : List A) {a : A} → find p xs ≡ some a → Some (λ x. (x ≡ a) × (p x ≡ true)) xs
  find-some [] h = cc
  find-some (x ∷ xs) h = elim (Bool-cases (p x)) [
    | inl found ↦ here (some-inj (rw (found, find) at h), found)
    | inr other ↦ there (find-some xs (rw (other, find) at h))
  ]

  pub find-none : (xs : List A) → find p xs ≡ none → All (λ x. p x ≡ false) xs
  find-none [] h = tt
  find-none (x ∷ xs) h = elim (Bool-cases (p x)) [
    | inl found ↦ absurd (some-ne-none (rw (found, find) at h))
    | inr other ↦ (other, find-none xs (rw (other, find) at h))
  ]

pub ++-cancel {ℓ} : {A : Type ℓ} (s t u : List A) → s ++ t ≡ s ++ u → t ≡ u
++-cancel [] t u h = h
++-cancel (c ∷ s) t u h = ++-cancel s t u cc
