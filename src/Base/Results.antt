-- ===== src/Base/Results.antt =====
-- A Go pair of a value and an error: the value, or the error that is not nil.
use mathlib.Core.Path.{◌≡◌, refl}
use mathlib.Core.Bool.{Bool, true, false}
use mathlib.Core.Logic.{◌⊎◌, inl, inr}
use mathlib.Core.Option.{some}

pub data Result {ℓ κ} (E : Type ℓ) (A : Type κ) : Type (ℓ ⊔ κ) where
  ok : A → Result E A
  err : E → Result E A

infixl 5 ◌>>=◌ ◌>>◌
abbrev pub ◌>>=◌ {ℓ κ μ} :
    {E : Type ℓ} {A : Type κ} {B : Type μ} → Result E A → (A → Result E B) → Result E B
err e >>= after = err e
ok value >>= after = after value

abbrev pub ◌>>◌ {ℓ μ} : {E : Type ℓ} {B : Type μ} → Result E (Unit {0}) → Result E B → Result E B
check >> rest = check >>= λ _. rest

-- `if b { return err }`.
abbrev pub refuse {ℓ} : {E : Type ℓ} → Bool → E → Result E (Unit {0})
refuse false e = ok tt
refuse true e = err e

-- What a chain that succeeded went through.
pub >>=-eq-ok {ℓ κ μ} :
    {E : Type ℓ} {A : Type κ} {B : Type μ} (first : Result E A) (after : A → Result E B) {end : B}
    → (first >>= after) ≡ ok end
    → (value : A) × (first ≡ ok value) × (after value ≡ ok end)
>>=-eq-ok (err e) after done = cc
>>=-eq-ok (ok value) after done = (value, refl, done)

-- What a check that passed was of, and what came after it.
pub refuse-eq-ok {ℓ κ} :
    {E : Type ℓ} {B : Type κ} (bad : Bool) (e : E) (rest : Result E B) {end : B}
    → (refuse bad e >> rest) ≡ ok end
    → (bad ≡ false) × (rest ≡ ok end)
refuse-eq-ok true e rest done = cc
refuse-eq-ok false e rest done = (refl, done)

pub ok-inj {ℓ κ} : {E : Type ℓ} {A : Type κ} {a b : A} → ◌≡◌ {A = Result E A} (ok a) (ok b) → a ≡ b
ok-inj h = cc

pub err-ne-ok {ℓ κ} :
    {E : Type ℓ} {A : Type κ} {e : E} {a : A} → ¬ (◌≡◌ {A = Result E A} (err e) (ok a))
err-ne-ok h = cc

pub Result-cases {ℓ κ} :
    {E : Type ℓ} {A : Type κ} (r : Result E A) → ((e : E) × (r ≡ err e)) ⊎ ((a : A) × (r ≡ ok a))
Result-cases (err e) = inl (e, refl)
Result-cases (ok a) = inr (a, refl)

pub some-inj {ℓ} : {A : Type ℓ} {a b : A} → some a ≡ some b → a ≡ b
some-inj h = cc
