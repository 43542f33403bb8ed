-- ===== src/Storage/Health/Readiness.antt =====
-- The readiness of the storage service, by the answers of its stores.
use mathlib.Core.Bool.{Bool-set}
use mathlib.Core.Logic.{∥∥₁_elim}
use mathlib.Core.List.{Perm, Permᴰ}
use stellarmesh_sdk.Base.{
  ◌≡◌, ◌≢◌, refl, subst, All, ◌∙◌, Bool, true, false, List, [], ◌∷◌, Option, none, some, arith,
}
use stellarmesh_sdk.Storage.Health.{Health, is_ready, all_ready, check_all, after_ticks, run}

abbrev is_nil : List Bool → Bool
is_nil [] = true
is_nil (r ∷ rs) = false

all_ready-same : {rs ss : List Bool} → Permᴰ rs ss → all_ready rs ≡ all_ready ss
unfolding all_ready
all_ready-same Permᴰ.nil = refl
all_ready-same (Permᴰ.cons e p) = ground (arith, e, all_ready-same p)
all_ready-same (Permᴰ.swap e f) = ground (arith, e, f)
all_ready-same (Permᴰ.trans p q) = all_ready-same p ∙ all_ready-same q

is_nil-same : {rs ss : List Bool} → Permᴰ rs ss → is_nil rs ≡ is_nil ss
is_nil-same Permᴰ.nil = refl
is_nil-same (Permᴰ.cons e p) = refl
is_nil-same (Permᴰ.swap e f) = refl
is_nil-same (Permᴰ.trans p q) = is_nil-same p ∙ is_nil-same q

abbrev checked : Health → Bool → Bool → Bool × Option Health
checked h true all = (false, some h)
checked h false all = (all, some (record { ready = all }))

check_all-checked :
    (h : Health) (rs : List Bool) → check_all (some h) rs ≡ checked h (is_nil rs) (all_ready rs)
unfolding check_all
check_all-checked h [] = refl
check_all-checked h (r ∷ rs) = refl

check_all-Perm :
    (h : Option Health) (rs ss : List Bool) → Perm rs ss → check_all h rs ≡ check_all h ss
unfolding check_all
check_all-Perm none rs ss p = refl
check_all-Perm (some h) rs ss p =
    rw
      (
        check_all-checked h rs,
        check_all-checked h ss,
        ∥∥₁_elim p (Bool-set (all_ready rs) (all_ready ss)) all_ready-same,
        ∥∥₁_elim p (Bool-set (is_nil rs) (is_nil ss)) is_nil-same,
      )
      refl

-- Every store is ready.
abbrev pub AreReady : List Bool → Type 0
AreReady rs = All (λ r. r ≡ true) rs

all_ready-AreReady : (rs : List Bool) → all_ready rs ≡ true → AreReady rs
unfolding all_ready
all_ready-AreReady [] h = tt
all_ready-AreReady (r ∷ rs) h = (ground arith, all_ready-AreReady rs (ground arith))

AreReady-all_ready : (rs : List Bool) → AreReady rs → all_ready rs ≡ true
unfolding all_ready
AreReady-all_ready [] h = refl
AreReady-all_ready (r ∷ rs) h = ground (arith, h.0, AreReady-all_ready rs h.1)

-- What the check says of the stores, and the readiness that it leaves.
pub record IsReadiness (h : Option Health) (rs : List Bool) (result : Bool × Option Health)
    : Type 0 where
  pub sound : result.0 ≡ true → (h ≢ none) × (rs ≢ []) × AreReady rs
  pub complete : h ≢ none → rs ≢ [] → AreReady rs → result.0 ≡ true
  pub stored : h ≢ none → rs ≢ [] → is_ready result.1 ≡ result.0
  pub unasked : rs ≡ [] → result.1 ≡ h

check_all-IsReadiness : (h : Option Health) (rs : List Bool) → IsReadiness h rs (check_all h rs)
unfolding check_all is_ready
check_all-IsReadiness none rs = record {
  sound = λ e. cc;
  complete = λ given e f. absurd (given refl);
  stored = λ given e. absurd (given refl);
  unasked = λ e. refl;
}
check_all-IsReadiness (some h) [] = record {
  sound = λ e. cc;
  complete = λ given e f. absurd (e refl);
  stored = λ given e. absurd (e refl);
  unasked = λ e. refl;
}
check_all-IsReadiness (some h) (r ∷ rs) = record {
  sound = λ e. ((λ f. cc), (λ f. cc), all_ready-AreReady (r ∷ rs) e);
  complete = λ given e f. AreReady-all_ready (r ∷ rs) f;
  stored = λ given e. refl;
  unasked = λ e. cc;
}

-- In whichever order the answers of the stores come, the check reports ready exactly if there is a
-- health value, at least one store, and every store is ready; where there is a health value and a
-- store, it leaves what it reports as the readiness, and without a store it leaves the readiness
-- as it was.
pub check_all-IsReadiness_in_any_order :
    (h : Option Health) (rs ss : List Bool) → Perm rs ss → IsReadiness h rs (check_all h ss)
check_all-IsReadiness_in_any_order h rs ss p =
    subst (IsReadiness h rs) (check_all-Perm h rs ss p) (check_all-IsReadiness h rs)

after_ticks-not_ready :
    (h : Option Health) (ticks : List (List Bool)) → is_ready (after_ticks h ticks) ≡ false
unfolding after_ticks is_ready
after_ticks-not_ready none [] = refl
after_ticks-not_ready (some h) [] = refl
after_ticks-not_ready h (answers ∷ ticks) = after_ticks-not_ready (check_all h answers).1 ticks

-- The end of the context leaves the service not ready.
run-not_ready :
    (h : Option Health) (first : List Bool) (ticks : List (List Bool))
    → is_ready (run h first ticks) ≡ false
unfolding run
run-not_ready h first ticks = after_ticks-not_ready (check_all h first).1 ticks
