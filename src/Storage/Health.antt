-- ===== src/Storage/Health.antt =====
-- services/storage/internal/application/registry.go: the stores by namespace, and the readiness of all.
-- A store is what its check answers; `CheckAll` starts the checks at once and takes the answers in any
-- order.
pub mod Readiness
use stellarmesh_sdk.Base.{Bool, true, false, ◌&&◌, List, [], ◌∷◌, Option, none, some, if◌then◌else◌}
use stellarmesh_sdk.Text.{Text}
use stellarmesh_sdk.Storage.AccessPolicy.{lookup}

-- `Registry`, which copies the map.
pub record Registry {ℓ} (Store : Type ℓ) : Type ℓ where
  pub stores : List (Text × Store)

-- `NewRegistry` and `Registry.Store`.
abbrev pub new_registry {ℓ} : {Store : Type ℓ} → List (Text × Store) → Registry Store
new_registry stores = record { stores = stores }

unfoldable pub registry_store {ℓ} : {Store : Type ℓ} → Registry Store → Text → Option Store
registry_store r namespace = lookup r.stores namespace

-- The flag of a `Health`, which starts as not ready.
pub record Health : Type 0 where
  pub ready : Bool

abbrev pub new_health : Health
new_health = record { ready = false }

-- `Health.Ready` and `Health.SetReady`; `none` is a nil pointer.
unfoldable pub is_ready : Option Health → Bool
is_ready none = false
is_ready (some h) = h.ready

unfoldable pub set_ready : Bool → Option Health → Option Health
set_ready ready none = none
set_ready ready (some h) = some (record { ready = ready })

all_ready : List Bool → Bool
all_ready [] = true
all_ready (r ∷ rs) = r && all_ready rs

-- `Health.CheckAll`, with the answers in the order in which they came.
unfoldable pub check_all : Option Health → List Bool → Bool × Option Health
unfolding all_ready
check_all none answers = (false, none)
check_all (some h) [] = (false, some h)
check_all (some h) (r ∷ rs) = (all_ready (r ∷ rs), some (record { ready = all_ready (r ∷ rs) }))

after_ticks : Option Health → List (List Bool) → Option Health
after_ticks none [] = none
after_ticks (some h) [] = some (record { ready = false })
after_ticks h (answers ∷ ticks) = after_ticks (check_all h answers).1 ticks

-- `Health.Run`: a check at once, one at each tick, and the end of the context.
unfoldable pub run : Option Health → List Bool → List (List Bool) → Option Health
unfolding after_ticks
run h first ticks = after_ticks (check_all h first).1 ticks
