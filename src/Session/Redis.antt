-- ===== src/Session/Redis.antt =====
-- Redis as sessionScript of sdk/go/gateway/sessionauth/store.go uses it: an interface, with the
-- documented behaviour of its commands as laws. The time, in milliseconds, stands still in a script.
use stellarmesh_sdk.Base.{
  ◌≡◌, ℕ, suc, ◌<◌, ◌+◌, List, [], ◌∷◌, Option, none, some, ltb, if◌then◌else◌, length, ℤ,
}
use stellarmesh_sdk.Text.{Text, ◌==◌}

-- The members of a sorted set in its order, each with its score, `none` where that is no whole number.
abbrev pub Members : Type 0
Members = List (Text × Option ℤ)

-- What is under a key, a string and a sorted set with the time at which they expire.
pub data Entry : Type 0 where
  absent other_kind : Entry
  string_value : Text → Option ℕ → Entry
  sorted_set : Members → Option ℕ → Entry

abbrev pub without : Text → Members → Members
without m [] = []
without m ((sid, score) ∷ ms) = if m == sid then without m ms else (sid, score) ∷ without m ms

-- A sorted set without members is no key.
abbrev pub held : Members → Option ℕ → Entry
held [] expiry = absent
held (m ∷ ms) expiry = sorted_set (m ∷ ms) expiry

abbrev pub removed : Text → Entry → Entry
removed m (sorted_set ms expiry) = held (without m ms) expiry
removed m e = e

-- `placed` is the place that Redis gives to a new member.
abbrev pub added : (Text → ℕ → Members → Members) → Text → ℕ → Entry → Entry
added placed m score absent = sorted_set (placed m score []) none
added placed m score (sorted_set ms expiry) = sorted_set (placed m score (without m ms)) expiry
added placed m score e = e

abbrev pub expiring : ℕ → Entry → Entry
expiring at (string_value raw expiry) = string_value raw (some at)
expiring at (sorted_set ms expiry) = sorted_set ms (some at)
expiring at e = e

-- The commands of Redis that the script calls, and what they document.
pub record Redis (World : Type 0) : Type 0 where
  pub now : World → ℕ
  pub entry : World → Text → Entry
  pub del : Text → World → World
  pub set_px : Text → Text → ℕ → World → World
  pub zrem : Text → Text → World → World
  pub zadd : Text → ℕ → Text → World → World
  pub pexpireat : Text → ℕ → World → World
  pub placed : Text → ℕ → Members → Members
  pub entry-del :
      (k j : Text) (w : World) → entry (del k w) j ≡ (if k == j then absent else entry w j)
  pub entry-set_px :
      (k raw : Text) (ttl : ℕ) (j : Text) (w : World)
      → 0 < ttl
      → entry (set_px k raw ttl w) j
        ≡ (if k == j then string_value raw (some (now w + ttl)) else entry w j)
  pub entry-zrem :
      (k m j : Text) (w : World)
      → entry (zrem k m w) j ≡ (if k == j then removed m (entry w j) else entry w j)
  pub entry-zadd :
      (k : Text) (score : ℕ) (m j : Text) (w : World)
      → entry (zadd k score m w) j
        ≡ (if k == j then added placed m score (entry w j) else entry w j)
  pub entry-pexpireat :
      (k : Text) (at : ℕ) (j : Text) (w : World)
      → entry (pexpireat k at w) j
        ≡ (if k == j then if ltb (now w) at then expiring at (entry w j) else absent else entry w j)
  pub length-placed :
      (m : Text) (score : ℕ) (ms : Members) → length (placed m score ms) ≡ suc (length ms)
