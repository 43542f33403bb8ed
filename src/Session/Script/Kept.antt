-- ===== src/Session/Script/Kept.antt =====
-- The members of an index after a command of Redis, and after a step of the script of
-- sdk/go/gateway/sessionauth/store.go.
use stellarmesh_sdk.Base.{
  ◌≡◌, refl, ℕ, suc, ◌<◌, ◌≤◌, List, [], ◌∷◌, ltb, length, ok, ok-inj, arith, Bool-cases, inl, inr,
}
use stellarmesh_sdk.Text.{Text, ◌==◌}
use stellarmesh_sdk.Text.Laws.{eq→==}
use stellarmesh_sdk.Session.Redis.{
  Members, Entry, absent, other_kind, string_value, sorted_set, without, added, expiring, Redis,
}
use stellarmesh_sdk.Session.Load.{Codec, Item}
use stellarmesh_sdk.Session.Script.{members_of, drop_session, settle, latest}
use stellarmesh_sdk.Session.Script.Surviving.{members, surviving, surviving-removed, length-without}

module _ {World : Type 0} (redis : Redis World) (codec : Codec) where
  members-del :
      (xs : List Text) (k j : Text) (w : World)
      → surviving xs (members (redis.entry (redis.del k w) j))
        ≤ surviving xs (members (redis.entry w j))
  unfolding surviving
  members-del xs k j w = rw (redis.entry-del k j w) (elim (Bool-cases (k == j)) [
    | inl same ↦ rw same (omega arith)
    | inr other ↦ rw other (omega arith)
  ])

  pub drop_session-surviving :
      (xs : List Text) (index key sid : Text) (w : World)
      → surviving xs (members (redis.entry (drop_session redis codec index key sid w) index))
        ≤ surviving (sid ∷ xs) (members (redis.entry w index))
  unfolding drop_session
  drop_session-surviving xs index key sid w =
      rw (redis.entry-zrem index sid index (redis.del key w), eq→== index index refl)
        (rw (surviving-removed xs sid (redis.entry (redis.del key w) index))
          (members-del (sid ∷ xs) key index w))

  pub members-set_px :
      (k raw : Text) (ttl : ℕ) (j : Text) (w : World)
      → 0 < ttl
      → length (members (redis.entry (redis.set_px k raw ttl w) j))
        ≤ length (members (redis.entry w j))
  members-set_px k raw ttl j w h =
      rw (redis.entry-set_px k raw ttl j w h) (elim (Bool-cases (k == j)) [
        | inl same ↦ rw same (omega arith)
        | inr other ↦ rw other (omega arith)
      ])

  members-added :
      (score : ℕ) (m : Text) (e : Entry)
      → length (members (added redis.placed m score e)) ≤ suc (length (members e))
  members-added score m absent = omega (arith, redis.length-placed m score [])
  members-added score m other_kind = omega arith
  members-added score m (string_value raw expiry) = omega arith
  members-added score m (sorted_set ms expiry) =
      omega (arith, redis.length-placed m score (without m ms), length-without m ms)

  pub members-zadd :
      (index : Text) (score : ℕ) (m : Text) (w : World)
      → length (members (redis.entry (redis.zadd index score m w) index))
        ≤ suc (length (members (redis.entry w index)))
  members-zadd index score m w =
      rw (redis.entry-zadd index score m index w, eq→== index index refl)
        (members-added score m (redis.entry w index))

  members-expiring : (at : ℕ) (e : Entry) → length (members (expiring at e)) ≤ length (members e)
  members-expiring at absent = omega arith
  members-expiring at other_kind = omega arith
  members-expiring at (string_value raw expiry) = omega arith
  members-expiring at (sorted_set ms expiry) = omega arith

  members-pexpireat :
      (index : Text) (at : ℕ) (w : World)
      → length (members (redis.entry (redis.pexpireat index at w) index))
        ≤ length (members (redis.entry w index))
  members-pexpireat index at w =
      rw (redis.entry-pexpireat index at index w, eq→== index index refl)
        (elim (Bool-cases (ltb (redis.now w) at)) [
          | inl later ↦ rw later (members-expiring at (redis.entry w index))
          | inr over ↦ rw over (omega arith)
        ])

  pub members-settle :
      (index : Text) (now : ℕ) (items : List Item) (w : World)
      → length (members (redis.entry (settle redis codec index now items w) index))
        ≤ length (members (redis.entry w index))
  unfolding settle
  members-settle index now items w = elim (Bool-cases (ltb now (latest items))) [
    | inl later ↦ rw (later, settle) (members-pexpireat index (latest items) w)
    | inr over ↦
        rw (over, settle, redis.entry-del index index w, eq→== index index refl) (omega arith)
  ]

  pub members_of-members : (e : Entry) (ms : Members) → members_of e ≡ ok ms → members e ≡ ms
  unfolding members_of
  members_of-members absent ms h = ok-inj h
  members_of-members other_kind ms h = cc
  members_of-members (string_value raw expiry) ms h = cc
  members_of-members (sorted_set ms expiry) ms' h = ok-inj h
