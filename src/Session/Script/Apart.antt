-- ===== src/Session/Script/Apart.antt =====
-- What the writes of the script of sdk/go/gateway/sessionauth/store.go leave under another key.
use stellarmesh_sdk.Base.{
  ◌≡◌, refl, ◌∙◌, ℕ, false, List, [], ◌∷◌, ltb, length, All, Bool-cases, inl, inr,
}
use stellarmesh_sdk.Text.{Text, ◌==◌}
use stellarmesh_sdk.Session.Redis.{Redis}
use stellarmesh_sdk.Session.Call.{ScriptCall}
use stellarmesh_sdk.Session.Load.{Codec, Item, session_key_of}
use stellarmesh_sdk.Session.Script.{latest, drop_session, drop_stale, drop_keys, evict, settle}

abbrev pub AreApart : List Item → Text → Type 0
AreApart items j = All (λ item. (item.key == j) ≡ false) items

module _ {World : Type 0} (redis : Redis World) (codec : Codec) where
  -- A write under another key.
  pub entry-del_apart :
      (k j : Text) (w : World) → (k == j) ≡ false → redis.entry (redis.del k w) j ≡ redis.entry w j
  entry-del_apart k j w h = rw (redis.entry-del k j w, h) refl

  pub entry-settle_apart :
      (index : Text) (now : ℕ) (items : List Item) (j : Text) (w : World)
      → (index == j) ≡ false
      → redis.entry (settle redis codec index now items w) j ≡ redis.entry w j
  unfolding settle
  entry-settle_apart index now items j w h = elim (Bool-cases (ltb now (latest items))) [
    | inl later ↦ rw (later, settle, redis.entry-pexpireat index (latest items) j w, h) refl
    | inr over ↦ rw (over, settle, redis.entry-del index j w, h) refl
  ]

  pub entry-drop_session_apart :
      (index key sid j : Text) (w : World)
      → (index == j) ≡ false
      → (key == j) ≡ false
      → redis.entry (drop_session redis codec index key sid w) j ≡ redis.entry w j
  unfolding drop_session
  entry-drop_session_apart index key sid j w h k =
      rw (redis.entry-zrem index sid j (redis.del key w), h) (entry-del_apart key j w k)

  pub entry-drop_stale_apart :
      (call : ScriptCall) (index : Text) (sids : List Text) (j : Text) (w : World)
      → (index == j) ≡ false
      → All (λ sid. (session_key_of call sid == j) ≡ false) sids
      → redis.entry (drop_stale redis codec call index sids w) j ≡ redis.entry w j
  unfolding drop_stale
  entry-drop_stale_apart call index [] j w h k = refl
  entry-drop_stale_apart call index (sid ∷ sids) j w h k =
      entry-drop_stale_apart call index sids j
        (drop_session redis codec index (session_key_of call sid) sid w) h k.1
      ∙ entry-drop_session_apart index (session_key_of call sid) sid j w h k.0

  pub entry-drop_keys_apart :
      (items : List Item) (j : Text) (w : World)
      → AreApart items j
      → redis.entry (drop_keys redis codec items w) j ≡ redis.entry w j
  unfolding drop_keys
  entry-drop_keys_apart [] j w h = refl
  entry-drop_keys_apart (item ∷ items) j w h =
      entry-drop_keys_apart items j (redis.del item.key w) h.1 ∙ entry-del_apart item.key j w h.0

  pub entry-evict_apart :
      (limit : ℕ) (index : Text) (items : List Item) (j : Text) (w : World)
      → (index == j) ≡ false
      → AreApart items j
      → redis.entry (evict redis codec limit index items w).1 j ≡ redis.entry w j
  unfolding evict
  entry-evict_apart limit index [] j w h k = refl
  entry-evict_apart limit index (item ∷ items) j w h k =
      elim (Bool-cases (ltb (length (item ∷ items)) limit)) [
        | inl few ↦ rw (few, evict) refl
        | inr many ↦
            rw (many, evict)
              (entry-evict_apart limit index items j
                  (drop_session redis codec index item.key item.id w) h k.1
                ∙ entry-drop_session_apart index item.key item.id j w h k.0)
      ]
