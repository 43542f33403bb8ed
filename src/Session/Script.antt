-- ===== src/Session/Script.antt =====
-- sdk/go/gateway/sessionauth/store.go: `sessionScript`, the script that Redis runs for the session
-- store, as a function of its call and of the keys. Redis is an interface; cjson and SHA-1 are parameters.
pub mod Surviving
pub mod Kept
pub mod Limit
pub mod Created
pub mod Apart
pub mod Foreign
pub mod Isolation
mod Tests
use stellarmesh_sdk.Base.{
  ◌≡◌, ℕ, suc, ◌<◌, ◌-◌, ◌+◌, ◌/◌, ◌%◌, ◌^◌, max, Bool, true, false, not, ◌&&◌, ◌||◌, List, [], ◌∷◌,
  ◌++◌, Option, none, some, ltb, leb, eqb, all, if◌then◌else◌, length, ℤ, pos, negsuc, pos_part,
  Result, ok, err, refuse, ◌>>=◌, ◌>>◌,
}
use stellarmesh_sdk.Text.{Text, ascii, ◌==◌, contains_byte}
use stellarmesh_sdk.Gateway.Token.{is_alphanumeric}
use stellarmesh_sdk.Gateway.Route.{is_empty}
use stellarmesh_sdk.Session.Key.{hex_digit}
use stellarmesh_sdk.Session.Redis.{Members, Entry, absent, string_value, sorted_set, Redis}
use stellarmesh_sdk.Session.Call.{
  ScriptOp, create_op, lookup_op, renew_op, revoke_op, list_op, revoke_user_op, ScriptCall, Reply,
  ReplyItem, text,
}
use stellarmesh_sdk.Session.Load.{
  Field, word, whole, unknown, Row, Table, nothing, scalar, pairs, IdentityRow, Stop, corrupt,
  collision, missing, Item, lua_escape, session_key_of, user_key_of, Codec, load,
}

abbrev pub has_score : Option ℤ → ℕ → Bool
has_score (some (pos n)) created = eqb n created
has_score _ created = false

abbrev pub user_of : ScriptCall → Option Item → Text
user_of call none = call.user
user_of call (some item) = item.user

abbrev pub lost : Option Item → Bool → Bool
lost none found = false
lost (some item) found = not found

-- `active`, `stale` and `target_found`.
pub record Scan : Type 0 where
  pub active : List Item
  pub stale : List Text
  pub found : Bool

classify : (user id sid : Text) → Option ℤ → Option Item → Scan → Result Stop Scan
classify user id sid score none rest = ok (record rest { stale = sid ∷ rest.stale })
classify user id sid score (some item) rest =
    refuse (not (item.user == user) || not (has_score score item.created)) corrupt
    >> ok (record rest { active = item ∷ rest.active; found = sid == id || rest.found })

abbrev is_absent : Entry → Bool
is_absent absent = true
is_absent _ = false

pub wanted : Option Item → Result Stop (Option Item)
wanted none = err missing
wanted (some item) = ok (some item)

pub members_of : Entry → Result Stop Members
members_of absent = ok []
members_of (sorted_set ms expiry) = ok ms
members_of _ = err corrupt

-- What is known when the checks are over and nothing was written.
pub record Plan : Type 0 where
  pub target : Option Item
  pub user : Text
  pub scanned : Scan

latest : List Item → ℕ
latest [] = 0
latest (item ∷ items) = max item.expires (latest items)

renewed_items : Text → ℕ → List Item → List Item
renewed_items sid expires [] = []
renewed_items sid expires (item ∷ items) =
    (if item.id == sid then record item { expires = expires } else item)
    ∷ renewed_items sid expires items

revoked_items : Text → List Item → List Item
revoked_items sid [] = []
revoked_items sid (item ∷ items) = if item.id == sid then items else item ∷ revoked_items sid items

raws : List Item → List ReplyItem
raws [] = []
raws (item ∷ items) = text item.raw ∷ raws items

abbrev answer : List ReplyItem → Reply
answer items = ok (some (text (ascii "ok") ∷ items))

stopped : Stop → Reply
stopped corrupt = err true
stopped collision = ok (some (text (ascii "collision") ∷ []))
stopped missing = ok (some (text (ascii "missing") ∷ []))

module _ {World : Type 0} (redis : Redis World) (codec : Codec) where
  -- The loop over the members of the index.
  pub scan : ScriptCall → World → (user id : Text) → Members → Result Stop Scan
  unfolding classify
  scan call w user id [] = ok (record { active = []; stale = []; found = false })
  scan call w user id ((sid, score) ∷ ms) = load redis codec call w sid >>= λ item.
      scan call w user id ms >>= λ rest. classify user id sid score item rest

  -- `target`.
  find_target : ScriptOp → ScriptCall → World → Result Stop (Option Item)
  unfolding wanted
  find_target create_op call w =
      refuse (not (is_absent (redis.entry w call.key))) collision >> ok none
  find_target lookup_op call w = load redis codec call w call.id >>= wanted
  find_target renew_op call w = load redis codec call w call.id >>= wanted
  find_target revoke_op call w = load redis codec call w call.id >>= wanted
  find_target _ call w = ok none

  pub prepare : ScriptCall → World → Result Stop Plan
  unfolding find_target members_of
  prepare call w = find_target call.op call w >>= λ target.
      let user = user_of call target in
      members_of (redis.entry w (user_key_of call user)) >>= λ ms.
      scan call w user call.id ms >>= λ s.
      refuse (lost target s.found) corrupt
      >> ok (record { target = target; user = user; scanned = s })

  created_row : ScriptCall → ℕ → Row
  created_row call now = record {
    version = whole (pos 1);
    id = word call.id;
    user_id = word call.user;
    identity = word call.identity;
    identity_hash = word (codec.sha1 call.identity);
    created_at = whole (pos now);
    expires_at = whole (pos (now + pos_part call.ttl));
  }

  created_item : ScriptCall → ℕ → Item
  unfolding created_row
  created_item call now = record {
    row = created_row call now;
    id = call.id;
    user = call.user;
    created = now;
    expires = now + pos_part call.ttl;
    raw = codec.encode_row (created_row call now);
    key = call.key;
  }

  pub drop_session : Text → (key sid : Text) → World → World
  drop_session index key sid w = redis.zrem index sid (redis.del key w)

  pub drop_stale : ScriptCall → Text → List Text → World → World
  unfolding drop_session
  drop_stale call index [] w = w
  drop_stale call index (sid ∷ sids) w =
      drop_stale call index sids (drop_session index (session_key_of call sid) sid w)

  pub drop_keys : List Item → World → World
  drop_keys [] w = w
  drop_keys (item ∷ items) w = drop_keys items (redis.del item.key w)

  -- `while #active >= limit`, and the items that stay. A limit is positive.
  pub evict : ℕ → Text → List Item → World → List Item × World
  unfolding drop_session
  evict limit index [] w = ([], w)
  evict limit index (item ∷ items) w = elim (ltb (length (item ∷ items)) limit) [
    | true ↦ (item ∷ items, w)
    | false ↦ evict limit index items (drop_session index item.key item.id w)
  ]

  -- The last step on the index.
  pub settle : Text → ℕ → List Item → World → World
  unfolding latest
  settle index now items w =
      if ltb now (latest items) then redis.pexpireat index (latest items) w else redis.del index w

  -- What the operations write; the time is that of the start.
  pub created : ScriptCall → Text → ℕ → List Item → World → Text × World
  unfolding created_row created_item evict settle
  created call index now active w =
      let r = created_row call now in
      let (kept, w') = evict call.limit index active w in
      (
        codec.encode_row r,
        settle index now (kept ++ created_item call now ∷ []) (
            redis.zadd index now call.id
              (redis.set_px call.key (codec.encode_row r) (pos_part call.ttl) w')),
      )

  renewed : ScriptCall → Text → ℕ → Row → List Item → World → Text × World
  unfolding renewed_items settle
  renewed call index now target active w =
      let expires = now + pos_part call.ttl in
      let raw = codec.encode_row (record target { expires_at = whole (pos expires) }) in
      (
        raw,
        settle index now (renewed_items call.id expires active)
            (redis.set_px call.key raw (pos_part call.ttl) w),
      )

  -- The writes of an operation and its answer.
  pub finish : ScriptOp → ScriptCall → Text → ℕ → Option Item → List Item → World → Reply × World
  unfolding created renewed revoked_items drop_keys raws settle
  finish create_op call index now target active w =
      let (raw, w') = created call index now active w in (answer (text raw ∷ []), w')
  finish renew_op call index now (some target) active w =
      let (raw, w') = renewed call index now target.row active w in (answer (text raw ∷ []), w')
  finish lookup_op call index now (some target) active w =
      (answer (text target.raw ∷ []), settle index now active w)
  finish revoke_op call index now target active w = (
    answer [],
    settle index now (revoked_items call.id active)
        (redis.zrem index call.id (redis.del call.key w)),
  )
  finish revoke_user_op call index now target active w =
      (answer [], redis.del index (drop_keys active w))
  finish list_op call index now target active w = (answer (raws active), settle index now active w)
  finish _ call index now none active w = (err true, w)

  run_plan : ScriptCall → World → Result Stop Plan → Reply × World
  unfolding stopped drop_stale finish
  run_plan call w (err s) = (stopped s, w)
  run_plan call w (ok p) =
      let index = user_key_of call p.user in
      finish call.op call index (redis.now w) p.target p.scanned.active
        (drop_stale call index p.scanned.stale w)

  -- `sessionScript`.
  unfoldable pub session_script : ScriptCall → World → Reply × World
  unfolding prepare run_plan scan
  session_script call w = run_plan call w (prepare call w)
