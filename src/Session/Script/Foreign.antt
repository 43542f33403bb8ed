-- ===== src/Session/Script/Foreign.antt =====
-- The script of sdk/go/gateway/sessionauth/store.go when it works on the sessions of one user, beside a
-- session of another.
use stellarmesh_sdk.Base.{
  ◌≡◌, ◌≢◌, refl, sym, ap, subst, ◌∙◌, ℕ, ◌<◌, ◌+◌, true, false, not, ◌||◌, List, [], ◌∷◌, ◌++◌,
  Option, none, some, pos, pos_part, ok, refuse-eq-ok, >>=-eq-ok, ok-inj, some-inj, ◌>>=◌, All,
  arith, Bool-cases, inl, inr,
}
use stellarmesh_sdk.Text.{Text, ◌==◌}
use stellarmesh_sdk.Text.Laws.{==→eq}
use stellarmesh_sdk.Session.Redis.{
  Members, Entry, absent, other_kind, string_value, sorted_set, Redis,
}
use stellarmesh_sdk.Session.Call.{
  ScriptCall, ScriptOp, create_op, lookup_op, renew_op, revoke_op, list_op, revoke_user_op,
}
use stellarmesh_sdk.Session.Load.Loaded.{load-apart, none-ne-some, load-id}
use stellarmesh_sdk.Session.Load.{whole, Codec, corrupt, Item, session_key_of, load, load_entry}
use stellarmesh_sdk.Session.Script.{
  user_of, Scan, classify, has_score, scan, wanted, is_absent, drop_keys, evict, created,
  created_row, created_item, renewed, renewed_items, revoked_items, finish,
}
use stellarmesh_sdk.Session.Script.Apart.{
  entry-del_apart, entry-settle_apart, AreApart, entry-drop_keys_apart, entry-evict_apart,
}

pub wanted-eq-ok :
    (o t : Option Item) → wanted o ≡ ok t → (found : Item) × (o ≡ some found) × (t ≡ some found)
unfolding wanted
wanted-eq-ok none t h = cc
wanted-eq-ok (some found) t h = (found, refl, sym (ok-inj h))

module _ {World : Type 0} (redis : Redis World) (codec : Codec) where
  -- A session that lives, and a user that is not its own.
  module _ (call : ScriptCall) (w : World) (sid : Text) (item : Item)
      (live : load redis codec call w sid ≡ ok (some item)) (user : Text)
      (foreign : item.user ≢ user) where
    stale-apart :
        (other : Text)
        → load redis codec call w other ≡ ok none
        → (session_key_of call other == session_key_of call sid) ≡ false
    stale-apart other h = elim (Bool-cases (session_key_of call other == session_key_of call sid)) [
      | inl same ↦ absurd (
          none-ne-some (
            ap ok (
              load-apart redis codec call w sid other item none live h
                (==→eq (session_key_of call other) (session_key_of call sid) same))))
      | inr apart ↦ apart
    ]

    item-apart :
        (other : Text) (found : Item)
        → load redis codec call w other ≡ ok (some found)
        → found.user ≡ user
        → (found.key == session_key_of call sid) ≡ false
    item-apart other found h mine = elim (Bool-cases (found.key == session_key_of call sid)) [
      | inl same ↦
          let at_key = (load-id redis codec call w other found h).1 in
          let e : found ≡ item = some-inj (
            load-apart redis codec call w sid other item (some found) live h
              (sym at_key ∙ ==→eq found.key (session_key_of call sid) same)) in
          absurd (foreign (sym (ap (λ x. x.user) e) ∙ mine))
      | inr apart ↦ apart
    ]

    -- What the scan of the index finds stands under other keys.
    pub record IsApart (s : Scan) : Type 0 where
      pub stale :
          All (λ other. (session_key_of call other == session_key_of call sid) ≡ false) s.stale
      pub active : AreApart s.active (session_key_of call sid)

    pub scan-IsApart :
        (id : Text) (ms : Members) (s : Scan)
        → scan redis codec call w user id ms ≡ ok s
        → IsApart s
    unfolding scan
    scan-IsApart id [] s h = subst IsApart (ok-inj h) (record { stale = tt; active = tt })
    scan-IsApart id ((other, score) ∷ ms) s h =
        let (o, loaded, h) = >>=-eq-ok _ _ h in
        let (rest, scanned, h) = >>=-eq-ok _ _ h in
        classified o rest loaded (scan-IsApart id ms rest scanned) h
      where
        classified :
            (o : Option Item) (rest : Scan)
            → load redis codec call w other ≡ ok o
            → IsApart rest
            → classify user id other score o rest ≡ ok s
            → IsApart s
        classified none rest loaded apart h =
            subst IsApart (ok-inj h)
              (record { stale = (stale-apart other loaded, apart.stale); active = apart.active })
        classified (some found) rest loaded apart h =
            let (mine, h) =
              refuse-eq-ok (not (found.user == user) || not (has_score score found.created)) corrupt
                _ h in
            subst IsApart (ok-inj h) (record {
              stale = apart.stale;
              active = (
                item-apart other found loaded (==→eq found.user user (ground arith)),
                apart.active,
              );
            })

    entry-set_px_apart :
        (raw : Text) (v : World)
        → (call.key == session_key_of call sid) ≡ false
        → 0 < pos_part call.ttl
        → redis.entry (redis.set_px call.key raw (pos_part call.ttl) v) (session_key_of call sid)
          ≡ redis.entry v (session_key_of call sid)
    entry-set_px_apart raw v h lasting =
        rw
          (
            redis.entry-set_px call.key raw (pos_part call.ttl) (session_key_of call sid) v lasting,
            h,
          )
          refl

    entry-created_apart :
        (index : Text) (now : ℕ) (active : List Item) (v : World)
        → (index == session_key_of call sid) ≡ false
        → AreApart active (session_key_of call sid)
        → (call.key == session_key_of call sid) ≡ false
        → 0 < pos_part call.ttl
        → redis.entry (created redis codec call index now active v).1 (session_key_of call sid)
          ≡ redis.entry v (session_key_of call sid)
    unfolding created
    entry-created_apart index now active v h k apart lasting =
        let key = session_key_of call sid in
        let (kept, v') = evict redis codec call.limit index active v in
        let raw = codec.encode_row (created_row redis codec call now) in
        let v'' = redis.set_px call.key raw (pos_part call.ttl) v' in
        entry-settle_apart redis codec index now (kept ++ created_item redis codec call now ∷ [])
          key (redis.zadd index now call.id v'') h
        ∙ rw (redis.entry-zadd index now call.id key v'', h)
            (entry-set_px_apart raw v' apart lasting)
        ∙ entry-evict_apart redis codec call.limit index active key v h k

    -- What an operation needs to leave the session alone.
    abbrev pub Clears : ScriptOp → Type 0
    Clears create_op = ((call.key == session_key_of call sid) ≡ false) × (0 < pos_part call.ttl)
    Clears renew_op = ((call.key == session_key_of call sid) ≡ false) × (0 < pos_part call.ttl)
    Clears revoke_op = (call.key == session_key_of call sid) ≡ false
    Clears _ = Unit

    pub entry-finish_apart :
        (op : ScriptOp) (index : Text) (now : ℕ) (target : Option Item) (active : List Item)
        (v : World)
        → (index == session_key_of call sid) ≡ false
        → AreApart active (session_key_of call sid)
        → Clears op
        → redis.entry
            (finish redis codec op call index now target active v).1
            (session_key_of call sid)
          ≡ redis.entry v (session_key_of call sid)
    unfolding finish renewed
    entry-finish_apart create_op index now target active v h k (apart, lasting) =
        entry-created_apart index now active v h k apart lasting
    entry-finish_apart renew_op index now none active v h k c = refl
    entry-finish_apart renew_op index now (some target) active v h k (apart, lasting) =
        let expires = now + pos_part call.ttl in
        let raw = codec.encode_row (record target.row { expires_at = whole (pos expires) }) in
        entry-settle_apart redis codec index now (renewed_items call.id expires active)
          (session_key_of call sid) (redis.set_px call.key raw (pos_part call.ttl) v) h
        ∙ entry-set_px_apart raw v apart lasting
    entry-finish_apart lookup_op index now none active v h k c = refl
    entry-finish_apart lookup_op index now (some target) active v h k c =
        entry-settle_apart redis codec index now active (session_key_of call sid) v h
    entry-finish_apart revoke_op index now target active v h k apart =
        entry-settle_apart redis codec index now (revoked_items call.id active)
          (session_key_of call sid) (redis.zrem index call.id (redis.del call.key v)) h
        ∙ rw (redis.entry-zrem index call.id (session_key_of call sid) (redis.del call.key v), h)
            (entry-del_apart redis codec call.key (session_key_of call sid) v apart)
    entry-finish_apart revoke_user_op index now target active v h k c =
        entry-del_apart redis codec index (session_key_of call sid) (drop_keys redis codec active v)
          h
        ∙ entry-drop_keys_apart redis codec active (session_key_of call sid) v k
    entry-finish_apart list_op index now target active v h k c =
        entry-settle_apart redis codec index now active (session_key_of call sid) v h

    -- The target of a renewal or a revocation is another session.
    pub target-apart :
        (t : Option Item)
        → (load redis codec call w call.id >>= wanted) ≡ ok t
        → user_of call t ≡ user
        → call.key ≡ session_key_of call call.id
        → (call.key == session_key_of call sid) ≡ false
    target-apart t h mine at =
        let (o, loaded, h) = >>=-eq-ok _ wanted h in
        let (found, is_found, is_target) = wanted-eq-ok o t h in
        let loaded' = loaded ∙ ap ok is_found in
        subst (λ k. (k == session_key_of call sid) ≡ false)
          ((load-id redis codec call w call.id found loaded').1 ∙ sym at)
          (item-apart call.id found loaded' (sym (ap (user_of call) is_target) ∙ mine))

    pub free-apart :
        is_absent (redis.entry w call.key) ≡ true → (call.key == session_key_of call sid) ≡ false
    unfolding load load_entry
    free-apart free = elim (Bool-cases (call.key == session_key_of call sid)) [
      | inl same ↦ absurd (
          live-present (
            subst (λ k. is_absent (redis.entry w k) ≡ true)
              (==→eq call.key (session_key_of call sid) same) free))
      | inr apart ↦ apart
    ]
      where
        of_entry :
            (e : Entry)
            → load_entry redis codec w (session_key_of call sid) sid e ≡ ok (some item)
            → ¬ (is_absent e ≡ true)
        of_entry absent h = absurd (none-ne-some h)
        of_entry other_kind h = λ k. cc
        of_entry (string_value raw expiry) h = λ k. cc
        of_entry (sorted_set ms expiry) h = λ k. cc

        live-present : ¬ (is_absent (redis.entry w (session_key_of call sid)) ≡ true)
        live-present = of_entry (redis.entry w (session_key_of call sid)) live
