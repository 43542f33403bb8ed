-- ===== src/Session/Script/Created.antt =====
-- `Create` of sdk/go/gateway/sessionauth/store.go on the script.
use stellarmesh_sdk.Base.{
  ◌≡◌, refl, sym, ap, subst, ◌<◌, ◌≤◌, List, Option, none, length, pos_part, Result, ok, err,
  refuse-eq-ok, >>=-eq-ok, err-ne-ok, ok-inj, ℕ_discrete,
}
use stellarmesh_sdk.Text.{text_discrete}
use stellarmesh_sdk.Session.Redis.{Members, Redis}
use stellarmesh_sdk.Session.Call.{ScriptOp, create_op, ScriptCall, ReplyItem, reply_items}
use stellarmesh_sdk.Session.Load.{Codec, Stop, corrupt, collision, missing, Item, user_key_of}
use stellarmesh_sdk.Session.Script.{
  Plan, user_of, find_target, scan, prepare, lost, run_plan, finish, stopped, drop_stale,
  session_script,
}
use stellarmesh_sdk.Session.Script.Surviving.{members}
use stellarmesh_sdk.Session.Script.Kept.{members_of-members}
use stellarmesh_sdk.Session.Script.Limit.{created-bound}

module _ {World : Type 0} (redis : Redis World) (codec : Codec) where
  find_target-none :
      (op : ScriptOp) (call : ScriptCall) (w : World) (t : Option Item)
      → op ≡ create_op
      → find_target redis codec op call w ≡ ok t
      → t ≡ none
  unfolding find_target
  find_target-none op call w t e =
      subst (λ o. find_target redis codec o call w ≡ ok t → t ≡ none) (sym e)
        (λ h. let (free, h) = refuse-eq-ok _ collision _ h in sym (ok-inj h))

  -- What the checks of a creation have read.
  record IsPrepared (call : ScriptCall) (w : World) (p : Plan) : Type 0 where
    has_user : p.user ≡ call.user
    ms : Members
    has_members : members (redis.entry w (user_key_of call call.user)) ≡ ms
    is_scanned : scan redis codec call w call.user call.id ms ≡ ok p.scanned

  prepare-IsPrepared :
      (call : ScriptCall) (w : World) (p : Plan)
      → call.op ≡ create_op
      → prepare redis codec call w ≡ ok p
      → IsPrepared call w p
  unfolding prepare
  prepare-IsPrepared call w p op h =
      let (t, targeted, h) = >>=-eq-ok _ _ h in
      let no_target = find_target-none call.op call w t op targeted in
      let user : user_of call t ≡ call.user = ap (user_of call) no_target in
      let (ms, listed, h) = >>=-eq-ok _ _ h in
      let (s, scanned, h) = >>=-eq-ok _ _ h in
      let (kept, h) = refuse-eq-ok (lost t s.found) corrupt _ h in
      let p' : Plan = record { target = t; user = user_of call t; scanned = s } in
      let e : p' ≡ p = ok-inj h in
      subst (IsPrepared call w) e (record {
        has_user = user;
        ms = ms;
        has_members =
            subst (λ u. members (redis.entry w (user_key_of call u)) ≡ ms) user
              (members_of-members redis codec (redis.entry w (user_key_of call (user_of call t))) ms
                listed);
        is_scanned = subst (λ u. scan redis codec call w u call.id ms ≡ ok s) user scanned;
      })

  stopped-ne-ok : (s : Stop) (vs : List ReplyItem) → ¬ (reply_items create_op (stopped s) ≡ ok vs)
  unfolding stopped reply_items text_discrete ℕ_discrete
  stopped-ne-ok corrupt vs h = err-ne-ok h
  stopped-ne-ok collision vs h = err-ne-ok h
  stopped-ne-ok missing vs h = err-ne-ok h

  -- After a creation that the script answers with the session, the user has at most as many sessions
  -- as the limit.
  pub session_script-limit :
      (call : ScriptCall) (w : World) (vs : List ReplyItem)
      → call.op ≡ create_op
      → 0 < call.limit
      → 0 < pos_part call.ttl
      → reply_items create_op (session_script redis codec call w).0 ≡ ok vs
      → length
          (members (redis.entry (session_script redis codec call w).1 (user_key_of call call.user)))
        ≤ call.limit
  unfolding session_script run_plan finish
  session_script-limit call w vs op positive lasting h = planned (prepare redis codec call w) refl h
    where
      planned :
          (r : Result Stop (Plan))
          → prepare redis codec call w ≡ r
          → reply_items create_op (run_plan redis codec call w r).0 ≡ ok vs
          → length
              (members (redis.entry (run_plan redis codec call w r).1 (user_key_of call call.user)))
            ≤ call.limit
      planned (err s) e h = absurd (stopped-ne-ok s vs h)
      planned (ok p) e h =
          let q = prepare-IsPrepared call w p op e in
          subst
            (λ u.
              length (
                members (
                  redis.entry
                    (finish redis codec call.op call (user_key_of call u) (redis.now w) p.target
                      p.scanned.active
                      (drop_stale redis codec call (user_key_of call u) p.scanned.stale w)).1
                    (user_key_of call call.user)))
              ≤ call.limit)
            (sym q.has_user)
            (subst
              (λ o.
                length (
                  members (
                    redis.entry
                      (finish redis codec o call (user_key_of call call.user) (redis.now w) p.target
                        p.scanned.active
                        (drop_stale redis codec call (user_key_of call call.user) p.scanned.stale
                          w)).1
                      (user_key_of call call.user)))
                ≤ call.limit)
              (sym op)
              (created-bound redis codec call (redis.now w) p.scanned w positive lasting q.ms
                q.has_members q.is_scanned))
