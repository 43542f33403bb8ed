-- ===== src/Session/Script/Isolation.antt =====
-- The script of sdk/go/gateway/sessionauth/store.go leaves the sessions of other users alone.
use stellarmesh_sdk.Base.{
  ◌≡◌, ◌≢◌, refl, sym, ap, subst, ◌∙◌, ◌<◌, false, not, Option, some, pos_part, Result, ok, err,
  refuse-eq-ok, >>=-eq-ok, ok-inj, ◌>>=◌, arith, Bool-cases, inl, inr,
}
use stellarmesh_sdk.Text.{Text, ◌==◌}
use stellarmesh_sdk.Text.Laws.{==→eq}
use stellarmesh_sdk.Gateway.Route.{is_empty}
use stellarmesh_sdk.Session.Redis.{Redis}
use stellarmesh_sdk.Session.Call.{
  ScriptCall, ScriptOp, create_op, lookup_op, renew_op, revoke_op, list_op, revoke_user_op,
}
use stellarmesh_sdk.Session.Load.Loaded.{load-id}
use stellarmesh_sdk.Session.Load.{
  Codec, Stop, corrupt, collision, Item, session_key_of, user_key_of, load,
}
use stellarmesh_sdk.Session.Script.{
  user_of, lost, Plan, scan, find_target, wanted, is_absent, members_of, prepare, drop_stale,
  run_plan, session_script,
}
use stellarmesh_sdk.Session.Script.Apart.{entry-drop_stale_apart}
use stellarmesh_sdk.Session.Script.Foreign.{
  wanted-eq-ok, scan-IsApart, entry-finish_apart, target-apart, free-apart, Clears,
}

module _ {World : Type 0} (redis : Redis World) (codec : Codec) where
  -- How the store addresses the script: a time to live, the session's key, or a user.
  abbrev pub IsAddressed : ScriptOp → ScriptCall → Type 0
  IsAddressed create_op call = (0 < pos_part call.ttl) × (is_empty call.user ≡ false)
  IsAddressed renew_op call = (0 < pos_part call.ttl) × (call.key ≡ session_key_of call call.id)
  IsAddressed revoke_op call = call.key ≡ session_key_of call call.id
  IsAddressed lookup_op call = Unit
  IsAddressed list_op call = is_empty call.user ≡ false
  IsAddressed revoke_user_op call = is_empty call.user ≡ false

  -- The checks passed, and the script works on the sessions of the user.
  abbrev pub ActsFor : ScriptCall → World → Text → Type 0
  ActsFor call w user = (p : Plan) × (prepare redis codec call w ≡ ok p) × (p.user ≡ user)

  loaded-user :
      (call : ScriptCall) (w : World) (t : Option Item)
      → (load redis codec call w call.id >>= wanted) ≡ ok t
      → is_empty (user_of call t) ≡ false
  loaded-user call w t h =
      let (o, loaded, h) = >>=-eq-ok _ wanted h in
      let (found, is_found, is_target) = wanted-eq-ok o t h in
      subst (λ t. is_empty (user_of call t) ≡ false) (sym is_target)
        (load-id redis codec call w call.id found (loaded ∙ ap ok is_found)).2

  target-user :
      (op : ScriptOp) (call : ScriptCall) (w : World) (t : Option Item)
      → IsAddressed op call
      → find_target redis codec op call w ≡ ok t
      → is_empty (user_of call t) ≡ false
  unfolding find_target
  target-user create_op call w t (lasting, filled) h =
      let (free, h) = refuse-eq-ok _ collision _ h in
      subst (λ t. is_empty (user_of call t) ≡ false) (ok-inj h) filled
  target-user lookup_op call w t a h = loaded-user call w t h
  target-user renew_op call w t a h = loaded-user call w t h
  target-user revoke_op call w t a h = loaded-user call w t h
  target-user list_op call w t filled h =
      subst (λ t. is_empty (user_of call t) ≡ false) (ok-inj h) filled
  target-user revoke_user_op call w t filled h =
      subst (λ t. is_empty (user_of call t) ≡ false) (ok-inj h) filled

  target-Clears :
      (call : ScriptCall) (w : World) (sid : Text) (item : Item)
      (live : load redis codec call w sid ≡ ok (some item)) (user : Text)
      (foreign : item.user ≢ user) (op : ScriptOp) (t : Option Item)
      → IsAddressed op call
      → find_target redis codec op call w ≡ ok t
      → user_of call t ≡ user
      → Clears redis codec call w sid item live user foreign op
  unfolding find_target
  target-Clears call w sid item live user foreign create_op t (lasting, filled) h mine =
      let (free, h) = refuse-eq-ok (not (is_absent (redis.entry w call.key))) collision _ h in
      (free-apart redis codec call w sid item live user foreign (ground arith), lasting)
  target-Clears call w sid item live user foreign renew_op t (lasting, at) h mine =
      (target-apart redis codec call w sid item live user foreign t h mine at, lasting)
  target-Clears call w sid item live user foreign revoke_op t at h mine =
      target-apart redis codec call w sid item live user foreign t h mine at
  target-Clears call w sid item live user foreign lookup_op t a h mine = tt
  target-Clears call w sid item live user foreign list_op t a h mine = tt
  target-Clears call w sid item live user foreign revoke_user_op t a h mine = tt

  -- A session that lives is left as it is by a run of the script for other users.
  pub session_script-isolated :
      (call : ScriptCall) (w : World) (sid : Text) (item : Item)
      → load redis codec call w sid ≡ ok (some item)
      → ¬ (ActsFor call w item.user)
      → IsAddressed call.op call
      → ((u : Text) → is_empty u ≡ false → user_key_of call u ≢ session_key_of call sid)
      → redis.entry (session_script redis codec call w).1 (session_key_of call sid)
        ≡ redis.entry w (session_key_of call sid)
  unfolding session_script run_plan prepare
  session_script-isolated call w sid item live idle a apart =
      planned (prepare redis codec call w) refl
    where
      keys_apart :
          (u : Text) → is_empty u ≡ false → (user_key_of call u == session_key_of call sid) ≡ false
      keys_apart u filled = elim (Bool-cases (user_key_of call u == session_key_of call sid)) [
        | inl same ↦
            absurd (apart u filled (==→eq (user_key_of call u) (session_key_of call sid) same))
        | inr other ↦ other
      ]

      planned :
          (r : Result Stop Plan)
          → prepare redis codec call w ≡ r
          → redis.entry (run_plan redis codec call w r).1 (session_key_of call sid)
            ≡ redis.entry w (session_key_of call sid)
      planned (err s) e = refl
      planned (ok p) e =
          let foreign : item.user ≢ p.user = λ same. idle (p, e, sym same) in
          let (t, targeted, h) = >>=-eq-ok _ _ e in
          let (ms, listed, h) =
            >>=-eq-ok (members_of (redis.entry w (user_key_of call (user_of call t)))) _ h in
          let (s, scanned, h) = >>=-eq-ok _ _ h in
          let (kept, h) = refuse-eq-ok (lost t s.found) corrupt _ h in
          let p' : Plan = record { target = t; user = user_of call t; scanned = s } in
          let is_plan : p' ≡ p = ok-inj h in
          let mine : user_of call t ≡ p.user = ap (λ p. p.user) is_plan in
          let filled : is_empty p.user ≡ false =
            subst (λ u. is_empty u ≡ false) mine (target-user call.op call w t a targeted) in
          let scan_apart =
            scan-IsApart redis codec call w sid item live p.user foreign call.id ms p.scanned (
              subst (λ u. scan redis codec call w u call.id ms ≡ ok p.scanned) mine
                (scanned ∙ ap (λ p. ok p.scanned) is_plan)) in
          entry-finish_apart redis codec call w sid item live p.user foreign call.op
            (user_key_of call p.user) (redis.now w) p.target p.scanned.active
            (drop_stale redis codec call (user_key_of call p.user) p.scanned.stale w)
            (keys_apart p.user filled) scan_apart.active
            (target-Clears call w sid item live p.user foreign call.op t a targeted mine)
          ∙ entry-drop_stale_apart redis codec call (user_key_of call p.user) p.scanned.stale
              (session_key_of call sid) w (keys_apart p.user filled) scan_apart.stale
