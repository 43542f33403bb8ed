-- ===== src/Session/Script/Limit.antt =====
-- The number of sessions that the script of sdk/go/gateway/sessionauth/store.go leaves to a user.
use stellarmesh_sdk.Base.{
  ◌≡◌, sym, subst, ℕ, ◌<◌, ◌≤◌, true, not, ◌||◌, List, [], ◌∷◌, ◌++◌, Option, none, some, ltb,
  length, pos_part, ok, refuse-eq-ok, >>=-eq-ok, ok-inj, All, arith, Bool-cases, inl, inr,
}
use stellarmesh_sdk.Text.{Text, ◌==◌, has_text}
use stellarmesh_sdk.Session.Call.{ScriptCall}
use stellarmesh_sdk.Session.Load.Loaded.{load-id}
use stellarmesh_sdk.Session.Redis.{Members, Redis}
use stellarmesh_sdk.Session.Load.{Codec, corrupt, user_key_of, Item, session_key_of, load}
use stellarmesh_sdk.Session.Script.{
  Scan, classify, scan, has_score, evict, drop_session, drop_stale, created, created_row,
  created_item, created_item,
}
use stellarmesh_sdk.Session.Script.Surviving.{
  members, surviving, outside, surviving_all, outside_all, outside-append, outside-cons_self,
  All-has_text,
}
use stellarmesh_sdk.Session.Script.Kept.{
  drop_session-surviving, members-set_px, members-zadd, members-settle,
}

module _ {World : Type 0} (redis : Redis World) (codec : Codec) where
  -- However many are left out, the index has no more members than the items.
  abbrev Covers : List Item → Text → World → Type 0
  Covers items index w =
      (xs : List Text) → surviving xs (members (redis.entry w index)) ≤ outside xs items

  -- Every member is the ID of an active item or stale.
  scan-covers :
      (call : ScriptCall) (w : World) (user id : Text) (ms : Members) (s : Scan) (xs : List Text)
      → scan redis codec call w user id ms ≡ ok s
      → All (λ t. has_text xs t ≡ true) s.stale
      → surviving xs ms ≤ outside xs s.active
  unfolding scan surviving outside
  scan-covers call w user id [] s xs h stale = omega arith
  scan-covers call w user id ((sid, score) ∷ ms) s xs h stale =
      let (item, loaded, h) = >>=-eq-ok (load redis codec call w sid) _ h in
      let (rest, scanned, h) = >>=-eq-ok (scan redis codec call w user id ms) _ h in
      classified item rest loaded (scan-covers call w user id ms rest xs scanned) h
    where
      classified :
          (item : Option Item) (rest : Scan)
          → load redis codec call w sid ≡ ok item
          → (All (λ t. has_text xs t ≡ true) rest.stale → surviving xs ms ≤ outside xs rest.active)
          → classify user id sid score item rest ≡ ok s
          → surviving xs ((sid, score) ∷ ms) ≤ outside xs s.active
      classified none rest loaded ih h =
          subst
            (λ s.
              All (λ t. has_text xs t ≡ true) s.stale
              → surviving xs ((sid, score) ∷ ms) ≤ outside xs s.active)
            (ok-inj h) (λ known. rw known.0 (ih known.1)) stale
      classified (some item) rest loaded ih h =
          let (good, h) =
            refuse-eq-ok (not (item.user == user) || not (has_score score item.created)) corrupt _
              h in
          let s' : Scan = record rest {
            active = item ∷ rest.active;
            found = sid == id || rest.found;
          } in
          let e : s' ≡ s = ok-inj h in
          let (same, at_key, filled) = load-id redis codec call w sid item loaded in
          let known : All (λ t. has_text xs t ≡ true) rest.stale =
            subst (λ s. All (λ t. has_text xs t ≡ true) s.stale) (sym e) stale in
          subst (λ s. surviving xs ((sid, score) ∷ ms) ≤ outside xs s.active) e
            (rw same (ground (arith, ih known)))

  drop_stale-surviving :
      (call : ScriptCall) (index : Text) (sids xs : List Text) (w : World)
      → surviving xs (members (redis.entry (drop_stale redis codec call index sids w) index))
        ≤ surviving (sids ++ xs) (members (redis.entry w index))
  unfolding drop_stale
  drop_stale-surviving call index [] xs w = omega arith
  drop_stale-surviving call index (sid ∷ sids) xs w =
      let w' = drop_session redis codec index (session_key_of call sid) sid w in
      omega (
        arith,
        drop_stale-surviving call index sids xs w',
        drop_session-surviving redis codec (sids ++ xs) index (session_key_of call sid) sid w,
      )

  evict-bound :
      (limit : ℕ) (index : Text) (items : List Item) (w : World)
      → Covers items index w
      → length (members (redis.entry (evict redis codec limit index items w).1 index))
        ≤ length (evict redis codec limit index items w).0
  unfolding evict
  evict-bound limit index [] w h =
      omega (arith, h [], surviving_all (members (redis.entry w index)), outside_all [])
  evict-bound limit index (item ∷ items) w h =
      elim (Bool-cases (ltb (length (item ∷ items)) limit)) [
        | inl few ↦
            rw (few, evict)
              (omega (
                arith,
                h [],
                surviving_all (members (redis.entry w index)),
                outside_all (item ∷ items),
              ))
        | inr many ↦
            rw (many, evict)
              (evict-bound limit index items (drop_session redis codec index item.key item.id w)
                (λ xs. omega (
                  arith,
                  drop_session-surviving redis codec xs index item.key item.id w,
                  h (item.id ∷ xs),
                  outside-cons_self item xs items,
                )))
      ]

  evict-length :
      (limit : ℕ) (index : Text) (items : List Item) (w : World)
      → 0 < limit
      → length (evict redis codec limit index items w).0 < limit
  unfolding evict
  evict-length limit index [] w h = omega arith
  evict-length limit index (item ∷ items) w h =
      elim (Bool-cases (ltb (length (item ∷ items)) limit)) [
        | inl few ↦ rw (few, evict) (ground arith)
        | inr many ↦
            rw (many, evict)
              (evict-length limit index items (drop_session redis codec index item.key item.id w) h)
      ]

  -- The plan of a creation covers what is left once the stale sessions are dropped.
  pub created-bound :
      (call : ScriptCall) (now : ℕ) (s : Scan) (w : World)
      → 0 < call.limit
      → 0 < pos_part call.ttl
      → (ms : Members) → members (redis.entry w (user_key_of call call.user)) ≡ ms
      → scan redis codec call w call.user call.id ms ≡ ok s
      → length (
          members (
            redis.entry
              (created redis codec call
                (user_key_of call call.user)
                now
                s.active
                (drop_stale redis codec call (user_key_of call call.user) s.stale w)).1
              (user_key_of call call.user)))
        ≤ call.limit
  unfolding created
  created-bound call now s w positive lasting ms listed scanned =
      let index = user_key_of call call.user in
      let w' = drop_stale redis codec call index s.stale w in
      let covers : Covers s.active index w' = λ xs. omega (
        arith,
        drop_stale-surviving call index s.stale xs w,
        subst (λ ms. surviving (s.stale ++ xs) ms ≤ outside (s.stale ++ xs) s.active) (sym listed)
            (scan-covers call w call.user call.id ms s (s.stale ++ xs) scanned
              (All-has_text s.stale xs)),
        outside-append s.stale xs s.active,
      ) in
      let (kept, w'') = evict redis codec call.limit index s.active w' in
      let r = created_row redis codec call now in
      let w3 = redis.set_px call.key (codec.encode_row r) (pos_part call.ttl) w'' in
      omega (
        arith,
        evict-bound call.limit index s.active w' covers,
        evict-length call.limit index s.active w' positive,
        members-set_px redis codec call.key (codec.encode_row r) (pos_part call.ttl) index w''
            lasting,
        members-zadd redis codec index now call.id w3,
        members-settle redis codec index now (kept ++ created_item redis codec call now ∷ [])
            (redis.zadd index now call.id w3),
      )
