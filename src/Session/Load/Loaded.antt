-- ===== src/Session/Load/Loaded.antt =====
-- What the script of sdk/go/gateway/sessionauth/store.go has checked of a session that it loads.
use stellarmesh_sdk.Base.{
  ◌∙◌, sym, Result, some-inj, ◌≡◌, refl, ap, subst, ℕ, Bool, true, false, not, ◌||◌, Option, none,
  some, leb, if◌then◌else◌, ok, ok-inj, refuse-eq-ok, >>=-eq-ok, arith,
}
use stellarmesh_sdk.Text.Laws.{==→eq}
use stellarmesh_sdk.Text.{Text}
use stellarmesh_sdk.Gateway.Route.{is_empty}
use stellarmesh_sdk.Session.Redis.{Entry, absent, string_value, sorted_set, other_kind, Redis}
use stellarmesh_sdk.Session.Call.{ScriptCall}
use stellarmesh_sdk.Session.Load.{
  Field, word, whole, unknown, Stop, Row, Codec, corrupt, Item, session_key_of, equals,
  is_version_one, are_good_times, is_good_id, is_good_identity, has_expiry, need, word_of,
  natural_of, load_string, load_entry, load,
}

equals-inj : (f : Field) (s t : Text) → equals f s ≡ true → equals f t ≡ true → s ≡ t
equals-inj (word x) s t h k = sym (==→eq x s h) ∙ ==→eq x t k
equals-inj (whole z) s t h k = cc
equals-inj unknown s t h k = cc

pub none-ne-some :
    {item : Item} → ¬ (◌≡◌ {A = Result Stop (Option Item)} (ok none) (ok (some item)))
none-ne-some h = cc

-- The item of a session that lives.
record IsLoaded (key sid raw : Text) (r : Row) (item : Item) : Type 0 where
  has_id : item.id ≡ sid
  has_key : item.key ≡ key
  has_user : is_empty item.user ≡ false

need-eq-ok {ℓ} : {A : Type ℓ} (o : Option A) {a : A} → need o ≡ ok a → o ≡ some a
unfolding need
need-eq-ok none h = cc
need-eq-ok (some a) h = ap some (ok-inj h)

abbrev Outcome : (key sid raw : Text) (r : Row) → Option Item → Type 0
Outcome key sid raw r none = Unit
Outcome key sid raw r (some item) = IsLoaded key sid raw r item

module _ {World : Type 0} (redis : Redis World) (codec : Codec) where
  -- A string that passes the checks names the ID under which it was looked up.
  load_string-Outcome :
      (w : World) (key sid raw : Text) (expiry : Option ℕ) (o : Option Item)
      → load_string redis codec w key sid raw expiry ≡ ok o
      → (r : Row) × (codec.decode_row raw ≡ some r)
        × (equals r.id sid ≡ true)
        × Outcome key sid raw r o
  unfolding load_string
  load_string-Outcome w key sid raw expiry o h =
      let (r, decoded, h) = >>=-eq-ok (need (codec.decode_row raw)) _ h in
      let (named, h) =
        refuse-eq-ok (not (is_version_one r.version) || not (equals r.id sid)) corrupt _ h in
      let (identity, is_text, h) = >>=-eq-ok (need (word_of r.identity)) _ h in
      let (hashed, h) =
        refuse-eq-ok (not (equals r.identity_hash (codec.sha1 identity))) corrupt _ h in
      let (user, is_user, h) = >>=-eq-ok (need (word_of r.user_id)) _ h in
      let (filled, h) = refuse-eq-ok (is_empty user) corrupt _ h in
      let (created, is_created, h) = >>=-eq-ok (need (natural_of r.created_at)) _ h in
      let (expires, is_expires, h) = >>=-eq-ok (need (natural_of r.expires_at)) _ h in
      let (timed, h) =
        refuse-eq-ok (not (are_good_times (redis.now w) created expires) || not (is_good_id sid))
          corrupt _ h in
      let (i, read, h) = >>=-eq-ok (need (codec.decode_identity identity)) _ h in
      let (owned, h) =
        refuse-eq-ok (not (is_good_identity i user) || not (has_expiry expiry)) corrupt _ h in
      (
        r,
        need-eq-ok (codec.decode_row raw) decoded,
        ground arith,
        outcome (leb expires (redis.now w))
            (record {
              row = r;
              id = sid;
              user = user;
              created = created;
              expires = expires;
              raw = raw;
              key = key;
            })
            o r (ok-inj h) (record { has_id = refl; has_key = refl; has_user = filled }),
      )
    where
      outcome :
          (is_over : Bool) (item : Item) (o : Option Item) (r : Row)
          → (if is_over then none else some item) ≡ o
          → IsLoaded key sid raw r item
          → Outcome key sid raw r o
      outcome true item o r e l = subst (Outcome key sid raw r) e tt
      outcome false item o r e l = subst (Outcome key sid raw r) e l

  pub load-id :
      (call : ScriptCall) (w : World) (sid : Text) (item : Item)
      → load redis codec call w sid ≡ ok (some item)
      → (item.id ≡ sid) × (item.key ≡ session_key_of call sid) × (is_empty item.user ≡ false)
  unfolding load load_entry
  load-id call w sid item h = of_entry (redis.entry w (session_key_of call sid)) h
    where
      of_entry :
          (e : Entry)
          → load_entry redis codec w (session_key_of call sid) sid e ≡ ok (some item)
          → (item.id ≡ sid) × (item.key ≡ session_key_of call sid) × (is_empty item.user ≡ false)
      of_entry absent h = cc
      of_entry other_kind h = cc
      of_entry (sorted_set ms expiry) h = cc
      of_entry (string_value raw expiry) h =
          let (r, decoded, named, l) =
            load_string-Outcome w (session_key_of call sid) sid raw expiry (some item) h in
          (l.has_id, l.has_key, l.has_user)

  -- Two IDs with one key, of which one is a session that lives.
  pub load-apart :
      (call : ScriptCall) (w : World) (sid other : Text) (item : Item) (o : Option Item)
      → load redis codec call w sid ≡ ok (some item)
      → load redis codec call w other ≡ ok o
      → session_key_of call other ≡ session_key_of call sid
      → o ≡ some item
  unfolding load load_entry
  load-apart call w sid other item o h k same =
      let k' =
        subst (λ key. load_entry redis codec w key other (redis.entry w key) ≡ ok o) same k in
      let e : other ≡ sid =
        of_entry (session_key_of call sid) (redis.entry w (session_key_of call sid)) h k' in
      ok-inj (sym (subst (λ s. load redis codec call w s ≡ ok o) e k) ∙ h)
    where
      of_entry :
          (key : Text) (e : Entry)
          → load_entry redis codec w key sid e ≡ ok (some item)
          → load_entry redis codec w key other e ≡ ok o
          → other ≡ sid
      of_entry key absent h k = absurd (none-ne-some h)
      of_entry key other_kind h k = cc
      of_entry key (sorted_set ms expiry) h k = cc
      of_entry key (string_value raw expiry) h k =
          let (r, decoded, named, l) = load_string-Outcome w key sid raw expiry (some item) h in
          let (r', decoded', named', l') = load_string-Outcome w key other raw expiry o k in
          let e : r ≡ r' = some-inj (sym decoded ∙ decoded') in
          equals-inj r.id other sid (rw e named') named
