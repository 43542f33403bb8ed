-- ===== src/Session/Store/Made.antt =====
-- The keys of sdk/go/gateway/sessionauth/store.go and of its script, and what a store holds.
use stellarmesh_sdk.Base.{
  ap, ◌≡◌, refl, subst, zero, suc, ◌<◌, ◌^◌, ◌-◌, false, ◌||◌, [], ◌∷◌, ◌++◌, ltb, if◌then◌else◌, ℤ,
  pos, negsuc, ltℤ, is_negative, is_zero, pos_part, Result, ok, err, refuse-eq-ok, >>=-eq-ok,
  ok-inj, arith,
}
use stellarmesh_sdk.Text.{Text, ascii}
use stellarmesh_sdk.Gateway.Route.{is_empty}
use stellarmesh_sdk.Session.Key.{
  KeyError, KeyBuilder, delimiter, escape, is_escaped, key, key_prefix, session_key,
  user_sessions_key, new_key_builder, scope_and_id_required,
}
use stellarmesh_sdk.Session.Call.{
  StoreConfig, Store, ScriptOp, script_call, milliseconds, new_store, check_client, built,
  scope_required, limit_invalid,
}
use stellarmesh_sdk.Session.Load.{lua_escape, session_key_of, user_key_of}

-- `escape` in Lua and in Go.
pub lua_escape-escape : (b : KeyBuilder) (s : Text) → lua_escape (delimiter b) s ≡ escape b s
unfolding lua_escape escape is_escaped
lua_escape-escape b [] = refl
lua_escape-escape b (c ∷ s) = rw (lua_escape-escape b s) refl

pub key-prefixed :
    (b : KeyBuilder) (scope kind id k : Text)
    → key b scope kind id ≡ ok k
    → key_prefix b scope kind ++ lua_escape (delimiter b) id ≡ k
unfolding key
key-prefixed b scope kind id k h =
    let (given, h) = refuse-eq-ok _ scope_and_id_required _ h in
    rw (lua_escape-escape b id) (ok-inj h)

pub key-eq-ok :
    (b : KeyBuilder) (scope kind id : Text)
    → (is_empty scope || is_empty id) ≡ false
    → key b scope kind id ≡ ok (key_prefix b scope kind ++ lua_escape (delimiter b) id)
unfolding key
key-eq-ok b scope kind id h = rw (h, lua_escape-escape b id) refl

pub session_key_of-key :
    (s : Store) (op : ScriptOp) (id user : Text) (ttl : ℤ) (identity sid k : Text)
    → session_key s.keys s.scope sid ≡ ok k
    → session_key_of (script_call s op id user ttl identity) sid ≡ k
unfolding script_call session_key
session_key_of-key s op id user ttl identity sid k h =
    key-prefixed s.keys s.scope (ascii "session") sid k h

pub key-scoped :
    (b : KeyBuilder) (scope kind id k : Text) → key b scope kind id ≡ ok k → is_empty scope ≡ false
unfolding key
key-scoped b scope kind id k h =
    let (given, h) = refuse-eq-ok (is_empty scope || is_empty id) scope_and_id_required _ h in
    ground arith

-- The keys that the script builds in Lua, from the prefixes and the separator of a call, for a
-- session and for the sessions of a user are those that the key builder of the store gives in Go.
pub script_call-keys :
    (s : Store) (op : ScriptOp) (id user : Text) (ttl : ℤ) (identity sid owner k l : Text)
    → session_key s.keys s.scope sid ≡ ok k
    → user_sessions_key s.keys s.scope owner ≡ ok l
    → (session_key_of (script_call s op id user ttl identity) sid ≡ k)
      × (user_key_of (script_call s op id user ttl identity) owner ≡ l)
unfolding script_call session_key user_sessions_key
script_call-keys s op id user ttl identity sid owner k l h h' =
    (key-prefixed s.keys s.scope _ sid k h, key-prefixed s.keys s.scope _ owner l h')

-- A limit that is positive, and a builder that the constructor gives.
pub record IsMade (config : StoreConfig) (s : Store) : Type 0 where
  pub has_limit : 0 < s.limit
  pub has_keys : new_key_builder config.key_separator ≡ ok s.keys

built-eq-ok : (r : Result KeyError KeyBuilder) (b : KeyBuilder) → built r ≡ ok b → r ≡ ok b
unfolding built
built-eq-ok (ok b) c h = ap ok (ok-inj h)
built-eq-ok (err e) c h = cc

pub new_store-IsMade :
    (config : StoreConfig) (s : Store) → new_store config ≡ ok s → IsMade config s
unfolding new_store
new_store-IsMade config s h =
    let (u, usable, h) = >>=-eq-ok (check_client config.client) _ h in
    let (scoped, h) = refuse-eq-ok _ scope_required _ h in
    let (limited, h) = refuse-eq-ok _ limit_invalid _ h in
    let (keys, separated, h) = >>=-eq-ok _ _ h in
    subst (IsMade config) (ok-inj h) (record {
      has_limit = positive config.max_sessions_per_user limited;
      has_keys = built-eq-ok (new_key_builder config.key_separator) keys separated;
    })
  where
    positive :
        (z : ℤ)
        → (is_negative z || ltb (2 ^ 53 - 1) (pos_part z)) ≡ false
        → 0 < (if is_zero z then 10 else pos_part z)
    positive (pos zero) h = omega arith
    positive (pos (suc n)) h = omega arith
    positive (negsuc n) h = cc

pub milliseconds-positive :
    (ttl : ℤ) → ltℤ ttl (pos 1_000_000) ≡ false → 0 < pos_part (milliseconds ttl)
unfolding milliseconds
milliseconds-positive (pos n) h = ground arith
milliseconds-positive (negsuc n) h = cc
