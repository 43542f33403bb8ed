-- ===== src/Session/Call.antt =====
-- sdk/go/gateway/sessionauth/store.go: the store and its constructor, a call of the script, and what
-- `run` takes a reply for. The reply of Redis is a value; a time is in milliseconds.
use stellarmesh_sdk.Base.{
  ℕ, ◌+◌, ◌-◌, ◌/◌, ◌^◌, Bool, true, false, ◌&&◌, ◌||◌, List, [], ◌∷◌, Option, none, some, ltb, eqb,
  if◌then◌else◌, length, ℤ, pos, negsuc, is_negative, is_zero, pos_part, Result, ok, err, refuse,
  ◌>>=◌, ◌>>◌,
}
use stellarmesh_sdk.Text.{Text, ascii, ◌==◌}
use stellarmesh_sdk.Text.ParseInt.{negated}
use stellarmesh_sdk.Gateway.Route.{is_empty}
use stellarmesh_sdk.Gateway.Types.{Identity}
use stellarmesh_sdk.Session.Key.{
  KeyError, KeyBuilder, new_key_builder, delimiter, key_prefix, session_key, user_sessions_key,
}

pub record Session : Type 0 where
  pub id : Text
  pub identity : Identity
  pub created_at : ℤ
  pub expires_at : ℤ

pub data StoreError : Type 0 where
  client_required cluster_unsupported scope_required limit_invalid : StoreError
  user_required ttl_too_short identity_unencodable random_failed : StoreError
  session_collision corrupt_session redis_failed : StoreError
  key_error : KeyError → StoreError

-- The client that a configuration holds.
pub data ClientKind : Type 0 where
  no_client cluster_client usable_client : ClientKind

pub record StoreConfig : Type 0 where
  pub client : ClientKind
  pub project_scope : Text
  pub key_separator : Text
  pub max_sessions_per_user : ℤ

pub record Store : Type 0 where
  pub scope : Text
  pub keys : KeyBuilder
  pub limit : ℕ

pub check_client : ClientKind → Result StoreError (Unit {0})
check_client no_client = err client_required
check_client cluster_client = err cluster_unsupported
check_client usable_client = ok tt

unfoldable pub built : Result KeyError KeyBuilder → Result StoreError KeyBuilder
built (ok b) = ok b
built (err e) = err (key_error e)

-- `NewStore`.
unfoldable pub new_store : StoreConfig → Result StoreError Store
unfolding check_client built
new_store config =
    let maximum = config.max_sessions_per_user in
    check_client config.client
    >> (refuse (is_empty config.project_scope) scope_required
        >> (refuse (is_negative maximum || ltb (2 ^ 53 - 1) (pos_part maximum)) limit_invalid
            >> (built (new_key_builder config.key_separator) >>= λ keys. ok (record {
              scope = config.project_scope;
              keys = keys;
              limit = if is_zero maximum then 10 else pos_part maximum;
            }))))

pub data ScriptOp : Type 0 where
  create_op lookup_op renew_op revoke_op list_op revoke_user_op : ScriptOp

-- The key and the arguments of the script.
pub record ScriptCall : Type 0 where
  pub key : Text
  pub op : ScriptOp
  pub id : Text
  pub user : Text
  pub ttl : ℤ
  pub identity : Text
  pub limit : ℕ
  pub session_prefix : Text
  pub user_prefix : Text
  pub separator : Text

-- An error, with whether it says SESSION_CORRUPT; or the list that the script returns, with `none` for
-- any other value, and in it a string or another item.
pub data ReplyItem : Type 0 where
  text : Text → ReplyItem
  other : ReplyItem

abbrev pub Reply : Type 0
Reply = Result Bool (Option (List ReplyItem))

abbrev pub key_or_empty : Result KeyError Text → Text
key_or_empty (ok k) = k
key_or_empty (err e) = []

unfoldable pub call_key : Store → ScriptOp → (id user : Text) → Text
call_key s list_op id user = key_or_empty (user_sessions_key s.keys s.scope user)
call_key s revoke_user_op id user = key_or_empty (user_sessions_key s.keys s.scope user)
call_key s _ id user = key_or_empty (session_key s.keys s.scope id)

-- `time.Duration.Milliseconds`.
unfoldable pub milliseconds : ℤ → ℤ
milliseconds (pos n) = pos (n / 1_000_000)
milliseconds (negsuc n) = negated ((n + 1) / 1_000_000)

unfoldable pub script_call : Store → ScriptOp → (id user : Text) → ℤ → Text → ScriptCall
unfolding call_key milliseconds
script_call s op id user ttl identity = record {
  key = call_key s op id user;
  op = op;
  id = id;
  user = user;
  ttl = milliseconds ttl;
  identity = identity;
  limit = s.limit;
  session_prefix = key_prefix s.keys s.scope (ascii "session");
  user_prefix = key_prefix s.keys s.scope (ascii "user_sessions");
  separator = delimiter s.keys;
}

-- The items that follow "ok", by operation; a list has any number.
ok_items : ScriptOp → ℕ → Bool
ok_items create_op n = eqb n 1
ok_items lookup_op n = eqb n 1
ok_items renew_op n = eqb n 1
ok_items revoke_op n = eqb n 0
ok_items revoke_user_op n = eqb n 0
ok_items list_op n = true

may_miss : ScriptOp → Bool
may_miss lookup_op = true
may_miss renew_op = true
may_miss revoke_op = true
may_miss _ = false

is_create : ScriptOp → Bool
is_create create_op = true
is_create _ = false

word_items : ScriptOp → Text → List ReplyItem → Result StoreError (List ReplyItem)
unfolding ok_items may_miss is_create
word_items op word items =
    if word == ascii "ok"
    then if ok_items op (length items) then ok items else err corrupt_session
    else if word == ascii "missing"
    then if eqb (length items) 0 && may_miss op then ok [] else err corrupt_session
    else if word == ascii "collision"
    then if is_create op && eqb (length items) 0 then err session_collision else err corrupt_session
    else err corrupt_session

-- `errors.Is` of an error and `ErrSessionCollision`.
unfoldable pub is_collision : StoreError → Bool
is_collision session_collision = true
is_collision _ = false

-- What `run` makes of the reply.
unfoldable pub reply_items : ScriptOp → Reply → Result StoreError (List ReplyItem)
unfolding word_items
reply_items op (err true) = err corrupt_session
reply_items op (err false) = err redis_failed
reply_items op (ok none) = err corrupt_session
reply_items op (ok (some [])) = err corrupt_session
reply_items op (ok (some (other ∷ items))) = err corrupt_session
reply_items op (ok (some (text word ∷ items))) = word_items op word items
