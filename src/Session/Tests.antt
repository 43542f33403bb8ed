-- ===== src/Session/Tests.antt =====
-- Session keys at concrete scopes and IDs.
use stellarmesh_sdk.Base.{◌≡◌, refl, ok, []}
use stellarmesh_sdk.Text.{Text, ascii, contains_byte}
use stellarmesh_sdk.Session.Key.{
  KeyBuilder, is_separator_byte, new_key_builder, is_escaped, escape, key_prefix, key, session_key,
}
use stellarmesh_sdk.Session.Key.Escaping.{IsBytes, all-IsBytes}
use stellarmesh_sdk.Session.Key.Distinct.{key-inj}

abbrev colon : KeyBuilder
colon = ascii ":"

abbrev plain_key : Text
plain_key = ascii "a%3Ab:session:c"

colon_built : new_key_builder [] ≡ ok colon
unfolding new_key_builder is_separator_byte
colon_built = refl

escaped_scope : key colon (ascii "a:b") (ascii "session") (ascii "c") ≡ ok plain_key
unfolding key key_prefix escape is_escaped contains_byte
escaped_scope = refl

escaped_session : session_key colon (ascii "a:b") (ascii "c") ≡ ok plain_key
unfolding session_key key key_prefix escape is_escaped contains_byte
escaped_session = refl

scope-IsBytes : IsBytes (ascii "a:b")
scope-IsBytes = all-IsBytes (ascii "a:b") refl

key-inj_example : (ascii "a:b" ≡ ascii "a:b") × (ascii "c" ≡ ascii "c")
key-inj_example =
    key-inj [] colon colon_built (ascii "session") (ascii "a:b") (ascii "c") (ascii "a:b")
      (ascii "c") plain_key
      (scope-IsBytes, scope-IsBytes, all-IsBytes (ascii "c") refl, all-IsBytes (ascii "c") refl)
      escaped_scope escaped_scope
