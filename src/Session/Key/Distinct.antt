-- ===== src/Session/Key/Distinct.antt =====
-- Two session keys are the same only for the same scope, the same kind and the same ID.
use stellarmesh_sdk.Base.{
  ++-cancel, subst, ℕ, ◌≡◌, ◌≢◌, refl, sym, ap, ◌∙◌, inl, inr, Bool, true, false, not, ◌||◌, [],
  ◌∷◌, ◌++◌, eqb, eqb→eq, all, ok, refuse, ◌>>◌, Bool-cases, arith,
}
use mathlib.Core.List.{append_assoc}
use stellarmesh_sdk.Text.{Text, ascii, contains_byte}
use stellarmesh_sdk.Gateway.Route.{is_empty}
use stellarmesh_sdk.Session.Key.{
  separator_invalid, scope_and_id_required, KeyBuilder, is_separator_byte, delimiter,
  new_key_builder, escape, key_prefix, key, session_key, user_sessions_key,
}
use stellarmesh_sdk.Session.Key.Escaping.{IsBytes, Stops, escape-split}

delimiter-delimiter : (b : KeyBuilder) → delimiter b ≡ delimiter (delimiter b)
delimiter-delimiter [] = refl
delimiter-delimiter (c ∷ b) = refl

-- The builders that the constructor gives.
pub new_key_builder-delimiter :
    (separator : Text) (b : KeyBuilder)
    → new_key_builder separator ≡ ok b
    → all is_separator_byte (delimiter b) ≡ true
unfolding new_key_builder
new_key_builder-delimiter separator b e =
    let is_builder : (delimiter separator ≡ b)
        × (all is_separator_byte (delimiter separator) ≡ true) =
      inverted (all is_separator_byte (delimiter separator)) e in
    subst (λ d. all is_separator_byte d ≡ true)
      (delimiter-delimiter separator ∙ ap delimiter is_builder.0) is_builder.1
  where
    inverted :
        (valid : Bool)
        → (refuse (not valid) separator_invalid >> ok (delimiter separator)) ≡ ok b
        → (delimiter separator ≡ b) × (valid ≡ true)
    inverted true h = (cc, refl)
    inverted false h = cc

all-contained :
    (s : Text)
    → all is_separator_byte s ≡ true
    → (c : ℕ) → contains_byte s c ≡ true
    → is_separator_byte c ≡ true
unfolding contains_byte
all-contained [] h c e = cc
all-contained (d ∷ s) h c e = elim (Bool-cases (eqb d c)) [
  | inl same ↦ subst (λ x. is_separator_byte x ≡ true) (eqb→eq d c same) (ground arith)
  | inr other ↦ all-contained s (ground arith) c (ground arith)
]

percent_invalid : is_separator_byte b'%' ≢ true
unfolding is_separator_byte
percent_invalid h = cc

separator_byte-ne-percent : (c : ℕ) → is_separator_byte c ≡ true → c ≢ b'%'
separator_byte-ne-percent c h e = percent_invalid (subst (λ x. is_separator_byte x ≡ true) e h)

contains_byte-here : (c : ℕ) (s : Text) → contains_byte (c ∷ s) c ≡ true
unfolding contains_byte
contains_byte-here c s = ground arith

-- The separator and all that follows it stop an escaped text.
separator-Stops :
    (separator : Text) (b : KeyBuilder)
    → new_key_builder separator ≡ ok b
    → (rest : Text) → Stops b (delimiter b ++ rest)
separator-Stops separator b e rest =
    stops b rest (all-contained (delimiter b) (new_key_builder-delimiter separator b e))
  where
    stops :
        (b : KeyBuilder) (rest : Text)
        → ((c : ℕ) → contains_byte (delimiter b) c ≡ true → is_separator_byte c ≡ true)
        → Stops b (delimiter b ++ rest)
    stops [] rest h = (
      contains_byte-here b':' [],
      separator_byte-ne-percent b':' (h b':' (contains_byte-here b':' [])),
    )
    stops (c ∷ b) rest h =
        (contains_byte-here c b, separator_byte-ne-percent c (h c (contains_byte-here c b)))

session-ne-user : {c d : ℕ} → c ≡ d → c ≡ 115 → d ≢ 117
session-ne-user e c d = omega arith

head-inj : {c d : ℕ} {s t : Text} → c ∷ s ≡ d ∷ t → c ≡ d
head-inj e = cc

key-parts :
    (b : KeyBuilder) (scope kind id k : Text)
    → key b scope kind id ≡ ok k
    → escape b scope ++ (delimiter b ++ (kind ++ (delimiter b ++ escape b id))) ≡ k
unfolding key key_prefix
key-parts b scope kind id k e = regrouped ∙ inverted (is_empty scope || is_empty id) e
  where
    regrouped :
        escape b scope ++ (delimiter b ++ (kind ++ (delimiter b ++ escape b id)))
        ≡ escape b scope ++ delimiter b ++ kind ++ delimiter b ++ escape b id
    regrouped = simp (append_assoc)

    inverted :
        (missing : Bool)
        → (refuse missing scope_and_id_required
            >> ok (escape b scope ++ delimiter b ++ kind ++ delimiter b ++ escape b id))
          ≡ ok k
        → escape b scope ++ delimiter b ++ kind ++ delimiter b ++ escape b id ≡ k
    inverted true h = cc
    inverted false h = cc

module _ (separator : Text) (b : KeyBuilder) (built : new_key_builder separator ≡ ok b) where
  key-scope :
      (scope kind id scope' kind' id' k : Text)
      → IsBytes scope
      → IsBytes scope'
      → key b scope kind id ≡ ok k
      → key b scope' kind' id' ≡ ok k
      → (scope ≡ scope')
        × (kind ++ (delimiter b ++ escape b id) ≡ kind' ++ (delimiter b ++ escape b id'))
  key-scope scope kind id scope' kind' id' k hs hs' e e' =
      let (same, rest) =
        escape-split b scope scope' _ _ hs hs' (separator-Stops separator b built _)
          (separator-Stops separator b built _)
          (key-parts b scope kind id k e ∙ sym (key-parts b scope' kind' id' k e')) in
      (same, ++-cancel (delimiter b) _ _ rest)

-- With a builder that the constructor gives, two keys of one kind are the same text only for the
-- same scope and the same ID.
pub key-inj :
    (separator : Text) (b : KeyBuilder)
    → new_key_builder separator ≡ ok b
    → (kind scope id scope' id' k : Text)
    → IsBytes scope × IsBytes scope' × IsBytes id × IsBytes id'
    → key b scope kind id ≡ ok k
    → key b scope' kind id' ≡ ok k
    → (scope ≡ scope') × (id ≡ id')
key-inj separator b built kind scope id scope' id' k (hs, hs', hi, hi') e e' =
    let (same, rest) = key-scope separator b built scope kind id scope' kind id' k hs hs' e e' in
    let ids = ++-cancel (delimiter b) _ _ (++-cancel kind _ _ rest) in
    (same, (escape-split b id id' [] [] hi hi' tt tt (ap (λ s. s ++ []) ids)).0)

-- With a builder that the constructor gives, a session's key is never the key of a user's
-- sessions, whatever the scopes and the IDs are.
pub session_key-ne-user_sessions_key :
    (separator : Text) (b : KeyBuilder)
    → new_key_builder separator ≡ ok b
    → (scope session scope' user k : Text) → IsBytes scope × IsBytes scope'
    → session_key b scope session ≡ ok k
    → user_sessions_key b scope' user ≢ ok k
unfolding session_key user_sessions_key
session_key-ne-user_sessions_key separator b built scope session scope' user k (hs, hs') e e' =
    let (same, rest) =
      key-scope separator b built scope (ascii "session") session scope' (ascii "user_sessions")
        user k hs hs' e e' in
    session-ne-user (head-inj rest) refl refl
