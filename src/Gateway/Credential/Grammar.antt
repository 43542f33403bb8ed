-- ===== src/Gateway/Credential/Grammar.antt =====
-- The tokens that the loop of `BearerCredential` lets pass are those of the grammar of RFC 6750.
use stellarmesh_sdk.Base.{
  ℕ, ◌≡◌, ◌≢◌, refl, sym, ap, subst, ◌↔◌, inl, inr, Bool, true, false, [], ◌∷◌, ◌++◌, eqb, eqb→eq,
  All, Bool-cases, arith,
}
use stellarmesh_sdk.Text.{Text, contains_byte}
use stellarmesh_sdk.Gateway.Credential.{is_token68_byte, scan_token, is_token68}

-- At least one character of the alphabet, then any number of `=`.
pub record IsB64Token (token : Text) : Type 0 where
  pub body : Text
  pub padding : Text
  pub parts : token ≡ body ++ padding
  pub given : body ≢ []
  pub alphabet : All (λ c. is_token68_byte c ≡ true) body
  pub padded : All (λ c. c ≡ b'=') padding

equals_sign : is_token68_byte b'=' ≡ false
unfolding is_token68_byte contains_byte
equals_sign = refl

scan_padding : (s : Text) → scan_token true s ≡ true → All (λ c. c ≡ b'=') s
unfolding scan_token
scan_padding [] h = tt
scan_padding (c ∷ s) h = elim (Bool-cases (eqb c b'=')) [
  | inl e ↦ (eqb→eq c b'=' e, scan_padding s (rw (e, scan_token) at h))
  | inr e ↦ absurd (true-ne-false (rw (e, scan_token) at h))
]
  where
    true-ne-false : false ≢ true
    true-ne-false h = cc

padding-scan : (s : Text) → All (λ c. c ≡ b'=') s → scan_token true s ≡ true
unfolding scan_token
padding-scan [] h = refl
padding-scan (c ∷ s) h = rw h.0 (padding-scan s h.1)

padding-scan_false : (s : Text) → All (λ c. c ≡ b'=') s → scan_token false s ≡ true
unfolding scan_token
padding-scan_false [] h = refl
padding-scan_false (c ∷ s) h = rw h.0 (padding-scan s h.1)

alphabet-ne-padding : (c : ℕ) → is_token68_byte c ≡ true → eqb c b'=' ≡ false
alphabet-ne-padding c h = elim (Bool-cases (eqb c b'=')) [
  | inl e ↦ absurd (clash (subst (λ x. is_token68_byte x ≡ true) (eqb→eq c b'=' e) h) equals_sign)
  | inr e ↦ e
]
  where
    clash : {b : Bool} → b ≡ true → b ≢ false
    clash e e' = cc

-- A character of the alphabet is passed over before the padding.
scan-alphabet :
    (c : ℕ) (s : Text) → is_token68_byte c ≡ true → scan_token false (c ∷ s) ≡ scan_token false s
unfolding scan_token
scan-alphabet c s h = rw (alphabet-ne-padding c h, h, scan_token) refl

body-scan :
    (body padding : Text)
    → All (λ c. is_token68_byte c ≡ true) body
    → scan_token false padding ≡ true
    → scan_token false (body ++ padding) ≡ true
body-scan [] padding h e = e
body-scan (c ∷ body) padding h e =
    subst (λ b. b ≡ true) (sym (scan-alphabet c (body ++ padding) h.0))
      (body-scan body padding h.1 e)

scan_parts :
    (s : Text)
    → scan_token false s ≡ true
    → (body : Text) × (padding : Text) × (s ≡ body ++ padding)
      × All (λ c. is_token68_byte c ≡ true) body
      × All (λ c. c ≡ b'=') padding
unfolding scan_token
scan_parts [] h = ([], [], refl, tt, tt)
scan_parts (c ∷ s) h = elim (Bool-cases (eqb c b'=')) [
  | inl e ↦ ([], c ∷ s, refl, tt, (eqb→eq c b'=' e, scan_padding s (rw (e, scan_token) at h)))
  | inr e ↦ elim (Bool-cases (is_token68_byte c)) [
    | inl found ↦
        let (body, padding, parts, alphabet, padded) =
          scan_parts s (subst (λ b. b ≡ true) (scan-alphabet c s found) h) in
        (c ∷ body, padding, ap (λ t. c ∷ t) parts, (found, alphabet), padded)
    | inr other ↦ absurd (false-ne-true (rw (e, other, scan_token) at h))
  ]
]
  where
    false-ne-true : false ≢ true
    false-ne-true h = cc

body_given :
    (c : ℕ) (s body padding : Text)
    → eqb c b'=' ≡ false
    → c ∷ s ≡ body ++ padding
    → All (λ d. d ≡ b'=') padding
    → body ≢ []
body_given c s [] [] first parts padded e = cc
body_given c s [] (d ∷ padding) first parts (is_padding, _) e =
    let same : c ≡ d = cc in ground arith
body_given c s (d ∷ body) padding first parts padded e = cc

split_token : (token : Text) → is_token68 token ≡ true → IsB64Token token
unfolding is_token68
split_token [] h = cc
split_token (c ∷ s) h =
    let (body, padding, parts, alphabet, padded) = scan_parts (c ∷ s) (ground arith) in
    record {
      body = body;
      padding = padding;
      parts = parts;
      given = body_given c s body padding (ground arith) parts padded;
      alphabet = alphabet;
      padded = padded;
    }

joined_token :
    (body padding : Text)
    → body ≢ []
    → All (λ c. is_token68_byte c ≡ true) body
    → All (λ c. c ≡ b'=') padding
    → is_token68 (body ++ padding) ≡ true
unfolding is_token68
joined_token [] padding given alphabet padded = absurd (given refl)
joined_token (c ∷ body) padding given alphabet padded =
    let scanned = body-scan (c ∷ body) padding alphabet (padding-scan_false padding padded) in
    rw (scanned, alphabet-ne-padding c alphabet.0) refl

-- The character loop of the bearer credential passes exactly the tokens of the grammar: at least
-- one character of the alphabet, then any number of equals signs.
pub is_token68-IsB64Token : (token : Text) → (is_token68 token ≡ true) ↔ IsB64Token token
is_token68-IsB64Token token = (
  split_token token,
  λ b.
      subst (λ s. is_token68 s ≡ true) (sym b.parts)
        (joined_token b.body b.padding b.given b.alphabet b.padded),
)
