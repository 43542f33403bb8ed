-- ===== src/Session/Key/Escaping.antt =====
-- The escape of the parts of a session key can be read back, whatever follows a part.
use stellarmesh_sdk.Base.{
  all, ltb, ℕ, ◌/◌, ◌%◌, ◌<◌, ◌≡◌, ◌≢◌, refl, sym, ap, ◌∙◌, inl, inr, true, false, [], ◌∷◌, ◌++◌,
  Bool-cases, arith,
}
use stellarmesh_sdk.Text.{Text, contains_byte}
use stellarmesh_sdk.Session.Key.{KeyBuilder, delimiter, hex_digit, is_escaped, escape}

-- A Go string holds bytes.
abbrev pub IsBytes : Text → Type 0
IsBytes [] = Unit
IsBytes (c ∷ s) = (c < 256) × IsBytes s

pub all-IsBytes : (s : Text) → all (λ c. ltb c 256) s ≡ true → IsBytes s
all-IsBytes [] h = tt
all-IsBytes (c ∷ s) h = (ground arith, all-IsBytes s (ground arith))

hex_digit-inj : (a b : ℕ) → a < 16 → b < 16 → hex_digit a ≡ hex_digit b → a ≡ b
hex_digit-inj a b ha hb e = ground arith

-- What follows an escaped text: nothing, or the separator.
abbrev pub Stops : KeyBuilder → Text → Type 0
Stops b [] = Unit
Stops b (c ∷ s) = (contains_byte (delimiter b) c ≡ true) × (c ≢ b'%')

module _ (b : KeyBuilder) where
  separator-is_escaped : (c : ℕ) → contains_byte (delimiter b) c ≡ true → is_escaped b c ≡ true
  unfolding is_escaped
  separator-is_escaped c h = ground arith

  percent-is_escaped : is_escaped b b'%' ≡ true
  unfolding is_escaped
  percent-is_escaped = refl

  plain-ne-percent : (c : ℕ) → is_escaped b c ≡ false → c ≢ b'%'
  unfolding is_escaped
  plain-ne-percent c h e = ground arith

  escape-plain : (c : ℕ) (s : Text) → is_escaped b c ≡ false → escape b (c ∷ s) ≡ c ∷ escape b s
  unfolding escape
  escape-plain c s h = ground arith

  escape-code :
      (c : ℕ) (s : Text)
      → is_escaped b c ≡ true
      → escape b (c ∷ s) ≡ b'%' ∷ hex_digit (c / 16) ∷ hex_digit (c % 16) ∷ escape b s
  unfolding escape
  escape-code c s h = ground arith

  -- The first byte of an escaped text is no separator.
  Stops-ne-escape : (u : Text) (d : ℕ) (t v : Text) → Stops b u → u ≢ escape b (d ∷ t) ++ v
  Stops-ne-escape u d t v stops e = elim (Bool-cases (is_escaped b d)) [
    | inl code ↦ Stops-ne-percent u _ stops (e ∙ ap (λ x. x ++ v) (escape-code d t code))
    | inr plain ↦ Stops-ne-plain u _ stops plain (e ∙ ap (λ x. x ++ v) (escape-plain d t plain))
  ]
    where
      Stops-ne-percent : (u w : Text) → Stops b u → u ≢ b'%' ∷ w
      Stops-ne-percent [] w stops e = cc
      Stops-ne-percent (c ∷ u) w stops e = stops.1 (ground arith)

      Stops-ne-plain : (u w : Text) {d : ℕ} → Stops b u → is_escaped b d ≡ false → u ≢ d ∷ w
      Stops-ne-plain [] w stops plain e = cc
      Stops-ne-plain (c ∷ u) w stops plain e =
          let h = separator-is_escaped c stops.0 in ground arith

  same_code :
      (c d : ℕ) (x y : Text)
      → c < 256
      → d < 256
      → b'%' ∷ hex_digit (c / 16) ∷ hex_digit (c % 16) ∷ x
        ≡ b'%' ∷ hex_digit (d / 16) ∷ hex_digit (d % 16) ∷ y
      → (c ≡ d) × (x ≡ y)
  same_code c d x y hc hd e =
      let high = hex_digit-inj (c / 16) (d / 16) (omega arith) (omega arith) cc in
      let low = hex_digit-inj (c % 16) (d % 16) (omega arith) (omega arith) cc in (omega arith, cc)

  pub escape-split :
      (s t u v : Text)
      → IsBytes s
      → IsBytes t
      → Stops b u
      → Stops b v
      → escape b s ++ u ≡ escape b t ++ v
      → (s ≡ t) × (u ≡ v)
  unfolding escape
  escape-split [] [] u v hs ht hu hv e = (refl, e)
  escape-split [] (d ∷ t) u v hs ht hu hv e = absurd (Stops-ne-escape u d t v hu e)
  escape-split (c ∷ s) [] u v hs ht hu hv e = absurd (Stops-ne-escape v c s u hv (sym e))
  escape-split (c ∷ s) (d ∷ t) u v hs ht hu hv e =
      let left = λ (x : Text) (q : escape b (c ∷ s) ≡ x). ap (λ (z : Text). z ++ u) q in
      let right = λ (x : Text) (q : escape b (d ∷ t) ≡ x). ap (λ (z : Text). z ++ v) q in
      elim (Bool-cases (is_escaped b c)) [
        | inl p ↦ elim (Bool-cases (is_escaped b d)) [
          | inl q ↦
              let (same, rest) =
                same_code c d (escape b s ++ u) (escape b t ++ v) hs.0 ht.0
                  (sym (left _ (escape-code c s p)) ∙ (e ∙ right _ (escape-code d t q))) in
              let (st, uv) = escape-split s t u v hs.1 ht.1 hu hv rest in (cc, uv)
          | inr q ↦
              let e' = sym (left _ (escape-code c s p)) ∙ (e ∙ right _ (escape-plain d t q)) in
              let percent : d ≡ b'%' = cc in absurd (plain-ne-percent d q percent)
        ]
        | inr p ↦ elim (Bool-cases (is_escaped b d)) [
          | inl q ↦
              let e' = sym (left _ (escape-plain c s p)) ∙ (e ∙ right _ (escape-code d t q)) in
              let percent : c ≡ b'%' = cc in absurd (plain-ne-percent c p percent)
          | inr q ↦
              let e' = sym (left _ (escape-plain c s p)) ∙ (e ∙ right _ (escape-plain d t q)) in
              let rest : escape b s ++ u ≡ escape b t ++ v = cc in
              let (st, uv) = escape-split s t u v hs.1 ht.1 hu hv rest in (cc, uv)
        ]
      ]
