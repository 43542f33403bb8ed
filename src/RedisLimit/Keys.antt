-- ===== src/RedisLimit/Keys.antt =====
-- The keys of the buckets of sdk/go/gateway/redislimit/limiter.go.
use stellarmesh_sdk.Base.{
  ++-cancel, ◌≡◌, refl, ap, subst, ℕ, ◌<◌, ◌/◌, ◌%◌, [], ◌∷◌, ◌++◌, All, arith,
}
use stellarmesh_sdk.Text.{Text, ascii, trim_space}
use stellarmesh_sdk.Gateway.Types.{RateLimitScope, client_ip, user_id, upstream}
use stellarmesh_sdk.RedisLimit.{scope_text, hex_digit, hex, Limiter, redis_key}

hex_digit-inj : (d e : ℕ) → d < 16 → e < 16 → hex_digit d ≡ hex_digit e → d ≡ e
unfolding hex_digit
hex_digit-inj d e hd he h = ground arith

-- Each element is a byte.
abbrev pub IsBytes : Text → Type 0
IsBytes s = All (λ c. c < 256) s

hex-inj : (s t : Text) → IsBytes s → IsBytes t → hex s ≡ hex t → s ≡ t
unfolding hex
hex-inj [] [] hs ht h = refl
hex-inj [] (d ∷ t) hs ht h = cc
hex-inj (c ∷ s) [] hs ht h = cc
hex-inj (c ∷ s) (d ∷ t) hs ht h =
    let high : hex_digit (c / 16) ≡ hex_digit (d / 16) = cc in
    let low : hex_digit (c % 16) ≡ hex_digit (d % 16) = cc in
    let rest : hex s ≡ hex t = cc in
    let same = hex-inj s t hs.1 ht.1 rest in
    let a = hex_digit-inj (c / 16) (d / 16) (omega (arith, hs.0)) (omega (arith, ht.0)) high in
    let b = hex_digit-inj (c % 16) (d % 16) (omega arith) (omega arith) low in
    let e : c ≡ d = omega arith in cc

abbrev first : Text → ℕ
first [] = 0
first (c ∷ s) = c

abbrev second : Text → ℕ
second [] = 0
second (c ∷ s) = first s

scoped-inj :
    (a b : RateLimitScope) (s t : Text)
    → scope_text a ++ b':' ∷ s ≡ scope_text b ++ b':' ∷ t
    → (a ≡ b) × (s ≡ t)
scoped-inj client_ip client_ip s t h = (refl, ++-cancel (ascii "client_ip:") s t h)
scoped-inj user_id user_id s t h = (refl, ++-cancel (ascii "user_id:") s t h)
scoped-inj upstream upstream s t h = (refl, ++-cancel (ascii "upstream:") s t h)
scoped-inj client_ip user_id s t h = let e = ap first h in absurd (omega arith)
scoped-inj client_ip upstream s t h = let e = ap first h in absurd (omega arith)
scoped-inj user_id client_ip s t h = let e = ap first h in absurd (omega arith)
scoped-inj user_id upstream s t h = let e = ap second h in absurd (omega arith)
scoped-inj upstream client_ip s t h = let e = ap first h in absurd (omega arith)
scoped-inj upstream user_id s t h = let e = ap second h in absurd (omega arith)

-- Where SHA-256 gives bytes, two Redis limiters with one key prefix use the same bucket for two
-- keys only if their scopes are the same and the keys are the same without the spaces around them,
-- or else their digests collide.
pub redis_key-distinct :
    (Rate : Type 0) (sha256 : Text → Text) (l m : Limiter Rate) (key other : Text)
    → ((s : Text) → IsBytes (sha256 s))
    → l.key_prefix ≡ m.key_prefix
    → (sha256 (trim_space key) ≡ sha256 (trim_space other) → trim_space key ≡ trim_space other)
    → redis_key Rate sha256 l key ≡ redis_key Rate sha256 m other
    → (l.scope ≡ m.scope) × (trim_space key ≡ trim_space other)
unfolding redis_key
redis_key-distinct Rate sha256 l m key other bytes prefix free h =
    let tail = ++-cancel (b':' ∷ []) _ _ (
      ++-cancel m.key_prefix _ _ (
        subst
          (λ p.
            p ++ b':' ∷ (scope_text l.scope ++ b':' ∷ hex (sha256 (trim_space key)))
            ≡ m.key_prefix ++ b':' ∷ (scope_text m.scope ++ b':' ∷ hex (sha256 (trim_space other))))
          prefix h)) in
    let (scope, digest) =
      scoped-inj l.scope m.scope (hex (sha256 (trim_space key))) (hex (sha256 (trim_space other)))
        tail in
    (
      scope,
      free (
          hex-inj (sha256 (trim_space key)) (sha256 (trim_space other)) (bytes (trim_space key))
            (bytes (trim_space other)) digest),
    )
