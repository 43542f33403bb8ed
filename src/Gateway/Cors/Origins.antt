-- ===== src/Gateway/Cors/Origins.antt =====
-- The origins that the loop of sdk/go/gateway/cors.go compiles.
use stellarmesh_sdk.Base.{
  subst, ◌≡◌, ◌≢◌, refl, sym, Option, none, some, Option-cases, true-ne-false, any, ap, ◌⊎◌, inl,
  inr, Bool, true, false, not, ◌&&◌, ◌||◌, List, [], ◌∷◌, length, if◌then◌else◌, Result, ok, err,
  All, Bool-cases, arith,
}
use stellarmesh_sdk.Text.{Text, ascii, ◌==◌, trim_space, has_text}
use stellarmesh_sdk.Text.Order.{add_key}
use stellarmesh_sdk.Text.Laws.{==→eq}
use stellarmesh_sdk.Gateway.Route.{is_empty}
use stellarmesh_sdk.Gateway.Cors.{
  CorsError, origin_empty, origin_invalid, ParseUrl, ParsedUrl, bare_origin, is_none,
  valid_cors_origin, compile_origins,
}

-- An http or https URL with a host, and with no user, path, query or fragment.
pub record IsBareOrigin (parse : ParseUrl) (o : Text) : Type 0 where
  pub url : ParsedUrl
  pub parsed : parse o ≡ some url
  pub scheme : (url.scheme ≡ ascii "http") ⊎ (url.scheme ≡ ascii "https")
  pub host : url.host ≢ []
  pub user : url.user ≡ none
  pub path : url.path ≡ []
  pub raw_query : url.raw_query ≡ []
  pub fragment : url.fragment ≡ []

-- `*`, which makes the policy a wildcard, or a bare origin.
abbrev pub OriginAllowed : ParseUrl → Bool → Text → Type 0
OriginAllowed parse wildcard o = ((o ≡ ascii "*") × (wildcard ≡ true)) ⊎ IsBareOrigin parse o

is_empty-eq : (s : Text) → is_empty s ≡ true → s ≡ []
is_empty-eq [] h = refl
is_empty-eq (c ∷ s) h = cc

is_empty-ne : (s : Text) → is_empty s ≡ false → s ≢ []
is_empty-ne [] h = cc
is_empty-ne (c ∷ s) h = λ e. cc

is_none-eq : (u : Option Text) → is_none u ≡ true → u ≡ none
is_none-eq none h = refl
is_none-eq (some u) h = cc

web_scheme :
    (s : Text)
    → (s == ascii "http" || s == ascii "https") ≡ true
    → (s ≡ ascii "http") ⊎ (s ≡ ascii "https")
web_scheme s h = elim (Bool-cases (s == ascii "http")) [
  | inl plain ↦ inl (==→eq s (ascii "http") plain)
  | inr other ↦ inr (==→eq s (ascii "https") (ground arith))
]

valid_cors_origin-IsBareOrigin :
    (parse : ParseUrl) (o : Text) → valid_cors_origin parse o ≡ true → IsBareOrigin parse o
unfolding valid_cors_origin bare_origin
valid_cors_origin-IsBareOrigin parse o h = elim (Option-cases (parse o)) [
  | inl broken ↦ absurd (true-ne-false (sym (rw (broken, bare_origin) at h)))
  | inr (u, parsed) ↦
      let bare : bare_origin (some u) ≡ true = rw parsed at h in
      record {
        url = u;
        parsed = parsed;
        scheme = web_scheme u.scheme (ground (arith, bare));
        host = is_empty-ne u.host (ground (arith, bare));
        user = is_none-eq u.user (ground (arith, bare));
        path = is_empty-eq u.path (ground (arith, bare));
        raw_query = is_empty-eq u.raw_query (ground (arith, bare));
        fragment = is_empty-eq u.fragment (ground (arith, bare));
      }
]

module _ (parse : ParseUrl) where
  widen :
      (set : List Text) (w v : Bool)
      → All (OriginAllowed parse w) set
      → All (OriginAllowed parse (w || v)) set
  widen [] w v h = tt
  widen (o ∷ os) w v (inl (e, e'), hs) = (inl (e, ground arith), widen os w v hs)
  widen (o ∷ os) w v (inr e, hs) = (inr e, widen os w v hs)

  All-add_key :
      (w : Bool) (o : Text) (set : List Text)
      → OriginAllowed parse w o
      → All (OriginAllowed parse w) set
      → All (OriginAllowed parse w) (add_key o set)
  unfolding add_key
  All-add_key w o set h hs = elim (Bool-cases (has_text set o)) [
    | inl old ↦ rw (old, if◌then◌else◌) hs
    | inr new ↦ rw (new, if◌then◌else◌) (h, hs)
  ]

  origin_step :
      (blank star valid : Bool) (rest : Result CorsError (List Text × Bool)) (r : List Text × Bool)
      → (if blank
          then err origin_empty
          else if not star && not valid
          then err origin_invalid
          else rest)
        ≡ ok r
      → ((star ≡ true) ⊎ (valid ≡ true)) × (rest ≡ ok r)
  origin_step true star valid rest r h = cc
  origin_step false true valid rest r h = (inl refl, h)
  origin_step false false true rest r h = (inr refl, h)
  origin_step false false false rest r h = cc

  allowed :
      (w : Bool) (o : Text)
      → ((o == ascii "*") ≡ true) ⊎ (valid_cors_origin parse o ≡ true)
      → OriginAllowed parse (w || (o == ascii "*")) o
  allowed w o (inl star) = inl (==→eq o (ascii "*") star, ground arith)
  allowed w o (inr valid) = inr (valid_cors_origin-IsBareOrigin parse o valid)

  pub compile_origins-OriginAllowed :
      (os set result : List Text) (w w' : Bool)
      → compile_origins parse os (set, w) ≡ ok (result, w')
      → All (OriginAllowed parse w) set
      → All (OriginAllowed parse w') result
  unfolding compile_origins
  compile_origins-OriginAllowed [] set result w w' h hs =
      let same : set ≡ result = cc in let same' : w ≡ w' = cc in rw (← same, ← same') hs
  compile_origins-OriginAllowed (o ∷ os) set result w w' h hs =
      let origin = trim_space o in
      let (shown, rest) =
        origin_step (is_empty origin) (origin == ascii "*") (valid_cors_origin parse origin)
          (compile_origins parse os (add_key origin set, w || (origin == ascii "*"))) (result, w')
          h in
      compile_origins-OriginAllowed os (add_key origin set) result (w || (origin == ascii "*")) w'
        rest
        (All-add_key (w || (origin == ascii "*")) origin set (allowed w origin shown)
          (widen set w (origin == ascii "*") hs))

-- What is configured with spaces around it or without.
abbrev pub given : List Text → Text → Bool
given os o = any (λ g. trim_space g == o) os

has_text-add_key :
    (k : Text) (set : List Text) (o : Text)
    → has_text (add_key k set) o ≡ (k == o || has_text set o)
unfolding add_key has_text
has_text-add_key k set o = elim (Bool-cases (has_text set k)) [
  | inl old ↦ elim (Bool-cases (k == o)) [
    | inl same ↦
        let was : has_text set o ≡ true = subst (λ x. has_text set x ≡ true) (==→eq k o same) old in
        rw (old, if◌then◌else◌) ground arith
    | inr other ↦ rw (old, if◌then◌else◌) ground arith
  ]
  | inr new ↦ rw (new, if◌then◌else◌) refl
]

pub compile_origins-given :
    (parse : ParseUrl) (os set result : List Text) (w w' : Bool)
    → compile_origins parse os (set, w) ≡ ok (result, w')
    → (w' ≡ (w || given os (ascii "*")))
      × ((o : Text) → has_text result o ≡ (given os o || has_text set o))
unfolding compile_origins
compile_origins-given parse [] set result w w' h =
    let same : set ≡ result = cc in
    let same' : w ≡ w' = cc in (rw (← same') ground arith, λ o. rw (← same) refl)
compile_origins-given parse (g ∷ os) set result w w' h =
    let origin = trim_space g in
    let star = origin == ascii "*" in
    let (shown, rest) =
      origin_step parse (is_empty origin) star (valid_cors_origin parse origin)
        (compile_origins parse os (add_key origin set, w || star)) (result, w') h in
    let (flag, members) =
      compile_origins-given parse os (add_key origin set) result (w || star) w' rest in
    (ground (arith, flag), λ o. ground (arith, members o, has_text-add_key origin set o))

pub only : (o : Text) (set : List Text) → length set ≡ 1 → has_text set o ≡ true → set ≡ o ∷ []
unfolding has_text
only o [] h e = cc
only o (k ∷ []) h e = ap (λ x. x ∷ []) (==→eq k o (ground arith))
only o (k ∷ l ∷ set) h e = absurd (omega (arith, h))
