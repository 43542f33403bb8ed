-- ===== src/Gateway/Route/Best.antt =====
-- The static table finds the best of the routes that were configured.
use stellarmesh_sdk.Base.{
  sym, ◌≢◌, subst, ap, All-of, All-zip, ◌≤◌, ◌≡◌, refl, Bool, true, false, not, ◌&&◌, List, [], ◌∷◌,
  Option, none, some, leb, if◌then◌else◌, All, All-map, Some, here, there, Some-map, find,
  find-some, find-none, Bool-cases, inl, inr, arith, ok, >>=-eq-ok, Option-cases,
}
use stellarmesh_sdk.Gateway.Route.Sorting.{Descending, All-unsort, Some-unsort, sort-Descending}
use stellarmesh_sdk.Gateway.Types.{Route, Request}
use stellarmesh_sdk.Gateway.Route.{
  CompiledRoute, StaticRouteResolver, sort_routes, prefix_length, is_exact, exact_routes,
  prefix_routes, sorted_table, compile_table, new_static_route_resolver, exact_matches,
  prefix_matches, first_of_both, resolve_route,
}

-- The route's path and methods match the request.
abbrev pub matches : Request → CompiledRoute → Bool
matches q c = if is_exact c then exact_matches q c else prefix_matches q c

-- Exact routes stand before prefixes, and longer prefixes before shorter ones.
abbrev pub outranks : CompiledRoute → CompiledRoute → Bool
outranks c d =
    if is_exact c then true else (not (is_exact d) && leb (prefix_length d) (prefix_length c))

abbrev pub IsBest : List CompiledRoute → Request → CompiledRoute → Type 0
IsBest cs q c = All (λ d. matches q d ≡ true → outranks c d ≡ true) cs

-- What a lookup in the routes must answer.
abbrev pub Answers : List CompiledRoute → Request → Option Route → Type 0
Answers cs q none = All (λ d. matches q d ≡ false) cs
Answers cs q (some r) = Some (λ c. (c.route ≡ r) × (matches q c ≡ true) × IsBest cs q c) cs

module _ {κ} (P : CompiledRoute → Type κ) where
  All-exact :
      (cs : List CompiledRoute) → All P (exact_routes cs) → All (λ c. is_exact c ≡ true → P c) cs
  unfolding exact_routes
  All-exact [] h = tt
  All-exact (c ∷ cs) h = elim (Bool-cases (is_exact c)) [
    | inl e ↦
        let h' : All P (c ∷ exact_routes cs) = rw (e, if◌then◌else◌) at h in
        (λ _. h'.0, All-exact cs h'.1)
    | inr e ↦ (λ e'. cc, All-exact cs (rw (e, if◌then◌else◌) at h))
  ]

  All-prefixes :
      (cs : List CompiledRoute) → All P (prefix_routes cs) → All (λ c. is_exact c ≡ false → P c) cs
  unfolding prefix_routes
  All-prefixes [] h = tt
  All-prefixes (c ∷ cs) h = elim (Bool-cases (is_exact c)) [
    | inl e ↦ (λ e'. cc, All-prefixes cs (rw (e, if◌then◌else◌) at h))
    | inr e ↦
        let h' : All P (c ∷ prefix_routes cs) = rw (e, if◌then◌else◌) at h in
        (λ _. h'.0, All-prefixes cs h'.1)
  ]

  Some-marked :
      (b : Bool) {c : CompiledRoute} {cs ds : List CompiledRoute}
      → is_exact c ≡ b
      → Some P (c ∷ cs)
      → (Some P cs → Some (λ c. (is_exact c ≡ b) × P c) ds)
      → Some (λ c. (is_exact c ≡ b) × P c) (c ∷ ds)
  Some-marked b e (here h) k = here (e, h)
  Some-marked b e (there h) k = there (k h)

  Some-exact :
      (cs : List CompiledRoute)
      → Some P (exact_routes cs)
      → Some (λ c. (is_exact c ≡ true) × P c) cs
  unfolding exact_routes
  Some-exact [] h = elim h [ ]
  Some-exact (c ∷ cs) h = elim (Bool-cases (is_exact c)) [
    | inl e ↦ Some-marked true e (rw (e, if◌then◌else◌) at h) (Some-exact cs)
    | inr e ↦ there (Some-exact cs (rw (e, if◌then◌else◌) at h))
  ]

  Some-prefixes :
      (cs : List CompiledRoute)
      → Some P (prefix_routes cs)
      → Some (λ c. (is_exact c ≡ false) × P c) cs
  unfolding prefix_routes
  Some-prefixes [] h = elim h [ ]
  Some-prefixes (c ∷ cs) h = elim (Bool-cases (is_exact c)) [
    | inl e ↦ there (Some-prefixes cs (rw (e, if◌then◌else◌) at h))
    | inr e ↦ Some-marked false e (rw (e, if◌then◌else◌) at h) (Some-prefixes cs)
  ]

find-longest :
    (p : CompiledRoute → Bool) (cs : List CompiledRoute) (c : CompiledRoute)
    → Descending cs
    → find p cs ≡ some c
    → All (λ d. p d ≡ true → prefix_length d ≤ prefix_length c) cs
find-longest p [] c h e = tt
find-longest p (x ∷ xs) c h e = elim (Bool-cases (p x)) [
  | inl found ↦
      let same : x ≡ c = first_found (rw (found, find) at e) in
      (
        λ _. ground arith,
        All-map (λ d le _. subst (λ y. prefix_length d ≤ prefix_length y) same le) xs h.0,
      )
  | inr other ↦ (λ e'. cc, find-longest p xs c h.1 (rw (other, find) at e))
]
  where
    first_found : {x c : CompiledRoute} → some x ≡ some c → x ≡ c
    first_found e = cc

true-ne-false : {b : Bool} → b ≡ true → b ≢ false
true-ne-false e e' = cc

module _ (cs : List CompiledRoute) (q : Request) where
  exact-Answers :
      (c : CompiledRoute)
      → find (exact_matches q) (exact_routes cs) ≡ some c
      → Answers cs q (some c.route)
  exact-Answers c e =
      Some-map
        (λ x (is, (same, found)). (
          ap (λ (y : CompiledRoute). y.route) same,
          rw (is, if◌then◌else◌) found,
          All-of (λ d _. rw (is, if◌then◌else◌) refl) cs,
        ))
        (Some-exact _ cs (find-some (exact_matches q) (exact_routes cs) e))

  no_exact :
      find (exact_matches q) (exact_routes cs) ≡ none
      → All (λ d. is_exact d ≡ true → exact_matches q d ≡ false) cs
  no_exact e = All-exact _ cs (find-none (exact_matches q) (exact_routes cs) e)

  prefix-Answers :
      (c : CompiledRoute)
      → find (exact_matches q) (exact_routes cs) ≡ none
      → find (prefix_matches q) (sort_routes (prefix_routes cs)) ≡ some c
      → Answers cs q (some c.route)
  prefix-Answers c none_exact e =
      let longest = All-prefixes _ cs (
        All-unsort _ (prefix_routes cs) (
          find-longest (prefix_matches q) (sort_routes (prefix_routes cs)) c
            (sort-Descending (prefix_routes cs)) e)) in
      let both = All-zip _ _ cs (no_exact none_exact) longest in
      Some-map
        (λ x (is, (same, found)). (
          ap (λ (y : CompiledRoute). y.route) same,
          rw (is, if◌then◌else◌) found,
          All-map (λ d (unmatched, shorter) matched. ranked x d c is same unmatched shorter matched)
              cs both,
        ))
        (Some-prefixes _ cs (
          Some-unsort _ (prefix_routes cs)
            (find-some (prefix_matches q) (sort_routes (prefix_routes cs)) e)))
    where
      ranked :
          (x d c : CompiledRoute)
          → is_exact x ≡ false
          → x ≡ c
          → (is_exact d ≡ true → exact_matches q d ≡ false)
          → (is_exact d ≡ false → prefix_matches q d ≡ true → prefix_length d ≤ prefix_length c)
          → matches q d ≡ true
          → outranks x d ≡ true
      ranked x d c is same unmatched shorter matched = elim (Bool-cases (is_exact d)) [
        | inl e ↦ absurd (true-ne-false (rw (e, if◌then◌else◌) at matched) (unmatched e))
        | inr e ↦
            let le = shorter e (rw (e, if◌then◌else◌) at matched) in
            let le' : prefix_length d ≤ prefix_length x =
              subst (λ y. prefix_length d ≤ prefix_length y) (sym same) le in
            rw (is, e, if◌then◌else◌) (ground arith)
      ]

  unmatched-Answers :
      find (exact_matches q) (exact_routes cs) ≡ none
      → find (prefix_matches q) (sort_routes (prefix_routes cs)) ≡ none
      → Answers cs q none
  unmatched-Answers e e' =
      let prefixes = All-prefixes _ cs (
        All-unsort _ (prefix_routes cs)
          (find-none (prefix_matches q) (sort_routes (prefix_routes cs)) e')) in
      All-map (λ d (a, b). unmatched_both d a b) cs (All-zip _ _ cs (no_exact e) prefixes)
    where
      unmatched_both :
          (d : CompiledRoute)
          → (is_exact d ≡ true → exact_matches q d ≡ false)
          → (is_exact d ≡ false → prefix_matches q d ≡ false)
          → matches q d ≡ false
      unmatched_both d a b = elim (Bool-cases (is_exact d)) [
        | inl e ↦ rw (e, if◌then◌else◌) (a e)
        | inr e ↦ rw (e, if◌then◌else◌) (b e)
      ]

  pub sorted_table-Answers : Answers cs q (resolve_route (sorted_table cs) q)
  unfolding resolve_route first_of_both
  sorted_table-Answers = elim (Option-cases (find (exact_matches q) (exact_routes cs))) [
    | inl e ↦ elim (Option-cases (find (prefix_matches q) (sort_routes (prefix_routes cs)))) [
      | inl e' ↦ rw (e, e') (unmatched-Answers e e')
      | inr (c, e') ↦ rw (e, e') (prefix-Answers c e e')
    ]
    | inr (c, e) ↦ rw e (exact-Answers c e)
  ]

-- Where the static table was built from the configured routes, it answers every request with one
-- of the compiled routes that match it such that no matching route is better (an exact path
-- precedes the prefixes, a longer prefix a shorter one), and with no route only if none matches.
pub resolve_route-Answers :
    (routes : List Route) (t : StaticRouteResolver) (q : Request)
    → new_static_route_resolver routes ≡ ok t
    → (cs : List CompiledRoute) × (compile_table 0 [] routes ≡ ok cs)
      × Answers cs q (resolve_route t q)
unfolding new_static_route_resolver
resolve_route-Answers [] t q e = cc
resolve_route-Answers (r ∷ rs) t q e =
    let (cs, compiled, e') = >>=-eq-ok (compile_table 0 [] (r ∷ rs)) _ e in
    let same : sorted_table cs ≡ t = cc in
    (cs, compiled, subst (λ t. Answers cs q (resolve_route t q)) same (sorted_table-Answers cs q))
