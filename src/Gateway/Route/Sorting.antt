-- ===== src/Gateway/Route/Sorting.antt =====
-- The sort of the prefix routes keeps the routes and puts longer prefixes first.
use stellarmesh_sdk.Base.{
  if◌then◌else◌, ◌≤◌, ◌≡◌, refl, sym, subst, true, false, List, [], ◌∷◌, ltb, All, All-map, Some,
  here, there, Bool-cases, inl, inr, arith,
}
use stellarmesh_sdk.Gateway.Route.{CompiledRoute, insert_route, sort_routes, prefix_length}

abbrev pub Descending : List CompiledRoute → Type 0
Descending [] = Unit
Descending (c ∷ cs) = All (λ d. prefix_length d ≤ prefix_length c) cs × Descending cs

module _ (c d : CompiledRoute) (ds : List CompiledRoute) where
  insert-skips :
      ltb (prefix_length c) (prefix_length d) ≡ true
      → insert_route c (d ∷ ds) ≡ d ∷ insert_route c ds
  unfolding insert_route
  insert-skips h = rw (h, if◌then◌else◌) refl

  insert-stops :
      ltb (prefix_length c) (prefix_length d) ≡ false → insert_route c (d ∷ ds) ≡ c ∷ d ∷ ds
  unfolding insert_route
  insert-stops h = rw (h, if◌then◌else◌) refl

module _ {κ} (P : CompiledRoute → Type κ) where
  All-insert :
      (c : CompiledRoute) (cs : List CompiledRoute) → P c → All P cs → All P (insert_route c cs)
  unfolding insert_route
  All-insert c [] h hs = (h, tt)
  All-insert c (d ∷ ds) h hs = elim (Bool-cases (ltb (prefix_length c) (prefix_length d))) [
    | inl less ↦ subst (All P) (sym (insert-skips c d ds less)) (hs.0, All-insert c ds h hs.1)
    | inr other ↦ subst (All P) (sym (insert-stops c d ds other)) (h, hs)
  ]

  All-sort : (cs : List CompiledRoute) → All P cs → All P (sort_routes cs)
  unfolding sort_routes
  All-sort [] h = tt
  All-sort (c ∷ cs) h = All-insert c (sort_routes cs) h.0 (All-sort cs h.1)

  All-uninsert :
      (c : CompiledRoute) (cs : List CompiledRoute) → All P (insert_route c cs) → P c × All P cs
  unfolding insert_route
  All-uninsert c [] h = (h.0, tt)
  All-uninsert c (d ∷ ds) h = elim (Bool-cases (ltb (prefix_length c) (prefix_length d))) [
    | inl less ↦
        let (hd, rest) = subst (All P) (insert-skips c d ds less) h in
        let (hc, hds) = All-uninsert c ds rest in (hc, (hd, hds))
    | inr other ↦ subst (All P) (insert-stops c d ds other) h
  ]

  pub All-unsort : (cs : List CompiledRoute) → All P (sort_routes cs) → All P cs
  unfolding sort_routes
  All-unsort [] h = tt
  All-unsort (c ∷ cs) h = let (hc, hs) = All-uninsert c (sort_routes cs) h in (hc, All-unsort cs hs)

  Some-uninsert :
      (c : CompiledRoute) (cs : List CompiledRoute) → Some P (insert_route c cs) → Some P (c ∷ cs)
  unfolding insert_route
  Some-uninsert c [] h = h
  Some-uninsert c (d ∷ ds) h = elim (Bool-cases (ltb (prefix_length c) (prefix_length d))) [
    | inl less ↦ swap (subst (Some P) (insert-skips c d ds less) h) (Some-uninsert c ds)
    | inr other ↦ subst (Some P) (insert-stops c d ds other) h
  ]
    where
      swap :
          {c d : CompiledRoute} {ds es : List CompiledRoute}
          → Some P (d ∷ es)
          → (Some P es → Some P (c ∷ ds))
          → Some P (c ∷ d ∷ ds)
      swap (here h) k = there (here h)
      swap (there h) k = past (k h)
        where
          past :
              {c d : CompiledRoute} {ds : List CompiledRoute}
              → Some P (c ∷ ds)
              → Some P (c ∷ d ∷ ds)
          past (here h) = here h
          past (there h) = there (there h)

  pub Some-unsort : (cs : List CompiledRoute) → Some P (sort_routes cs) → Some P cs
  unfolding sort_routes
  Some-unsort [] h = h
  Some-unsort (c ∷ cs) h = onward (Some-uninsert c (sort_routes cs) h) (Some-unsort cs)
    where
      onward :
          {c : CompiledRoute} {cs ds : List CompiledRoute}
          → Some P (c ∷ cs)
          → (Some P cs → Some P ds)
          → Some P (c ∷ ds)
      onward (here h) k = here h
      onward (there h) k = there (k h)

insert-Descending :
    (c : CompiledRoute) (cs : List CompiledRoute) → Descending cs → Descending (insert_route c cs)
unfolding insert_route
insert-Descending c [] h = (tt, tt)
insert-Descending c (d ∷ ds) h = elim (Bool-cases (ltb (prefix_length c) (prefix_length d))) [
  | inl less ↦ subst Descending (sym (insert-skips c d ds less)) (
    All-insert (λ e. prefix_length e ≤ prefix_length d) c ds (ground arith) h.0,
    insert-Descending c ds h.1,
  )
  | inr other ↦
      subst Descending (sym (insert-stops c d ds other))
        ((ground arith, All-map (λ e le. below c d e other le) ds h.0), h)
]
  where
    below :
        (c d e : CompiledRoute)
        → ltb (prefix_length c) (prefix_length d) ≡ false
        → prefix_length e ≤ prefix_length d
        → prefix_length e ≤ prefix_length c
    below c d e other le = ground arith

pub sort-Descending : (cs : List CompiledRoute) → Descending (sort_routes cs)
unfolding sort_routes
sort-Descending [] = tt
sort-Descending (c ∷ cs) = insert-Descending c (sort_routes cs) (sort-Descending cs)
