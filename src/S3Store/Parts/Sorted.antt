-- ===== src/S3Store/Parts/Sorted.antt =====
-- The parts that `validateAndSortParts` lets through, and those that it rejects.
use mathlib.Core.List.{Perm}
use mathlib.Core.List.Perm
use stellarmesh_sdk.Base.{
  ◌≡◌, ◌≢◌, refl, All-of, true, false, List, [], ◌∷◌, ℤ, pos, negsuc, ltℤ, Result, ok, err, ◌>>◌,
  any, All, All-map, Bool-cases, inl, inr, arith,
}
use stellarmesh_sdk.Text.{Text, trim_space}
use stellarmesh_sdk.Gateway.Route.{is_empty}
use stellarmesh_sdk.ObjectStorage.{StorageError}
use stellarmesh_sdk.ObjectStorage.Requests.{CompletedPart}
use stellarmesh_sdk.S3Store.Validation.{validate_part_number}
use stellarmesh_sdk.S3Store.Parts.{
  same_number, check_parts, insert_part, sort_parts, validate_and_sort_parts,
}

-- A number from 1 to 10000, and an entity tag that is not blank.
pub record IsPart (q : CompletedPart) : Type 0 where
  pub is_positive_number : ltℤ q.part_number (pos 1) ≡ false
  pub is_small_number : ltℤ (pos 10_000) q.part_number ≡ false
  pub is_tagged : is_empty (trim_space q.etag) ≡ false

abbrev pub Increasing : List CompletedPart → Type 0
Increasing [] = Unit
Increasing (q ∷ qs) = All (λ r. ltℤ q.part_number r.part_number ≡ true) qs × Increasing qs

-- No number stands twice.
abbrev pub DistinctNumbers : List CompletedPart → Type 0
DistinctNumbers [] = Unit
DistinctNumbers (q ∷ qs) =
    All (λ r. same_number r.part_number q.part_number ≡ false) qs × DistinctNumbers qs

module _ (q : CompletedPart) where
  insert-Perm : (rs : List CompletedPart) → Perm (insert_part q rs) (q ∷ rs)
  unfolding insert_part
  insert-Perm [] = Perm.rfl
  insert-Perm (r ∷ rs) = elim (Bool-cases (ltℤ r.part_number q.part_number)) [
    | inl e ↦ rw (e, insert_part) (Perm.trans (Perm.cons r (insert-Perm rs)) (Perm.swap q r rs))
    | inr e ↦ rw (e, insert_part) Perm.rfl
  ]

  All-insert {κ} :
      (P : CompletedPart → Type κ) (rs : List CompletedPart)
      → P q
      → All P rs
      → All P (insert_part q rs)
  unfolding insert_part
  All-insert P [] h hs = (h, tt)
  All-insert P (r ∷ rs) h hs = elim (Bool-cases (ltℤ r.part_number q.part_number)) [
    | inl e ↦ rw (e, insert_part) (hs.0, All-insert P rs h hs.1)
    | inr e ↦ rw (e, insert_part) (h, hs)
  ]

sort-Perm : (qs : List CompletedPart) → Perm (sort_parts qs) qs
unfolding sort_parts
sort-Perm [] = Perm.rfl
sort-Perm (q ∷ qs) = Perm.trans (insert-Perm q (sort_parts qs)) (Perm.cons q (sort-Perm qs))

All-sort {κ} :
    (P : CompletedPart → Type κ) (qs : List CompletedPart) → All P qs → All P (sort_parts qs)
unfolding sort_parts
All-sort P [] h = tt
All-sort P (q ∷ qs) h = All-insert q P (sort_parts qs) h.0 (All-sort P qs h.1)

ltℤ-trans : (a b c : ℤ) → ltℤ a b ≡ true → ltℤ b c ≡ true → ltℤ a c ≡ true
ltℤ-trans (pos a) (pos b) (pos c) h k = ground arith
ltℤ-trans (pos a) (pos b) (negsuc c) h k = k
ltℤ-trans (pos a) (negsuc b) c h k = cc
ltℤ-trans (negsuc a) (pos b) (pos c) h k = refl
ltℤ-trans (negsuc a) (pos b) (negsuc c) h k = cc
ltℤ-trans (negsuc a) (negsuc b) (pos c) h k = refl
ltℤ-trans (negsuc a) (negsuc b) (negsuc c) h k = ground arith

ltℤ-total : (a b : ℤ) → ltℤ a b ≡ false → same_number a b ≡ false → ltℤ b a ≡ true
ltℤ-total a b h other = ground arith

insert-Increasing :
    (q : CompletedPart) (rs : List CompletedPart)
    → Increasing rs
    → All (λ r. same_number r.part_number q.part_number ≡ false) rs
    → Increasing (insert_part q rs)
unfolding insert_part
insert-Increasing q [] hs others = (tt, tt)
insert-Increasing q (r ∷ rs) hs others = elim (Bool-cases (ltℤ r.part_number q.part_number)) [
  | inl e ↦
      rw (e, insert_part)
        (
          All-insert q (λ s. ltℤ r.part_number s.part_number ≡ true) rs e hs.0,
          insert-Increasing q rs hs.1 others.1,
        )
  | inr e ↦
      let before = ltℤ-total r.part_number q.part_number e others.0 in
      rw (e, insert_part)
        (
          (
            before,
            All-map (λ s k. ltℤ-trans q.part_number r.part_number s.part_number before k) rs hs.0,
          ),
          hs,
        )
]

sort-Increasing : (qs : List CompletedPart) → DistinctNumbers qs → Increasing (sort_parts qs)
unfolding sort_parts
sort-Increasing [] h = tt
sort-Increasing (q ∷ qs) h =
    insert-Increasing q (sort_parts qs) (sort-Increasing qs h.1)
      (All-sort (λ r. same_number r.part_number q.part_number ≡ false) qs h.0)

-- The number was not seen.
abbrev IsFresh : List ℤ → CompletedPart → Type 0
IsFresh seen q = any (same_number q.part_number) seen ≡ false

unseen :
    (n : ℤ) (seen : List ℤ) (qs : List CompletedPart)
    → All (IsFresh (n ∷ seen)) qs
    → All (λ r. same_number r.part_number n ≡ false) qs × All (IsFresh seen) qs
unseen n seen [] h = (tt, tt)
unseen n seen (q ∷ qs) h =
    let (others, rest) = unseen n seen qs h.1 in ((ground arith, others), (ground arith, rest))

seen_now :
    (n : ℤ) (seen : List ℤ) (qs : List CompletedPart)
    → All (λ r. same_number r.part_number n ≡ false) qs
    → All (IsFresh seen) qs
    → All (IsFresh (n ∷ seen)) qs
seen_now n seen [] h k = tt
seen_now n seen (q ∷ qs) h k = (ground (arith, h.0, k.0), seen_now n seen qs h.1 k.1)

module _ (operation key : Text) where
  check_parts-eq-ok :
      (seen : List ℤ) (qs : List CompletedPart)
      → check_parts operation key seen qs ≡ ok tt
      → All (IsFresh seen) qs × DistinctNumbers qs × All IsPart qs
  unfolding check_parts validate_part_number
  check_parts-eq-ok seen [] h = (tt, tt, tt)
  check_parts-eq-ok seen (q ∷ qs) h =
      let rest : check_parts operation key (q.part_number ∷ seen) qs ≡ ok tt = ground arith in
      let (fresh, distinct, parts) = check_parts-eq-ok (q.part_number ∷ seen) qs rest in
      let (others, later) = unseen q.part_number seen qs fresh in
      let part : IsPart q = record {
        is_positive_number = ground arith;
        is_small_number = ground arith;
        is_tagged = ground arith;
      } in
      ((ground arith, later), (others, distinct), (part, parts))

  check_parts-accepts :
      (seen : List ℤ) (qs : List CompletedPart)
      → All (IsFresh seen) qs
      → DistinctNumbers qs
      → All IsPart qs
      → check_parts operation key seen qs ≡ ok tt
  unfolding check_parts validate_part_number
  check_parts-accepts seen [] fresh distinct parts = refl
  check_parts-accepts seen (q ∷ qs) fresh distinct parts =
      let rest =
        check_parts-accepts (q.part_number ∷ seen) qs
          (seen_now q.part_number seen qs distinct.0 fresh.1) distinct.1 parts.1 in
      ground (
        arith, rest, fresh.0, parts.0.is_positive_number, parts.0.is_small_number,
        parts.0.is_tagged,
      )

-- What the check of the parts may give for them.
abbrev pub IsSortOf : List CompletedPart → Result StorageError (List CompletedPart) → Type 0
IsSortOf ps (ok qs) = Perm qs ps × Increasing qs × All IsPart qs × (ps ≢ [])
IsSortOf ps (err e) = ¬ ((ps ≢ []) × DistinctNumbers ps × All IsPart ps)

-- The parts that the check of a multipart completion accepts come back as a permutation in
-- strictly increasing order of their numbers, each from 1 to 10000 with an entity tag that is not
-- blank, and there is one at least; it rejects a list only if that is empty, repeats a number, or
-- has a part that is not such.
pub validate_and_sort_parts-IsSortOf :
    (operation key : Text) (ps : List CompletedPart)
    → IsSortOf ps (validate_and_sort_parts operation key ps)
unfolding validate_and_sort_parts
validate_and_sort_parts-IsSortOf operation key [] = λ h. h.0 refl
validate_and_sort_parts-IsSortOf operation key (p ∷ ps) =
    decided (check_parts operation key [] (p ∷ ps)) refl
  where
    decided :
        (m : Result StorageError (Unit {0}))
        → check_parts operation key [] (p ∷ ps) ≡ m
        → IsSortOf (p ∷ ps) (m >> ok (sort_parts (p ∷ ps)))
    decided (ok u) e =
        let (fresh, distinct, parts) = check_parts-eq-ok operation key [] (p ∷ ps) e in
        (
          sort-Perm (p ∷ ps),
          sort-Increasing (p ∷ ps) distinct,
          All-sort IsPart (p ∷ ps) parts,
          λ h. cc,
        )
    decided (err f) e = λ h.
        let accepted =
          check_parts-accepts operation key [] (p ∷ ps) (All-of (λ q. refl) (p ∷ ps)) h.1 h.2 in
        cc
