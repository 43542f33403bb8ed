-- ===== src/S3Store/Parts.antt =====
-- `validateAndSortParts` of sdk/go/objectstorage/s3store/validation.go.
pub mod Sorted
use stellarmesh_sdk.Base.{
  ℕ, Bool, true, false, List, [], ◌∷◌, if◌then◌else◌, ℤ, ltℤ, Result, ok, err, ◌>>=◌, ◌>>◌, any,
}
use stellarmesh_sdk.Text.{Text, trim_space}
use stellarmesh_sdk.Gateway.Route.{is_empty}
use stellarmesh_sdk.ObjectStorage.{StorageError, invalid}
use stellarmesh_sdk.ObjectStorage.Requests.{CompletedPart}
use stellarmesh_sdk.S3Store.Validation.{check, validate_part_number}

abbrev pub same_number : ℤ → ℤ → Bool
same_number a b = if ltℤ a b then false else if ltℤ b a then false else true

-- The loop over the parts, with the numbers that were seen.
unfoldable pub check_parts :
    Text → Text → List ℤ → List CompletedPart → Result StorageError (Unit {0})
check_parts operation key seen [] = ok tt
check_parts operation key seen (p ∷ ps) =
    validate_part_number operation key p.part_number
    >> (check operation key (is_empty (trim_space p.etag))
        >> (check operation key (any (same_number p.part_number) seen)
            >> check_parts operation key (p.part_number ∷ seen) ps))

-- One step of `sort.Slice`, whose order of equal numbers is open: there are none.
unfoldable pub insert_part : CompletedPart → List CompletedPart → List CompletedPart
insert_part p [] = p ∷ []
insert_part p (q ∷ qs) =
    if ltℤ q.part_number p.part_number then q ∷ insert_part p qs else p ∷ q ∷ qs

unfoldable pub sort_parts : List CompletedPart → List CompletedPart
sort_parts [] = []
sort_parts (p ∷ ps) = insert_part p (sort_parts ps)

-- `validateAndSortParts`.
unfoldable pub validate_and_sort_parts :
    Text → Text → List CompletedPart → Result StorageError (List CompletedPart)
validate_and_sort_parts operation key [] = err (invalid operation key)
validate_and_sort_parts operation key (p ∷ ps) =
    check_parts operation key [] (p ∷ ps) >> ok (sort_parts (p ∷ ps))
