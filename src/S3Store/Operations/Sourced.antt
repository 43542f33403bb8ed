-- ===== src/S3Store/Operations/Sourced.antt =====
-- Where an error comes from, for a run of checks and an answer of the provider.
use stellarmesh_sdk.Base.{
  ◌≡◌, refl, List, [], ◌∷◌, Option, false, none, some, ℤ, Result, ok, err, arith,
}
use stellarmesh_sdk.Text.{Text, ascii}
use stellarmesh_sdk.ObjectStorage.{
  Kind, invalid_argument, ProviderError, StorageError, provided, Namespace, kind_of, validate_key,
}
use stellarmesh_sdk.ObjectStorage.Requests.{CompletedPart}
use stellarmesh_sdk.S3Store.{classify_error, wrap_provider_error, error_kind, is_kind, first_kind}
use stellarmesh_sdk.S3Store.Classes.{IsClass, classify_error-IsClass}
use stellarmesh_sdk.S3Store.Validation.{wrap_invalid, validate_upload_id, validate_part_number}
use stellarmesh_sdk.S3Store.Validation.Rejects.{
  IsInvalid, Rejects, >>-Rejects, refuse-Rejects, wrap_invalid-Rejects, validate_key-Rejects,
  IsInvalid-error_kind,
}
use stellarmesh_sdk.S3Store.Parts.{check_parts, sort_parts, validate_and_sort_parts}
use stellarmesh_sdk.S3Store.Provider.{
  S3Call, head_bucket, head_object, get_object, delete_object, put_object, create_multipart,
  complete_multipart, abort_multipart, presign_get, presign_put, presign_part, Provider, Run,
  checked, answered,
}
use stellarmesh_sdk.S3Store.Objects.{missing_upload_id, new_upload}

abbrev pub error_in {ℓ} : {A : Type ℓ} → Result StorageError A → Option StorageError
error_in (ok a) = none
error_in (err e) = some e

abbrev cause_of {ℓ} : {A : Type ℓ} → Result ProviderError A → Option ProviderError
cause_of (ok a) = none
cause_of (err e) = some e

-- A creation without an ID is an error that has neither a status nor a code.
abbrev upload_cause : Result ProviderError (Option Text) → Option ProviderError
upload_cause (err e) = some e
upload_cause (ok none) = some (record { ended = false; status = none; code = none })
upload_cause (ok (some [])) = some (record { ended = false; status = none; code = none })
upload_cause (ok (some (c ∷ id))) = none

-- What the provider has against a call.
abbrev refusal : Provider → S3Call → Option ProviderError
refusal p (head_bucket b) = cause_of (p.bucket_answer (head_bucket b))
refusal p (head_object i) = cause_of (p.object_answer (head_object i))
refusal p (get_object i) = cause_of (p.object_answer (get_object i))
refusal p (delete_object i) = cause_of (p.bucket_answer (delete_object i))
refusal p (put_object i) = cause_of (p.write_answer (put_object i))
refusal p (create_multipart i) = upload_cause (p.upload_answer (create_multipart i))
refusal p (complete_multipart i) = cause_of (p.write_answer (complete_multipart i))
refusal p (abort_multipart i) = cause_of (p.bucket_answer (abort_multipart i))
refusal p (presign_get i ttl) = cause_of (p.signed_answer (presign_get i ttl))
refusal p (presign_put i ttl) = cause_of (p.signed_answer (presign_put i ttl))
refusal p (presign_part i ttl) = cause_of (p.signed_answer (presign_part i ttl))

-- The error of an operation on a key is the one that the provider gave, with its class.
abbrev IsReported : Text → Text → Option ProviderError → Option StorageError → Type 0
IsReported operation key none none = Unit
IsReported operation key (some cause) (some e) =
    (k : Kind) × IsClass cause k × (e ≡ provided k operation key cause) × (error_kind e ≡ k)
IsReported operation key _ _ = ⊥

-- Without a call there is an error, of the checks; with one there is an error just if the provider
-- gave one; and there are no more calls.
abbrev pub IsSourced : Provider → Text → Text → List S3Call → Option StorageError → Type 0
IsSourced p operation key [] (some e) =
    (kind_of e ≡ invalid_argument) × (error_kind e ≡ invalid_argument)
IsSourced p operation key (call ∷ []) found = IsReported operation key (refusal p call) found
IsSourced p operation key _ _ = ⊥

abbrev pub IsSourcedRun {ℓ} : {A : Type ℓ} → Provider → Text → Text → Run A → Type 0
IsSourcedRun p operation key run = IsSourced p operation key run.calls (error_in run.result)

IsInvalid-kind_of : (e : StorageError) → IsInvalid e → kind_of e ≡ invalid_argument
IsInvalid-kind_of e h = ground arith

wrap_provider_error-error_kind :
    (operation key : Text) (e : ProviderError)
    → error_kind (wrap_provider_error operation key e)
      ≡ kind_of (wrap_provider_error operation key e)
unfolding error_kind first_kind wrap_provider_error is_kind
wrap_provider_error-error_kind operation key e = ground arith

pub checked-IsSourced {ℓ κ} :
    {A : Type ℓ} {B : Type κ} (p : Provider) (operation key : Text) (m : Result StorageError A)
    (next : A → Run B)
    → Rejects m
    → ((a : A) → IsSourcedRun p operation key (next a))
    → IsSourcedRun p operation key (checked m next)
checked-IsSourced p operation key (ok a) next hm hn = hn a
checked-IsSourced p operation key (err e) next hm hn =
    (IsInvalid-kind_of e hm, IsInvalid-error_kind e hm)

provided-IsReported :
    (operation key : Text) (cause : ProviderError)
    → IsReported operation key (some cause) (some (wrap_provider_error operation key cause))
unfolding wrap_provider_error
provided-IsReported operation key cause = (
  classify_error cause,
  classify_error-IsClass cause,
  refl,
  wrap_provider_error-error_kind operation key cause,
)

-- What the provider answered to the one call.
pub answered-IsReported {ℓ κ} :
    {A : Type ℓ} {B : Type κ} (operation key : Text) (answer : Result ProviderError A)
    (next : A → B)
    → IsReported operation key
        (cause_of answer)
        (error_in (answered operation key answer (λ a. ok (next a))))
answered-IsReported operation key (ok a) next = tt
answered-IsReported operation key (err e) next = provided-IsReported operation key e

pub new_upload-IsReported :
    (key : Text) (answer : Result ProviderError (Option Text))
    → IsReported
        (ascii "multipart_create")
        key
        (upload_cause answer)
        (error_in (answered (ascii "multipart_create") key answer (new_upload key)))
unfolding new_upload missing_upload_id
new_upload-IsReported key (err e) = provided-IsReported (ascii "multipart_create") key e
new_upload-IsReported key (ok none) = provided-IsReported (ascii "multipart_create") key _
new_upload-IsReported key (ok (some [])) = provided-IsReported (ascii "multipart_create") key _
new_upload-IsReported key (ok (some (c ∷ id))) = tt

check_parts-Rejects :
    (operation key : Text) (seen : List ℤ) (ps : List CompletedPart)
    → Rejects (check_parts operation key seen ps)
unfolding check_parts validate_part_number
check_parts-Rejects operation key seen [] = tt
check_parts-Rejects operation key seen (q ∷ qs) =
    ground (arith, check_parts-Rejects operation key (q.part_number ∷ seen) qs)

pub parts-Rejects :
    (operation key : Text) (ps : List CompletedPart)
    → Rejects (validate_and_sort_parts operation key ps)
unfolding validate_and_sort_parts
parts-Rejects operation key [] = refl
parts-Rejects operation key (q ∷ qs) =
    >>-Rejects (check_parts operation key [] (q ∷ qs)) (ok (sort_parts (q ∷ qs)))
      (check_parts-Rejects operation key [] (q ∷ qs)) tt

pub id-Rejects : (operation key id : Text) → Rejects (validate_upload_id operation key id)
unfolding validate_upload_id
id-Rejects operation key id = refuse-Rejects _ operation key

pub number-Rejects : (operation key : Text) (n : ℤ) → Rejects (validate_part_number operation key n)
unfolding validate_part_number
number-Rejects operation key n = refuse-Rejects _ operation key

pub key-Rejects :
    (n : Namespace) (operation key : Text)
    → Rejects (wrap_invalid operation key (validate_key n key))
key-Rejects n operation key =
    wrap_invalid-Rejects operation key (validate_key n key) (validate_key-Rejects n key)
