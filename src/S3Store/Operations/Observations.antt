-- ===== src/S3Store/Operations/Observations.antt =====
-- What the deferred `observe` of each operation in sdk/go/objectstorage/s3store/operations.go reports.
use mathlib.Core.Option
use stellarmesh_sdk.Base.{
  ◌≡◌, refl, ◌-◌, Bool, true, false, List, [], ◌∷◌, Option, none, some, ℤ, pos, Result, ok, err,
}
use stellarmesh_sdk.Text.{Text, ascii}
use stellarmesh_sdk.ObjectStorage.{StorageError, Kind}
use stellarmesh_sdk.ObjectStorage.Requests.{Object, Observation}
use stellarmesh_sdk.S3Store.{error_kind}
use stellarmesh_sdk.S3Store.Provider.{Provider, Client, Clock, observe}
use stellarmesh_sdk.S3Store.Operations.{
  check_bucket, stat, get, put, delete, sign_get, sign_put, create_upload, sign_part,
  complete_upload, abort_upload,
}
use stellarmesh_sdk.S3Store.Operations.Confined.{
  Operation, check_op, stat_op, get_op, put_op, delete_op, sign_get_op, sign_put_op,
  create_upload_op, sign_part_op, complete_upload_op, abort_upload_op,
}
use stellarmesh_sdk.S3Store.Operations.Sourced.{error_in}
use stellarmesh_sdk.S3Store.Operations.Errors.{error_of}

-- The size of the object that `Get` returns.
got_bytes : Result StorageError Object → ℤ
got_bytes (ok o) = o.info.size
got_bytes (err e) = pos 0

unfoldable pub observations_of :
    (Text → Bool) → Provider → Client → Clock → Operation → List Observation
unfolding got_bytes
observations_of b p c t check_op = observe c t (ascii "check") (pos 0) (check_bucket b p c).result
observations_of b p c t (stat_op r) = observe c t (ascii "stat") (pos 0) (stat b p c r).result
observations_of b p c t (get_op r) =
    observe c t (ascii "get") (got_bytes (get b p c r).result) (get b p c r).result
observations_of b p c t (put_op r) = observe c t (ascii "put") r.size (put b p c r).result
observations_of b p c t (delete_op r) = observe c t (ascii "delete") (pos 0) (delete b p c r).result
observations_of b p c t (sign_get_op r) =
    observe c t (ascii "presign_get") (pos 0) (sign_get b p c t r).result
observations_of b p c t (sign_put_op r) =
    observe c t (ascii "presign_put") r.size (sign_put b p c t r).result
observations_of b p c t (create_upload_op r) =
    observe c t (ascii "multipart_create") (pos 0) (create_upload b p c r).result
observations_of b p c t (sign_part_op r) =
    observe c t (ascii "multipart_presign_part") (pos 0) (sign_part b p c t r).result
observations_of b p c t (complete_upload_op r) =
    observe c t (ascii "multipart_complete") (pos 0) (complete_upload b p c r).result
observations_of b p c t (abort_upload_op r) =
    observe c t (ascii "multipart_abort") (pos 0) (abort_upload b p c r).result

abbrev is_none {ℓ} : {A : Type ℓ} → Option A → Bool
is_none none = true
is_none (some a) = false

-- One report of the outcome to an observer that is there, and none to one that is not.
abbrev pub IsReport : Bool → Option StorageError → List Observation → Type 0
IsReport false error observations = observations ≡ []
IsReport true error observations =
    (o : Observation) × (observations ≡ o ∷ [])
    × (o.success ≡ is_none error)
    × (o.error_kind ≡ Option.map error_kind error)

abbrev report : Clock → Text → ℤ → Option Kind → Observation
report t operation bytes kind = record {
  operation = operation;
  success = is_none kind;
  duration = t.finished - t.started;
  bytes = bytes;
  error_kind = kind;
}

observe-IsReport {ℓ} :
    {A : Type ℓ} (c : Client) (t : Clock) (operation : Text) (bytes : ℤ)
    (result : Result StorageError A) (observer : Bool)
    → c.observer ≡ observer
    → IsReport observer (error_in result) (observe c t operation bytes result)
unfolding observe
observe-IsReport c t operation bytes (ok a) false h = rw (h, observe) refl
observe-IsReport c t operation bytes (err e) false h = rw (h, observe) refl
observe-IsReport c t operation bytes (ok a) true h =
    (report t operation bytes none, rw (h, observe) refl, refl, refl)
observe-IsReport c t operation bytes (err e) true h =
    (report t operation bytes (some (error_kind e)), rw (h, observe) refl, refl, refl)

-- With an observer every operation of the S3 client is reported exactly once, as a success just if
-- it returns no error, and else with the kind of the error that it returns; without an observer
-- nothing is reported.
pub observations_of-IsReport :
    (is_base64 : Text → Bool) (p : Provider) (c : Client) (t : Clock) (o : Operation)
    → IsReport c.observer (error_of is_base64 p c t o) (observations_of is_base64 p c t o)
unfolding observations_of error_of
observations_of-IsReport b p c t check_op = observe-IsReport c t (ascii "check") _ _ _ refl
observations_of-IsReport b p c t (stat_op r) = observe-IsReport c t (ascii "stat") _ _ _ refl
observations_of-IsReport b p c t (get_op r) = observe-IsReport c t (ascii "get") _ _ _ refl
observations_of-IsReport b p c t (put_op r) = observe-IsReport c t (ascii "put") _ _ _ refl
observations_of-IsReport b p c t (delete_op r) = observe-IsReport c t (ascii "delete") _ _ _ refl
observations_of-IsReport b p c t (sign_get_op r) =
    observe-IsReport c t (ascii "presign_get") _ _ _ refl
observations_of-IsReport b p c t (sign_put_op r) =
    observe-IsReport c t (ascii "presign_put") _ _ _ refl
observations_of-IsReport b p c t (create_upload_op r) =
    observe-IsReport c t (ascii "multipart_create") _ _ _ refl
observations_of-IsReport b p c t (sign_part_op r) =
    observe-IsReport c t (ascii "multipart_presign_part") _ _ _ refl
observations_of-IsReport b p c t (complete_upload_op r) =
    observe-IsReport c t (ascii "multipart_complete") _ _ _ refl
observations_of-IsReport b p c t (abort_upload_op r) =
    observe-IsReport c t (ascii "multipart_abort") _ _ _ refl
