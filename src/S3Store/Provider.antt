-- ===== src/S3Store/Provider.antt =====
-- sdk/go/objectstorage/s3store/client.go: what the adapter hands to the AWS SDK, which is a parameter,
-- and what it reads of the answers. A nil pointer is `none`; `stringPointer` makes one of "".
use stellarmesh_sdk.Base.{
  ℕ, ◌-◌, Bool, true, false, List, [], ◌∷◌, ◌++◌, Option, none, some, ℤ, if◌then◌else◌, Result, ok,
  err, map,
}
use stellarmesh_sdk.Text.{Text}
use stellarmesh_sdk.ObjectStorage.{ProviderError, StorageError, Namespace}
use stellarmesh_sdk.ObjectStorage.Requests.{Metadata, CompletedPart, Observation}
use stellarmesh_sdk.S3Store.{wrap_provider_error, error_kind}

-- `stringPointer`.
unfoldable pub string_pointer : Text → Option Text
string_pointer [] = none
string_pointer (c ∷ s) = some (c ∷ s)

-- `aws.ToString`, `aws.ToInt64` and `aws.ToTime`.
abbrev pub or_zero {ℓ} : {A : Type ℓ} → A → Option A → A
or_zero zero none = zero
or_zero zero (some a) = a

-- The fields of the SDK's inputs that the program sets.
pub record ObjectInput : Type 0 where
  pub bucket : Text
  pub key : Text
  pub version_id : Option Text
  pub range : Option Text
  pub if_match : Option Text

pub record ChecksumInput : Type 0 where
  pub algorithm : Text
  pub crc32 : Option Text
  pub crc32c : Option Text
  pub sha1 : Option Text
  pub sha256 : Option Text

pub record PutInput : Type 0 where
  pub bucket : Text
  pub key : Text
  pub body : Option Text
  pub content_length : ℤ
  pub content_type : Option Text
  pub metadata : Metadata
  pub if_match : Option Text
  pub if_none_match : Option Text
  pub checksum : ChecksumInput

pub record UploadInput : Type 0 where
  pub bucket : Text
  pub key : Text
  pub content_type : Option Text
  pub metadata : Metadata
  pub algorithm : Text

pub record PartInput : Type 0 where
  pub bucket : Text
  pub key : Text
  pub upload_id : Text
  pub part_number : ℤ

pub record CompleteInput : Type 0 where
  pub bucket : Text
  pub key : Text
  pub upload_id : Text
  pub parts : List (Option Text × ℤ)
  pub if_match : Option Text
  pub if_none_match : Option Text

pub record AbortInput : Type 0 where
  pub bucket : Text
  pub key : Text
  pub upload_id : Text

-- A call of `s3API` or, with the lifetime, of `presignAPI`.
pub data S3Call : Type 0 where
  head_bucket : Text → S3Call
  head_object get_object delete_object : ObjectInput → S3Call
  put_object : PutInput → S3Call
  create_multipart : UploadInput → S3Call
  complete_multipart : CompleteInput → S3Call
  abort_multipart : AbortInput → S3Call
  presign_get : ObjectInput → ℤ → S3Call
  presign_put : PutInput → ℤ → S3Call
  presign_part : PartInput → ℤ → S3Call

-- What the program reads of the SDK's outputs.
pub record ChecksumOutput : Type 0 where
  pub crc32 : Option Text
  pub crc32c : Option Text
  pub sha1 : Option Text
  pub sha256 : Option Text

pub record ObjectOutput : Type 0 where
  pub version_id : Option Text
  pub etag : Option Text
  pub content_length : Option ℤ
  pub content_type : Option Text
  pub last_modified : Option ℕ
  pub metadata : Metadata
  pub checksum : ChecksumOutput
  pub body : Text

pub record WriteOutput : Type 0 where
  pub version_id : Option Text
  pub etag : Option Text
  pub checksum : ChecksumOutput

pub record SignedRequest : Type 0 where
  pub method : Text
  pub url : Text
  pub headers : List (Text × List Text)

-- The answers of the SDK; an operation makes at most one call, so each is a value of the call.
pub record Provider : Type 0 where
  pub bucket_answer : S3Call → Result ProviderError (Unit {0})
  pub object_answer : S3Call → Result ProviderError ObjectOutput
  pub write_answer : S3Call → Result ProviderError WriteOutput
  pub upload_answer : S3Call → Result ProviderError (Option Text)
  pub signed_answer : S3Call → Result ProviderError SignedRequest

-- `Client`: the configuration that the operations read, and whether there is an observer.
pub record Client : Type 0 where
  pub namespace : Namespace
  pub default_presign_ttl : ℤ
  pub max_presign_ttl : ℤ
  pub observer : Bool

-- `physicalKey`.
unfoldable pub physical_key : Client → Text → Text
physical_key c key = c.namespace.prefix ++ key

-- What an operation does: its calls of the SDK, in order, and its result.
pub record Run {ℓ} (A : Type ℓ) : Type ℓ where
  pub calls : List S3Call
  pub result : Result StorageError A

abbrev pub checked {ℓ κ} : {A : Type ℓ} {B : Type κ} → Result StorageError A → (A → Run B) → Run B
checked (ok a) next = next a
checked (err e) next = record { calls = []; result = err e }

abbrev pub answered {ℓ κ} :
    {A : Type ℓ} {B : Type κ}
    → Text
    → Text
    → Result ProviderError A
    → (A → Result StorageError B)
    → Result StorageError B
answered operation key (ok a) next = next a
answered operation key (err e) next = err (wrap_provider_error operation key e)

abbrev pub request {ℓ} : {A : Type ℓ} → S3Call → Result StorageError A → Run A
request call result = record { calls = call ∷ []; result = result }

-- The times that an operation reads of the clock.
pub record Clock : Type 0 where
  pub started : ℕ
  pub signed : ℕ
  pub finished : ℕ

-- `observe`, for an operation with a result.
unfoldable pub observe {ℓ} :
    {A : Type ℓ} → Client → Clock → Text → ℤ → Result StorageError A → List Observation
observe c t operation bytes (ok a) =
    if c.observer
    then record {
      operation = operation;
      success = true;
      duration = t.finished - t.started;
      bytes = bytes;
      error_kind = none;
    }
      ∷ []
    else []
observe c t operation bytes (err e) =
    if c.observer
    then record {
      operation = operation;
      success = false;
      duration = t.finished - t.started;
      bytes = bytes;
      error_kind = some (error_kind e);
    }
      ∷ []
    else []

-- `completedParts`.
unfoldable pub completed_parts : List CompletedPart → List (Option Text × ℤ)
completed_parts ps = map (λ p. (string_pointer p.etag, p.part_number)) ps
