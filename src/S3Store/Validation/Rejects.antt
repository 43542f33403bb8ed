-- ===== src/S3Store/Validation/Rejects.antt =====
-- The kinds of the errors of the checks in validation.go.
use stellarmesh_sdk.Base.{
  ◌≡◌, refl, ◌+◌, Bool, true, false, not, ◌&&◌, List, [], ◌∷◌, ℕ, Option, none, some, ltb, ℤ, ltℤ,
  Result, ok, err, refuse, ◌>>=◌, ◌>>◌, arith,
}
use stellarmesh_sdk.Text.{Text, ascii}
use stellarmesh_sdk.Gateway.Route.{is_empty}
use stellarmesh_sdk.ObjectStorage.{
  Kind, not_found, forbidden, precondition_failed, conflict, invalid_argument, StorageError, failed,
  wrapped, provided, Namespace, validate_key, validate_ttl, invalid,
}
use stellarmesh_sdk.ObjectStorage.Requests.{
  ObjectRef, ByteRange, HeaderChecksum, Metadata, PutRequest, PresignPutRequest,
}
use stellarmesh_sdk.S3Store.{is_kind, same_kind, error_kind, first_kind}
use stellarmesh_sdk.S3Store.Validation.{
  wrap_invalid, check, validate_ref, validate_range, validate_metadata, count_checksums,
  validate_checksum, validate_upload_fields, validate_put_request, validate_presign_put_request,
  resolve_ttl, is_opaque,
}

-- A check that failed, wrapped any number of times.
abbrev pub IsInvalid : StorageError → Type 0
IsInvalid (failed k operation key) = k ≡ invalid_argument
IsInvalid (wrapped k operation key e) = (k ≡ invalid_argument) × IsInvalid e
IsInvalid (provided k operation key e) = ⊥

abbrev pub Rejects {ℓ} : {A : Type ℓ} → Result StorageError A → Type 0
Rejects (ok a) = Unit
Rejects (err e) = IsInvalid e

pub >>=-Rejects {ℓ κ} :
    {A : Type ℓ} {B : Type κ} (m : Result StorageError A) (next : A → Result StorageError B)
    → Rejects m
    → ((a : A) → Rejects (next a))
    → Rejects (m >>= next)
>>=-Rejects (ok a) next hm hn = hn a
>>=-Rejects (err e) next hm hn = hm

pub >>-Rejects {ℓ} :
    {B : Type ℓ} (m : Result StorageError (Unit {0})) (rest : Result StorageError B)
    → Rejects m
    → Rejects rest
    → Rejects (m >> rest)
>>-Rejects m rest hm hr = >>=-Rejects m (λ _. rest) hm (λ _. hr)

pub refuse-Rejects :
    (bad : Bool) (operation key : Text) → Rejects (refuse bad (invalid operation key))
refuse-Rejects true operation key = refl
refuse-Rejects false operation key = tt

pub wrap_invalid-Rejects {ℓ} :
    {A : Type ℓ} (operation key : Text) (m : Result StorageError A)
    → Rejects m
    → Rejects (wrap_invalid operation key m)
unfolding wrap_invalid
wrap_invalid-Rejects operation key (ok a) h = tt
wrap_invalid-Rejects operation key (err e) h = (refl, h)

pub validate_key-Rejects : (n : Namespace) (key : Text) → Rejects (validate_key n key)
unfolding validate_key
validate_key-Rejects n key = ground arith

pub validate_ref-Rejects :
    (n : Namespace) (operation : Text) (ref : ObjectRef) → Rejects (validate_ref n operation ref)
unfolding validate_ref
validate_ref-Rejects n operation ref =
    let first = wrap_invalid operation ref.key (validate_key n ref.key) in
    >>-Rejects first
      (check operation ref.key (not (is_empty ref.version_id) && not (is_opaque ref.version_id)))
      (wrap_invalid-Rejects operation ref.key (validate_key n ref.key)
        (validate_key-Rejects n ref.key))
      (refuse-Rejects _ operation ref.key)

pub validate_range-Rejects :
    (operation key : Text) (range : Option ByteRange) → Rejects (validate_range operation key range)
unfolding validate_range
validate_range-Rejects operation key none = tt
validate_range-Rejects operation key (some r) = ground arith

validate_metadata-Rejects :
    (operation key : Text) (m : Metadata) → Rejects (validate_metadata operation key m)
unfolding validate_metadata
validate_metadata-Rejects operation key [] = tt
validate_metadata-Rejects operation key ((k, v) ∷ m) =
    ground (arith, validate_metadata-Rejects operation key m)

module _ (is_base64 : Text → Bool) where
  count_checksums-Rejects :
      (operation key : Text) (count : ℕ) (ss : List Text)
      → Rejects (count_checksums is_base64 operation key count ss)
  unfolding count_checksums
  count_checksums-Rejects operation key count [] = tt
  count_checksums-Rejects operation key count (s ∷ ss) = ground (
    arith,
    count_checksums-Rejects operation key count ss,
    count_checksums-Rejects operation key (count + 1) ss,
  )

  pub validate_upload_fields-Rejects :
      (operation key content_type : Text) (m : Metadata) (c : HeaderChecksum)
      → Rejects (validate_upload_fields is_base64 operation key content_type m c)
  unfolding validate_upload_fields validate_checksum
  validate_upload_fields-Rejects operation key content_type m c =
      let texts = c.crc32 ∷ c.crc32c ∷ c.sha1 ∷ c.sha256 ∷ [] in
      >>-Rejects (check operation key (not (is_opaque content_type)))
        (validate_metadata operation key m >> validate_checksum is_base64 operation key c)
        (refuse-Rejects _ operation key)
        (>>-Rejects (validate_metadata operation key m)
          (validate_checksum is_base64 operation key c) (validate_metadata-Rejects operation key m)
          (>>=-Rejects (count_checksums is_base64 operation key 0 texts)
            (λ count. check operation key (ltb 1 count))
            (count_checksums-Rejects operation key 0 texts)
            (λ count. refuse-Rejects _ operation key)))

  pub validate_put_request-Rejects :
      (operation : Text) (n : Namespace) (r : PutRequest)
      → Rejects (validate_put_request is_base64 operation n r)
  unfolding validate_put_request
  validate_put_request-Rejects operation n r = ground (
    arith,
    wrap_invalid-Rejects operation r.key (validate_key n r.key) (validate_key-Rejects n r.key),
    validate_upload_fields-Rejects operation r.key r.content_type r.metadata r.checksum,
  )

  pub validate_presign_put_request-Rejects :
      (n : Namespace) (r : PresignPutRequest) → Rejects (validate_presign_put_request is_base64 n r)
  unfolding validate_presign_put_request
  validate_presign_put_request-Rejects n r = ground (
    arith,
    wrap_invalid-Rejects (ascii "presign_put") r.key (validate_key n r.key)
        (validate_key-Rejects n r.key),
    validate_upload_fields-Rejects (ascii "presign_put") r.key r.content_type r.metadata r.checksum,
  )

validate_ttl-Rejects : (ttl default : ℤ) → Rejects (validate_ttl ttl default)
unfolding validate_ttl
validate_ttl-Rejects ttl default = ground arith

pub resolve_ttl-Rejects :
    (default_ttl max_ttl value : ℤ) (operation key : Text)
    → Rejects (resolve_ttl default_ttl max_ttl value operation key)
unfolding resolve_ttl
resolve_ttl-Rejects default_ttl max_ttl value operation key =
    >>=-Rejects (wrap_invalid operation key (validate_ttl value default_ttl))
      (λ ttl. check operation key (ltℤ max_ttl ttl) >> ok ttl)
      (wrap_invalid-Rejects operation key (validate_ttl value default_ttl)
        (validate_ttl-Rejects value default_ttl))
      (λ ttl.
        >>-Rejects (check operation key (ltℤ max_ttl ttl)) (ok ttl) (refuse-Rejects _ operation key)
          tt)

-- The first kind that an invalid error matches, as `errorKind` looks for it.
IsInvalid-is_kind :
    (e : StorageError) (k : Kind) → IsInvalid e → is_kind e k ≡ same_kind invalid_argument k
unfolding is_kind
IsInvalid-is_kind (failed kind operation key) k h = cc
IsInvalid-is_kind (wrapped kind operation key e) k h =
    ground (arith, h.0, IsInvalid-is_kind e k h.1)
IsInvalid-is_kind (provided kind operation key e) k h = absurd h

pub IsInvalid-error_kind : (e : StorageError) → IsInvalid e → error_kind e ≡ invalid_argument
unfolding error_kind first_kind
IsInvalid-error_kind e h = ground (
  arith,
  IsInvalid-is_kind e not_found h,
  IsInvalid-is_kind e forbidden h,
  IsInvalid-is_kind e precondition_failed h,
  IsInvalid-is_kind e conflict h,
  IsInvalid-is_kind e invalid_argument h,
)
