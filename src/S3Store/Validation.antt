-- ===== src/S3Store/Validation.antt =====
-- sdk/go/objectstorage/s3store/validation.go: the checks before a call of the provider. Whether a
-- text is standard Base64 is a parameter.
pub mod Rejects
use stellarmesh_sdk.Base.{
  ℕ, ◌+◌, Bool, true, false, not, ◌&&◌, ◌||◌, List, [], ◌∷◌, ◌++◌, Option, none, some, ltb,
  if◌then◌else◌, ℤ, pos, negsuc, ltℤ, is_negative, Result, ok, err, refuse, ◌>>=◌, ◌>>◌,
}
use stellarmesh_sdk.Text.{Text, ascii}
use stellarmesh_sdk.Text.ParseInt.{signed_decimal}
use stellarmesh_sdk.Text.Utf8.{is_valid_utf8, contains_control}
use stellarmesh_sdk.Gateway.Route.{is_empty}
use stellarmesh_sdk.ObjectStorage.{
  invalid_argument, StorageError, wrapped, Namespace, invalid, validate_key, validate_ttl,
  max_single_put_bytes,
}
use stellarmesh_sdk.ObjectStorage.Requests.{
  ObjectRef, ByteRange, HeaderChecksum, Metadata, PutRequest, PresignPutRequest,
}

-- `wrapInvalid` around an error.
unfoldable pub wrap_invalid {ℓ} :
    {A : Type ℓ} → Text → Text → Result StorageError A → Result StorageError A
wrap_invalid operation key (ok a) = ok a
wrap_invalid operation key (err e) = err (wrapped invalid_argument operation key e)

abbrev pub check : Text → Text → Bool → Result StorageError (Unit {0})
check operation key bad = refuse bad (invalid operation key)

abbrev is_opaque : Text → Bool
is_opaque s = is_valid_utf8 s && not (contains_control s)

-- `validateRef`.
unfoldable pub validate_ref : Namespace → Text → ObjectRef → Result StorageError (Unit {0})
validate_ref n operation ref =
    wrap_invalid operation ref.key (validate_key n ref.key)
    >> check operation ref.key (not (is_empty ref.version_id) && not (is_opaque ref.version_id))

ends_before : Option ℤ → ℤ → Bool
ends_before none start = false
ends_before (some end) start = ltℤ end start

-- `validateRange`.
unfoldable pub validate_range : Text → Text → Option ByteRange → Result StorageError (Unit {0})
unfolding ends_before
validate_range operation key none = ok tt
validate_range operation key (some r) =
    check operation key (is_negative r.start) >> check operation key (ends_before r.end r.start)

end_text : Option ℤ → Text
end_text none = []
end_text (some end) = signed_decimal end

-- `formatRange`.
unfoldable pub format_range : Option ByteRange → Option Text
unfolding end_text
format_range none = none
format_range (some r) =
    some (ascii "bytes=" ++ signed_decimal r.start ++ ascii "-" ++ end_text r.end)

-- The bytes of `metadataKey + value` are those of both.
unfoldable pub validate_metadata : Text → Text → Metadata → Result StorageError (Unit {0})
validate_metadata operation key [] = ok tt
validate_metadata operation key ((k, v) ∷ m) =
    let rest = validate_metadata operation key m in
    if is_empty k || (not (is_valid_utf8 k) || (not (is_valid_utf8 v) || contains_control (k ++ v)))
    then err (invalid operation key)
    else rest

module _ (is_base64 : Text → Bool) where
  -- The loop of `validateChecksum`; the number is `count`.
  count_checksums : Text → Text → ℕ → List Text → Result StorageError ℕ
  count_checksums operation key count [] = ok count
  count_checksums operation key count (s ∷ ss) = elim (is_empty s) [
    | true ↦ count_checksums operation key count ss
    | false ↦ elim (is_base64 s) [
      | true ↦ count_checksums operation key (count + 1) ss
      | false ↦ err (invalid operation key)
    ]
  ]

  -- `validateChecksum`.
  unfoldable pub validate_checksum : Text → Text → HeaderChecksum → Result StorageError (Unit {0})
  unfolding count_checksums
  validate_checksum operation key c =
      count_checksums operation key 0 (c.crc32 ∷ c.crc32c ∷ c.sha1 ∷ c.sha256 ∷ []) >>= λ count.
      check operation key (ltb 1 count)

  -- `validateUploadFields`.
  unfoldable pub validate_upload_fields :
      Text → Text → Text → Metadata → HeaderChecksum → Result StorageError (Unit {0})
  validate_upload_fields operation key content_type metadata checksum =
      check operation key (not (is_opaque content_type))
      >> (validate_metadata operation key metadata >> validate_checksum operation key checksum)

  abbrev is_none {ℓ} : {A : Type ℓ} → Option A → Bool
  is_none none = true
  is_none (some a) = false

  -- `validatePutRequest`.
  unfoldable pub validate_put_request :
      Text → Namespace → PutRequest → Result StorageError (Unit {0})
  validate_put_request operation n r =
      wrap_invalid operation r.key (validate_key n r.key)
      >> (check operation r.key (is_none r.body)
          >> (check operation r.key (is_negative r.size)
              >> (check operation r.key (ltℤ max_single_put_bytes r.size)
                  >> validate_upload_fields operation r.key r.content_type r.metadata r.checksum)))

  -- `validatePresignPutRequest`.
  unfoldable pub validate_presign_put_request :
      Namespace → PresignPutRequest → Result StorageError (Unit {0})
  validate_presign_put_request n r =
      wrap_invalid (ascii "presign_put") r.key (validate_key n r.key)
      >> (check (ascii "presign_put") r.key (is_negative r.size || ltℤ max_single_put_bytes r.size)
          >> validate_upload_fields (ascii "presign_put") r.key r.content_type r.metadata
              r.checksum)

-- `Client.ttl`, with the configured default and maximum.
unfoldable pub resolve_ttl : (default_ttl max_ttl value : ℤ) → Text → Text → Result StorageError ℤ
resolve_ttl default_ttl max_ttl value operation key =
    wrap_invalid operation key (validate_ttl value default_ttl) >>= λ ttl.
    check operation key (ltℤ max_ttl ttl) >> ok ttl

-- `validateUploadID`.
unfoldable pub validate_upload_id : Text → Text → Text → Result StorageError (Unit {0})
validate_upload_id operation key upload_id =
    check operation key (is_empty upload_id || not (is_opaque upload_id))

-- `validatePartNumber`.
unfoldable pub validate_part_number : Text → Text → ℤ → Result StorageError (Unit {0})
validate_part_number operation key n = check operation key (ltℤ n (pos 1) || ltℤ (pos 10_000) n)
