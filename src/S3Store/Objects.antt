-- ===== src/S3Store/Objects.antt =====
-- sdk/go/objectstorage/s3store/operations.go: what the operations make of the values of a request and
-- of an answer.
use stellarmesh_sdk.Base.{
  ℕ, ◌+◌, false, List, [], Option, none, ℤ, pos, pos_part, if◌then◌else◌, Result, ok, err,
}
use stellarmesh_sdk.Text.{Text, ascii}
use stellarmesh_sdk.Gateway.Route.{is_empty}
use stellarmesh_sdk.ObjectStorage.{StorageError, ProviderError}
use stellarmesh_sdk.ObjectStorage.Requests.{
  HeaderChecksum, ObjectInfo, PresignedRequest, MultipartUpload,
}
use stellarmesh_sdk.S3Store.{wrap_provider_error}
use stellarmesh_sdk.S3Store.Provider.{
  string_pointer, or_zero, ChecksumInput, ChecksumOutput, ObjectOutput, WriteOutput, SignedRequest,
}

-- `checksumAlgorithm`.
unfoldable pub checksum_algorithm : HeaderChecksum → Text
checksum_algorithm c =
    if is_empty c.crc32
    then if is_empty c.crc32c
      then if is_empty c.sha1
        then if is_empty c.sha256 then [] else ascii "SHA256"
        else ascii "SHA1"
      else ascii "CRC32C"
    else ascii "CRC32"

-- `applyPutChecksums`.
unfoldable pub put_checksums : HeaderChecksum → ChecksumInput
put_checksums c = record {
  algorithm = checksum_algorithm c;
  crc32 = string_pointer c.crc32;
  crc32c = string_pointer c.crc32c;
  sha1 = string_pointer c.sha1;
  sha256 = string_pointer c.sha256;
}

-- `checksums`.
unfoldable pub checksums : ChecksumOutput → HeaderChecksum
checksums o = record {
  crc32 = or_zero [] o.crc32;
  crc32c = or_zero [] o.crc32c;
  sha1 = or_zero [] o.sha1;
  sha256 = or_zero [] o.sha256;
}

-- `infoFromHead` and `infoFromGet`.
unfoldable pub info_from_output : Text → ObjectOutput → ObjectInfo
info_from_output key o = record {
  key = key;
  version_id = or_zero [] o.version_id;
  etag = or_zero [] o.etag;
  size = or_zero (pos 0) o.content_length;
  content_type = or_zero [] o.content_type;
  last_modified = or_zero 0 o.last_modified;
  metadata = o.metadata;
  checksum = checksums o.checksum;
}

-- The result of `Put`, and with nothing of the request that of `CompleteMultipart`.
unfoldable pub written : Text → ℤ → Text → List (Text × Text) → WriteOutput → ObjectInfo
written key size content_type metadata o = record {
  key = key;
  version_id = or_zero [] o.version_id;
  etag = or_zero [] o.etag;
  size = size;
  content_type = content_type;
  last_modified = 0;
  metadata = metadata;
  checksum = checksums o.checksum;
}

unfoldable pub presigned_result : SignedRequest → ℕ → ℤ → PresignedRequest
presigned_result s now ttl = record {
  method = s.method;
  url = s.url;
  headers = s.headers;
  expires_at = now + pos_part ttl;
}

unfoldable pub missing_upload_id : ProviderError
missing_upload_id = record { ended = false; status = none; code = none }

unfoldable pub new_upload : Text → Option Text → Result StorageError MultipartUpload
unfolding missing_upload_id
new_upload key id =
    if is_empty (or_zero [] id)
    then err (wrap_provider_error (ascii "multipart_create") key missing_upload_id)
    else ok (record { key = key; upload_id = or_zero [] id })
