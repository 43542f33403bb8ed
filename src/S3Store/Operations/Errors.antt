-- ===== src/S3Store/Operations/Errors.antt =====
-- Where the error of an operation comes from.
use stellarmesh_sdk.Base.{[], Option, Bool, ◌>>◌}
use stellarmesh_sdk.Text.{Text, ascii}
use stellarmesh_sdk.ObjectStorage.{StorageError, validate_key}
use stellarmesh_sdk.ObjectStorage.Requests.{
  ObjectRef, PutRequest, GetRequest, DeleteRequest, PresignGetRequest, PresignPutRequest,
  CreateMultipartRequest, PresignPartRequest, CompleteMultipartRequest, AbortMultipartRequest,
}
use stellarmesh_sdk.S3Store.Validation.{
  wrap_invalid, validate_ref, validate_range, validate_put_request, validate_presign_put_request,
  validate_upload_fields, resolve_ttl, validate_upload_id, validate_part_number,
}
use stellarmesh_sdk.S3Store.Validation.Rejects.{
  >>-Rejects, validate_ref-Rejects, validate_range-Rejects, validate_upload_fields-Rejects,
  validate_put_request-Rejects, validate_presign_put_request-Rejects, resolve_ttl-Rejects,
}
use stellarmesh_sdk.S3Store.Parts.{validate_and_sort_parts}
use stellarmesh_sdk.S3Store.Provider.{Provider, Client, Clock}
use stellarmesh_sdk.S3Store.Operations.{
  check_bucket, stat, get, put, delete, sign_get, sign_put, create_upload, sign_part,
  complete_upload, abort_upload,
}
use stellarmesh_sdk.S3Store.Operations.Sourced.{
  IsSourced, IsSourcedRun, error_in, checked-IsSourced, answered-IsReported, new_upload-IsReported,
  parts-Rejects, id-Rejects, number-Rejects, key-Rejects,
}
use stellarmesh_sdk.S3Store.Operations.Confined.{
  Operation, check_op, stat_op, get_op, put_op, delete_op, sign_get_op, sign_put_op,
  create_upload_op, sign_part_op, complete_upload_op, abort_upload_op, calls_of,
}

-- The error that an operation returns, if it does.
unfoldable pub error_of :
    (Text → Bool) → Provider → Client → Clock → Operation → Option StorageError
error_of b p c t check_op = error_in (check_bucket b p c).result
error_of b p c t (stat_op r) = error_in (stat b p c r).result
error_of b p c t (get_op r) = error_in (get b p c r).result
error_of b p c t (put_op r) = error_in (put b p c r).result
error_of b p c t (delete_op r) = error_in (delete b p c r).result
error_of b p c t (sign_get_op r) = error_in (sign_get b p c t r).result
error_of b p c t (sign_put_op r) = error_in (sign_put b p c t r).result
error_of b p c t (create_upload_op r) = error_in (create_upload b p c r).result
error_of b p c t (sign_part_op r) = error_in (sign_part b p c t r).result
error_of b p c t (complete_upload_op r) = error_in (complete_upload b p c r).result
error_of b p c t (abort_upload_op r) = error_in (abort_upload b p c r).result

-- The name that an operation has in its errors, and the key.
abbrev pub name_of : Operation → Text
name_of check_op = ascii "check"
name_of (stat_op r) = ascii "stat"
name_of (get_op r) = ascii "get"
name_of (put_op r) = ascii "put"
name_of (delete_op r) = ascii "delete"
name_of (sign_get_op r) = ascii "presign_get"
name_of (sign_put_op r) = ascii "presign_put"
name_of (create_upload_op r) = ascii "multipart_create"
name_of (sign_part_op r) = ascii "multipart_presign_part"
name_of (complete_upload_op r) = ascii "multipart_complete"
name_of (abort_upload_op r) = ascii "multipart_abort"

abbrev pub key_of : Operation → Text
key_of check_op = []
key_of (stat_op r) = r.key
key_of (get_op r) = r.object.key
key_of (put_op r) = r.key
key_of (delete_op r) = r.object.key
key_of (sign_get_op r) = r.object.key
key_of (sign_put_op r) = r.key
key_of (create_upload_op r) = r.key
key_of (sign_part_op r) = r.key
key_of (complete_upload_op r) = r.key
key_of (abort_upload_op r) = r.key

module _ (is_base64 : Text → Bool) (p : Provider) (c : Client) (t : Clock) where
  check_bucket-IsSourced : IsSourcedRun p (ascii "check") [] (check_bucket is_base64 p c)
  unfolding check_bucket
  check_bucket-IsSourced = answered-IsReported (ascii "check") [] _ (λ u. u)

  stat-IsSourced : (r : ObjectRef) → IsSourcedRun p (ascii "stat") r.key (stat is_base64 p c r)
  unfolding stat
  stat-IsSourced r =
      checked-IsSourced p (ascii "stat") r.key (validate_ref c.namespace (ascii "stat") r) _
        (validate_ref-Rejects c.namespace (ascii "stat") r)
        (λ _. answered-IsReported (ascii "stat") r.key _ _)

  get-IsSourced : (r : GetRequest) → IsSourcedRun p (ascii "get") r.object.key (get is_base64 p c r)
  unfolding get
  get-IsSourced r =
      let ref = validate_ref c.namespace (ascii "get") r.object in
      let range = validate_range (ascii "get") r.object.key r.range in
      checked-IsSourced p (ascii "get") r.object.key (ref >> range) _
        (>>-Rejects ref range (validate_ref-Rejects c.namespace (ascii "get") r.object)
          (validate_range-Rejects (ascii "get") r.object.key r.range))
        (λ _. answered-IsReported (ascii "get") r.object.key _ _)

  put-IsSourced : (r : PutRequest) → IsSourcedRun p (ascii "put") r.key (put is_base64 p c r)
  unfolding put
  put-IsSourced r =
      checked-IsSourced p (ascii "put") r.key
        (validate_put_request is_base64 (ascii "put") c.namespace r) _
        (validate_put_request-Rejects is_base64 (ascii "put") c.namespace r)
        (λ _. answered-IsReported (ascii "put") r.key _ _)

  delete-IsSourced :
      (r : DeleteRequest) → IsSourcedRun p (ascii "delete") r.object.key (delete is_base64 p c r)
  unfolding delete
  delete-IsSourced r =
      checked-IsSourced p (ascii "delete") r.object.key
        (validate_ref c.namespace (ascii "delete") r.object) _
        (validate_ref-Rejects c.namespace (ascii "delete") r.object)
        (λ _. answered-IsReported (ascii "delete") r.object.key _ (λ u. u))

  sign_get-IsSourced :
      (r : PresignGetRequest)
      → IsSourcedRun p (ascii "presign_get") r.object.key (sign_get is_base64 p c t r)
  unfolding sign_get
  sign_get-IsSourced r =
      let operation = ascii "presign_get" in
      let ref = validate_ref c.namespace operation r.object in
      let range = validate_range operation r.object.key r.range in
      let ttl = resolve_ttl c.default_presign_ttl c.max_presign_ttl r.ttl operation r.object.key in
      checked-IsSourced p (ascii "presign_get") r.object.key (ref >> (range >> ttl)) _
        (>>-Rejects ref (range >> ttl) (validate_ref-Rejects c.namespace operation r.object) (
          >>-Rejects range ttl (validate_range-Rejects operation r.object.key r.range) (
            resolve_ttl-Rejects c.default_presign_ttl c.max_presign_ttl r.ttl operation
              r.object.key)))
        (λ _. answered-IsReported operation r.object.key _ _)

  sign_put-IsSourced :
      (r : PresignPutRequest)
      → IsSourcedRun p (ascii "presign_put") r.key (sign_put is_base64 p c t r)
  unfolding sign_put
  sign_put-IsSourced r =
      let operation = ascii "presign_put" in
      let valid = validate_presign_put_request is_base64 c.namespace r in
      let ttl = resolve_ttl c.default_presign_ttl c.max_presign_ttl r.ttl operation r.key in
      checked-IsSourced p (ascii "presign_put") r.key (valid >> ttl) _
        (>>-Rejects valid ttl (validate_presign_put_request-Rejects is_base64 c.namespace r)
          (resolve_ttl-Rejects c.default_presign_ttl c.max_presign_ttl r.ttl operation r.key))
        (λ _. answered-IsReported operation r.key _ _)

  create_upload-IsSourced :
      (r : CreateMultipartRequest)
      → IsSourcedRun p (ascii "multipart_create") r.key (create_upload is_base64 p c r)
  unfolding create_upload
  create_upload-IsSourced r =
      let operation = ascii "multipart_create" in
      let valid_key = wrap_invalid operation r.key (validate_key c.namespace r.key) in
      let fields =
        validate_upload_fields is_base64 operation r.key r.content_type r.metadata r.checksum in
      checked-IsSourced p (ascii "multipart_create") r.key (valid_key >> fields) _
        (>>-Rejects valid_key fields (key-Rejects c.namespace operation r.key) (
          validate_upload_fields-Rejects is_base64 operation r.key r.content_type r.metadata
            r.checksum))
        (λ _. new_upload-IsReported r.key _)

  sign_part-IsSourced :
      (r : PresignPartRequest)
      → IsSourcedRun p (ascii "multipart_presign_part") r.key (sign_part is_base64 p c t r)
  unfolding sign_part
  sign_part-IsSourced r =
      let operation = ascii "multipart_presign_part" in
      let valid_key = wrap_invalid operation r.key (validate_key c.namespace r.key) in
      let id = validate_upload_id operation r.key r.upload_id in
      let number = validate_part_number operation r.key r.part_number in
      let ttl = resolve_ttl c.default_presign_ttl c.max_presign_ttl r.ttl operation r.key in
      checked-IsSourced p (ascii "multipart_presign_part") r.key
        (valid_key >> (id >> (number >> ttl))) _
        (>>-Rejects valid_key (id >> (number >> ttl)) (key-Rejects c.namespace operation r.key) (
          >>-Rejects id (number >> ttl) (id-Rejects operation r.key r.upload_id) (
            >>-Rejects number ttl (number-Rejects operation r.key r.part_number)
              (resolve_ttl-Rejects c.default_presign_ttl c.max_presign_ttl r.ttl operation r.key))))
        (λ _. answered-IsReported operation r.key _ _)

  complete_upload-IsSourced :
      (r : CompleteMultipartRequest)
      → IsSourcedRun p (ascii "multipart_complete") r.key (complete_upload is_base64 p c r)
  unfolding complete_upload
  complete_upload-IsSourced r =
      let operation = ascii "multipart_complete" in
      let valid_key = wrap_invalid operation r.key (validate_key c.namespace r.key) in
      let id = validate_upload_id operation r.key r.upload_id in
      let parts = validate_and_sort_parts operation r.key r.parts in
      checked-IsSourced p (ascii "multipart_complete") r.key (valid_key >> (id >> parts)) _
        (>>-Rejects valid_key (id >> parts) (key-Rejects c.namespace operation r.key) (
          >>-Rejects id parts (id-Rejects operation r.key r.upload_id)
            (parts-Rejects operation r.key r.parts)))
        (λ _. answered-IsReported operation r.key _ _)

  abort_upload-IsSourced :
      (r : AbortMultipartRequest)
      → IsSourcedRun p (ascii "multipart_abort") r.key (abort_upload is_base64 p c r)
  unfolding abort_upload
  abort_upload-IsSourced r =
      let operation = ascii "multipart_abort" in
      let valid_key = wrap_invalid operation r.key (validate_key c.namespace r.key) in
      let id = validate_upload_id operation r.key r.upload_id in
      checked-IsSourced p (ascii "multipart_abort") r.key (valid_key >> id) _
        (>>-Rejects valid_key id (key-Rejects c.namespace operation r.key)
          (id-Rejects operation r.key r.upload_id))
        (λ _. answered-IsReported operation r.key _ (λ u. u))

-- An operation of the S3 client that makes no call has an error, and the error and the kind that
-- an observer is told are invalid_argument. One that makes a call makes only that, and has an
-- error exactly if the provider answers that very call with one, or creates an upload without an
-- ID; the error is then of the operation and its key, around the provider's own error, and its
-- kind, which an observer is told, is the class of that: unavailable for the end of a context,
-- else that of the HTTP status if the status has one, else that of the error code, else
-- unavailable.
pub error_of-IsSourced :
    (is_base64 : Text → Bool) (p : Provider) (c : Client) (t : Clock) (o : Operation)
    → IsSourced p (name_of o) (key_of o) (calls_of is_base64 p c t o) (error_of is_base64 p c t o)
unfolding calls_of error_of
error_of-IsSourced b p c t check_op = check_bucket-IsSourced b p c t
error_of-IsSourced b p c t (stat_op r) = stat-IsSourced b p c t r
error_of-IsSourced b p c t (get_op r) = get-IsSourced b p c t r
error_of-IsSourced b p c t (put_op r) = put-IsSourced b p c t r
error_of-IsSourced b p c t (delete_op r) = delete-IsSourced b p c t r
error_of-IsSourced b p c t (sign_get_op r) = sign_get-IsSourced b p c t r
error_of-IsSourced b p c t (sign_put_op r) = sign_put-IsSourced b p c t r
error_of-IsSourced b p c t (create_upload_op r) = create_upload-IsSourced b p c t r
error_of-IsSourced b p c t (sign_part_op r) = sign_part-IsSourced b p c t r
error_of-IsSourced b p c t (complete_upload_op r) = complete_upload-IsSourced b p c t r
error_of-IsSourced b p c t (abort_upload_op r) = abort_upload-IsSourced b p c t r
