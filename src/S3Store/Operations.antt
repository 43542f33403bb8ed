-- ===== src/S3Store/Operations.antt =====
-- sdk/go/objectstorage/s3store/operations.go: the operations of the client.
pub mod Checks
pub mod Confined
pub mod Sourced
pub mod Errors
pub mod Observations
use stellarmesh_sdk.Base.{Bool, [], Option, none, pos, ok, ◌>>◌}
use stellarmesh_sdk.Text.{Text, ascii}
use stellarmesh_sdk.ObjectStorage.{validate_key}
use stellarmesh_sdk.ObjectStorage.Requests.{
  ObjectRef, ObjectInfo, Object, PutRequest, GetRequest, DeleteRequest, PresignGetRequest,
  PresignPutRequest, PresignedRequest, CreateMultipartRequest, MultipartUpload, PresignPartRequest,
  CompleteMultipartRequest, AbortMultipartRequest,
}
use stellarmesh_sdk.S3Store.Validation.{
  wrap_invalid, validate_ref, validate_range, format_range, validate_put_request,
  validate_presign_put_request, validate_upload_fields, resolve_ttl, validate_upload_id,
  validate_part_number,
}
use stellarmesh_sdk.S3Store.Parts.{validate_and_sort_parts}
use stellarmesh_sdk.S3Store.Objects.{
  checksum_algorithm, info_from_output, new_upload, presigned_result, put_checksums, written,
}
use stellarmesh_sdk.S3Store.Provider.{
  string_pointer, ObjectInput, head_bucket, head_object, get_object, delete_object, put_object,
  create_multipart, complete_multipart, abort_multipart, presign_get, presign_put, presign_part,
  Provider, Client, physical_key, Run, checked, answered, request, Clock, completed_parts,
}

module _ (is_base64 : Text → Bool) (p : Provider) (c : Client) where
  object_input : ObjectRef → Option Text → Option Text → ObjectInput
  object_input ref range if_match = record {
    bucket = c.namespace.bucket;
    key = physical_key c ref.key;
    version_id = string_pointer ref.version_id;
    range = range;
    if_match = if_match;
  }

  -- `Check`, and so each of the operations of the client, without the observation.
  unfoldable pub check_bucket : Run (Unit {0})
  check_bucket =
      let call = head_bucket c.namespace.bucket in
      request call (answered (ascii "check") [] (p.bucket_answer call) ok)

  unfoldable pub stat : ObjectRef → Run ObjectInfo
  unfolding object_input
  stat ref = checked (validate_ref c.namespace (ascii "stat") ref) λ _.
      let call = head_object (object_input ref none none) in
      request call (
        answered (ascii "stat") ref.key (p.object_answer call)
          (λ o. ok (info_from_output ref.key o)))

  unfoldable pub get : GetRequest → Run Object
  unfolding object_input
  get r =
      checked
        (validate_ref c.namespace (ascii "get") r.object
          >> validate_range (ascii "get") r.object.key r.range)
        λ _.
          let call = get_object (object_input r.object (format_range r.range) none) in
          request call (
            answered (ascii "get") r.object.key (p.object_answer call)
              (λ o. ok (record { info = info_from_output r.object.key o; body = o.body })))

  unfoldable pub put : PutRequest → Run ObjectInfo
  unfolding written
  put r = checked (validate_put_request is_base64 (ascii "put") c.namespace r) λ _.
      let call = put_object (record {
        bucket = c.namespace.bucket;
        key = physical_key c r.key;
        body = r.body;
        content_length = r.size;
        content_type = string_pointer r.content_type;
        metadata = r.metadata;
        if_match = string_pointer r.if_match;
        if_none_match = string_pointer r.if_none_match;
        checksum = put_checksums r.checksum;
      }) in
      request call (
        answered (ascii "put") r.key (p.write_answer call)
          (λ o. ok (written r.key r.size r.content_type r.metadata o)))

  unfoldable pub delete : DeleteRequest → Run (Unit {0})
  unfolding object_input
  delete r = checked (validate_ref c.namespace (ascii "delete") r.object) λ _.
      let call = delete_object (object_input r.object none (string_pointer r.if_match)) in
      request call (answered (ascii "delete") r.object.key (p.bucket_answer call) ok)

  unfoldable pub sign_get : Clock → PresignGetRequest → Run PresignedRequest
  unfolding object_input presigned_result
  sign_get t r =
      checked
        (validate_ref c.namespace (ascii "presign_get") r.object
          >> (validate_range (ascii "presign_get") r.object.key r.range
              >> resolve_ttl c.default_presign_ttl c.max_presign_ttl r.ttl (ascii "presign_get")
                  r.object.key))
        λ ttl.
          let call = presign_get (object_input r.object (format_range r.range) none) ttl in
          request call (
            answered (ascii "presign_get") r.object.key (p.signed_answer call)
              (λ s. ok (presigned_result s t.signed ttl)))

  unfoldable pub sign_put : Clock → PresignPutRequest → Run PresignedRequest
  unfolding presigned_result
  sign_put t r =
      checked
        (validate_presign_put_request is_base64 c.namespace r
          >> resolve_ttl c.default_presign_ttl c.max_presign_ttl r.ttl (ascii "presign_put") r.key)
        λ ttl.
          let call =
            presign_put
              (record {
                bucket = c.namespace.bucket;
                key = physical_key c r.key;
                body = none;
                content_length = r.size;
                content_type = string_pointer r.content_type;
                metadata = r.metadata;
                if_match = string_pointer r.if_match;
                if_none_match = string_pointer r.if_none_match;
                checksum = put_checksums r.checksum;
              })
              ttl in
          request call (
            answered (ascii "presign_put") r.key (p.signed_answer call)
              (λ s. ok (presigned_result s t.signed ttl)))

  unfoldable pub create_upload : CreateMultipartRequest → Run MultipartUpload
  unfolding new_upload
  create_upload r =
      checked
        (wrap_invalid (ascii "multipart_create") r.key (validate_key c.namespace r.key)
          >> validate_upload_fields is_base64 (ascii "multipart_create") r.key r.content_type
              r.metadata r.checksum)
        λ _.
          let call = create_multipart (record {
            bucket = c.namespace.bucket;
            key = physical_key c r.key;
            content_type = string_pointer r.content_type;
            metadata = r.metadata;
            algorithm = checksum_algorithm r.checksum;
          }) in
          request call
            (answered (ascii "multipart_create") r.key (p.upload_answer call) (new_upload r.key))

  unfoldable pub sign_part : Clock → PresignPartRequest → Run PresignedRequest
  unfolding presigned_result
  sign_part t r =
      let operation = ascii "multipart_presign_part" in
      checked
        (wrap_invalid operation r.key (validate_key c.namespace r.key)
          >> (validate_upload_id operation r.key r.upload_id
              >> (validate_part_number operation r.key r.part_number
                  >> resolve_ttl c.default_presign_ttl c.max_presign_ttl r.ttl operation r.key)))
        λ ttl.
          let call =
            presign_part
              (record {
                bucket = c.namespace.bucket;
                key = physical_key c r.key;
                upload_id = r.upload_id;
                part_number = r.part_number;
              })
              ttl in
          request call (
            answered operation r.key (p.signed_answer call)
              (λ s. ok (presigned_result s t.signed ttl)))

  unfoldable pub complete_upload : CompleteMultipartRequest → Run ObjectInfo
  unfolding written
  complete_upload r =
      let operation = ascii "multipart_complete" in
      checked
        (wrap_invalid operation r.key (validate_key c.namespace r.key)
          >> (validate_upload_id operation r.key r.upload_id
              >> validate_and_sort_parts operation r.key r.parts))
        λ parts.
          let call = complete_multipart (record {
            bucket = c.namespace.bucket;
            key = physical_key c r.key;
            upload_id = r.upload_id;
            parts = completed_parts parts;
            if_match = string_pointer r.if_match;
            if_none_match = string_pointer r.if_none_match;
          }) in
          request call (
            answered operation r.key (p.write_answer call)
              (λ o. ok (written r.key (pos 0) [] [] o)))

  unfoldable pub abort_upload : AbortMultipartRequest → Run (Unit {0})
  abort_upload r =
      let operation = ascii "multipart_abort" in
      checked
        (wrap_invalid operation r.key (validate_key c.namespace r.key)
          >> validate_upload_id operation r.key r.upload_id)
        λ _.
          let call = abort_multipart (record {
            bucket = c.namespace.bucket;
            key = physical_key c r.key;
            upload_id = r.upload_id;
          }) in
          request call (answered operation r.key (p.bucket_answer call) ok)
