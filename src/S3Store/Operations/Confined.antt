-- ===== src/S3Store/Operations/Confined.antt =====
-- Every operation of the client as one value, and the calls of the provider that they make.
use stellarmesh_sdk.Base.{◌≡◌, refl, ◌≤◌, List, length, Bool, Result, ok, err, ◌>>◌, All, arith}
use stellarmesh_sdk.Text.{Text, ascii}
use stellarmesh_sdk.ObjectStorage.{StorageError, validate_key}
use stellarmesh_sdk.ObjectStorage.Requests.{
  ObjectRef, PutRequest, GetRequest, DeleteRequest, PresignGetRequest, PresignPutRequest,
  CreateMultipartRequest, PresignPartRequest, CompleteMultipartRequest, AbortMultipartRequest,
}
use stellarmesh_sdk.S3Store.Validation.{
  wrap_invalid, validate_ref, validate_range, validate_put_request, validate_presign_put_request,
  validate_upload_fields, resolve_ttl, validate_upload_id, validate_part_number,
}
use stellarmesh_sdk.S3Store.Parts.{validate_and_sort_parts}
use stellarmesh_sdk.S3Store.Provider.{
  S3Call, head_bucket, head_object, get_object, delete_object, put_object, create_multipart,
  complete_multipart, abort_multipart, presign_get, presign_put, presign_part, Provider, Client,
  physical_key, Run, checked, Clock,
}
use stellarmesh_sdk.S3Store.Operations.{
  object_input, check_bucket, stat, get, put, delete, sign_get, sign_put, create_upload, sign_part,
  complete_upload, abort_upload,
}
use stellarmesh_sdk.S3Store.Operations.Checks.{
  IsPhysical, IsAllowedTtl, >>-both, validate_key-IsPhysical, resolve_ttl-IsAllowedTtl,
}

-- The methods of `Client` but `Close`.
pub data Operation : Type 0 where
  check_op : Operation
  stat_op : ObjectRef → Operation
  get_op : GetRequest → Operation
  put_op : PutRequest → Operation
  delete_op : DeleteRequest → Operation
  sign_get_op : PresignGetRequest → Operation
  sign_put_op : PresignPutRequest → Operation
  create_upload_op : CreateMultipartRequest → Operation
  sign_part_op : PresignPartRequest → Operation
  complete_upload_op : CompleteMultipartRequest → Operation
  abort_upload_op : AbortMultipartRequest → Operation

-- The calls of an operation.
unfoldable pub calls_of : (Text → Bool) → Provider → Client → Clock → Operation → List S3Call
calls_of b p c t check_op = (check_bucket b p c).calls
calls_of b p c t (stat_op r) = (stat b p c r).calls
calls_of b p c t (get_op r) = (get b p c r).calls
calls_of b p c t (put_op r) = (put b p c r).calls
calls_of b p c t (delete_op r) = (delete b p c r).calls
calls_of b p c t (sign_get_op r) = (sign_get b p c t r).calls
calls_of b p c t (sign_put_op r) = (sign_put b p c t r).calls
calls_of b p c t (create_upload_op r) = (create_upload b p c r).calls
calls_of b p c t (sign_part_op r) = (sign_part b p c t r).calls
calls_of b p c t (complete_upload_op r) = (complete_upload b p c r).calls
calls_of b p c t (abort_upload_op r) = (abort_upload b p c r).calls

-- The client's own bucket, and a key of its namespace.
abbrev IsInside : Client → Text → Text → Type 0
IsInside c bucket key = (bucket ≡ c.namespace.bucket) × IsPhysical c key

-- A call that stays in the namespace, and signs for an allowed time.
abbrev pub IsConfined : Client → S3Call → Type 0
IsConfined c (head_bucket bucket) = bucket ≡ c.namespace.bucket
IsConfined c (head_object i) = IsInside c i.bucket i.key
IsConfined c (get_object i) = IsInside c i.bucket i.key
IsConfined c (delete_object i) = IsInside c i.bucket i.key
IsConfined c (put_object i) = IsInside c i.bucket i.key
IsConfined c (create_multipart i) = IsInside c i.bucket i.key
IsConfined c (complete_multipart i) = IsInside c i.bucket i.key
IsConfined c (abort_multipart i) = IsInside c i.bucket i.key
IsConfined c (presign_get i ttl) = IsInside c i.bucket i.key × IsAllowedTtl c ttl
IsConfined c (presign_put i ttl) = IsInside c i.bucket i.key × IsAllowedTtl c ttl
IsConfined c (presign_part i ttl) = IsInside c i.bucket i.key × IsAllowedTtl c ttl

-- At most one call, a confined one.
abbrev pub AreConfined : Client → List S3Call → Type 0
AreConfined c calls = All (IsConfined c) calls × (length calls ≤ 1)

checked-AreConfined {ℓ κ} :
    {A : Type ℓ} {B : Type κ} (c : Client) (m : Result StorageError A) (next : A → Run B)
    → ((a : A) → m ≡ ok a → AreConfined c (next a).calls)
    → AreConfined c (checked m next).calls
checked-AreConfined c (ok a) next h = h a refl
checked-AreConfined c (err e) next h = (tt, omega arith)

-- The check of the key comes first.
checked_key {ℓ} :
    {B : Type ℓ} (c : Client) (operation key : Text) (rest : Result StorageError B) {b : B}
    → (wrap_invalid operation key (validate_key c.namespace key) >> rest) ≡ ok b
    → IsPhysical c (physical_key c key)
checked_key c operation key rest h =
    validate_key-IsPhysical c operation key
      (>>-both (wrap_invalid operation key (validate_key c.namespace key)) rest h).0

checked_ref :
    (c : Client) (operation : Text) (ref : ObjectRef)
    → validate_ref c.namespace operation ref ≡ ok tt
    → IsPhysical c (physical_key c ref.key)
unfolding validate_ref
checked_ref c operation ref h = checked_key c operation ref.key _ h

module _ (is_base64 : Text → Bool) (p : Provider) (c : Client) (t : Clock) where
  stat-AreConfined : (r : ObjectRef) → AreConfined c (stat is_base64 p c r).calls
  unfolding stat object_input
  stat-AreConfined r =
      checked-AreConfined c (validate_ref c.namespace (ascii "stat") r) _
        λ u e. (((refl, checked_ref c (ascii "stat") r e), tt), omega arith)

  get-AreConfined : (r : GetRequest) → AreConfined c (get is_base64 p c r).calls
  unfolding get object_input
  get-AreConfined r =
      let checks = validate_ref c.namespace (ascii "get") r.object in
      checked-AreConfined c (checks >> validate_range (ascii "get") r.object.key r.range) _ λ u e.
        (((refl, checked_ref c (ascii "get") r.object (>>-both checks _ e).0), tt), omega arith)

  put-AreConfined : (r : PutRequest) → AreConfined c (put is_base64 p c r).calls
  unfolding put validate_put_request
  put-AreConfined r =
      checked-AreConfined c (validate_put_request is_base64 (ascii "put") c.namespace r) _
        λ u e. (((refl, checked_key c (ascii "put") r.key _ e), tt), omega arith)

  delete-AreConfined : (r : DeleteRequest) → AreConfined c (delete is_base64 p c r).calls
  unfolding delete object_input
  delete-AreConfined r =
      checked-AreConfined c (validate_ref c.namespace (ascii "delete") r.object) _
        λ u e. (((refl, checked_ref c (ascii "delete") r.object e), tt), omega arith)

  sign_get-AreConfined : (r : PresignGetRequest) → AreConfined c (sign_get is_base64 p c t r).calls
  unfolding sign_get object_input
  sign_get-AreConfined r =
      let operation = ascii "presign_get" in
      let checks = validate_ref c.namespace operation r.object in
      let range = validate_range operation r.object.key r.range in
      let ttl = resolve_ttl c.default_presign_ttl c.max_presign_ttl r.ttl operation r.object.key in
      checked-AreConfined c (checks >> (range >> ttl)) _ λ u e.
        let first = >>-both checks (range >> ttl) e in
        (
          (
            (
              (refl, checked_ref c operation r.object first.0),
              resolve_ttl-IsAllowedTtl c r.ttl operation r.object.key u
                  (>>-both range ttl first.1).1,
            ),
            tt,
          ),
          omega arith,
        )

  sign_put-AreConfined : (r : PresignPutRequest) → AreConfined c (sign_put is_base64 p c t r).calls
  unfolding sign_put validate_presign_put_request
  sign_put-AreConfined r =
      let operation = ascii "presign_put" in
      let checks = validate_presign_put_request is_base64 c.namespace r in
      let ttl = resolve_ttl c.default_presign_ttl c.max_presign_ttl r.ttl operation r.key in
      checked-AreConfined c (checks >> ttl) _ λ u e.
        let both = >>-both checks ttl e in
        let lifetime = resolve_ttl-IsAllowedTtl c r.ttl operation r.key u both.1 in
        ((((refl, checked_key c operation r.key _ both.0), lifetime), tt), omega arith)

  create_upload-AreConfined :
      (r : CreateMultipartRequest) → AreConfined c (create_upload is_base64 p c r).calls
  unfolding create_upload
  create_upload-AreConfined r =
      let operation = ascii "multipart_create" in
      let valid_key = wrap_invalid operation r.key (validate_key c.namespace r.key) in
      let fields =
        validate_upload_fields is_base64 operation r.key r.content_type r.metadata r.checksum in
      checked-AreConfined c (valid_key >> fields) _
        λ u e. (((refl, checked_key c operation r.key fields e), tt), omega arith)

  sign_part-AreConfined :
      (r : PresignPartRequest) → AreConfined c (sign_part is_base64 p c t r).calls
  unfolding sign_part
  sign_part-AreConfined r =
      let operation = ascii "multipart_presign_part" in
      let valid_key = wrap_invalid operation r.key (validate_key c.namespace r.key) in
      let id = validate_upload_id operation r.key r.upload_id in
      let number = validate_part_number operation r.key r.part_number in
      let ttl = resolve_ttl c.default_presign_ttl c.max_presign_ttl r.ttl operation r.key in
      checked-AreConfined c (valid_key >> (id >> (number >> ttl))) _ λ u e.
        let later = (>>-both valid_key (id >> (number >> ttl)) e).1 in
        let last = (>>-both number ttl (>>-both id (number >> ttl) later).1).1 in
        let lifetime = resolve_ttl-IsAllowedTtl c r.ttl operation r.key u last in
        (
          (((refl, checked_key c operation r.key (id >> (number >> ttl)) e), lifetime), tt),
          omega arith,
        )

  complete_upload-AreConfined :
      (r : CompleteMultipartRequest) → AreConfined c (complete_upload is_base64 p c r).calls
  unfolding complete_upload
  complete_upload-AreConfined r =
      let operation = ascii "multipart_complete" in
      let valid_key = wrap_invalid operation r.key (validate_key c.namespace r.key) in
      let id = validate_upload_id operation r.key r.upload_id in
      let rest = id >> validate_and_sort_parts operation r.key r.parts in
      checked-AreConfined c (valid_key >> rest) _
        λ u e. (((refl, checked_key c operation r.key rest e), tt), omega arith)

  abort_upload-AreConfined :
      (r : AbortMultipartRequest) → AreConfined c (abort_upload is_base64 p c r).calls
  unfolding abort_upload
  abort_upload-AreConfined r =
      let operation = ascii "multipart_abort" in
      let valid_key = wrap_invalid operation r.key (validate_key c.namespace r.key) in
      let id = validate_upload_id operation r.key r.upload_id in
      checked-AreConfined c (valid_key >> id) _
        λ u e. (((refl, checked_key c operation r.key id e), tt), omega arith)

-- An operation of the S3 client makes at most one call of the provider, and that call names the
-- client's own bucket and, but for the check of the bucket, a key that is the prefix before a
-- logical key which is not empty, valid UTF-8, without control characters and without a leading
-- slash, at most 1024 bytes together; a signed call's lifetime is from a minute to an hour and at
-- most the client's maximum.
pub calls_of-AreConfined :
    (is_base64 : Text → Bool) (p : Provider) (c : Client) (t : Clock) (o : Operation)
    → AreConfined c (calls_of is_base64 p c t o)
unfolding calls_of check_bucket
calls_of-AreConfined b p c t check_op = ((refl, tt), omega arith)
calls_of-AreConfined b p c t (stat_op r) = stat-AreConfined b p c t r
calls_of-AreConfined b p c t (get_op r) = get-AreConfined b p c t r
calls_of-AreConfined b p c t (put_op r) = put-AreConfined b p c t r
calls_of-AreConfined b p c t (delete_op r) = delete-AreConfined b p c t r
calls_of-AreConfined b p c t (sign_get_op r) = sign_get-AreConfined b p c t r
calls_of-AreConfined b p c t (sign_put_op r) = sign_put-AreConfined b p c t r
calls_of-AreConfined b p c t (create_upload_op r) = create_upload-AreConfined b p c t r
calls_of-AreConfined b p c t (sign_part_op r) = sign_part-AreConfined b p c t r
calls_of-AreConfined b p c t (complete_upload_op r) = complete_upload-AreConfined b p c t r
calls_of-AreConfined b p c t (abort_upload_op r) = abort_upload-AreConfined b p c t r
