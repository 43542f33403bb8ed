-- ===== src/S3Store/Tests.antt =====
-- Tests of the S3 adapter, and its theorems at concrete requests.
use stellarmesh_sdk.Base.{◌≡◌, refl, Bool, true, false, [], ◌∷◌, none, some, pos, ok, err}
use stellarmesh_sdk.Text.{
  Text, ascii, decimal, has_prefix, has_text, lower_byte, text_discrete, to_lower, trim_left,
  trim_right, trim_space,
}
use stellarmesh_sdk.ObjectStorage.{
  normalize_namespace, forbidden, invalid, ProviderError, closed_prefix, validate_key, validate_ttl,
}
use stellarmesh_sdk.ObjectStorage.Requests.{
  PresignGetRequest, CompletedPart, CompleteMultipartRequest,
}
use stellarmesh_sdk.S3Store.{classify_error}
use stellarmesh_sdk.S3Store.Validation.{
  format_range, resolve_ttl, validate_part_number, validate_range, validate_ref, wrap_invalid,
}
use stellarmesh_sdk.S3Store.Parts.{validate_and_sort_parts, check_parts, insert_part, sort_parts}
use stellarmesh_sdk.S3Store.Parts.Sorted.{IsSortOf, validate_and_sort_parts-IsSortOf}
use stellarmesh_sdk.S3Store.Provider.{
  presign_get, Provider, Client, Clock, ChecksumOutput, physical_key, string_pointer,
}
use stellarmesh_sdk.S3Store.Operations.Confined.{
  sign_get_op, complete_upload_op, calls_of, AreConfined, calls_of-AreConfined,
}
use stellarmesh_sdk.S3Store.Operations.Sourced.{IsSourced}
use stellarmesh_sdk.S3Store.Operations.Errors.{error_of, error_of-IsSourced}
use stellarmesh_sdk.S3Store.Operations.Observations.{
  observations_of, IsReport, observations_of-IsReport,
}
use stellarmesh_sdk.S3Store.Operations.{sign_get}
use stellarmesh_sdk.Text.ParseInt
use stellarmesh_sdk.Text.Utf8.{contains_control, is_valid_utf8}

abbrev no_checksums : ChecksumOutput
no_checksums = record { crc32 = none; crc32c = none; sha1 = none; sha256 = none }

abbrev denied : ProviderError
denied = record { ended = false; status = some 500; code = some (ascii "AccessDenied") }

-- A provider that signs, and refuses all else.
abbrev signer : Provider
signer = record {
  bucket_answer = λ call. err denied;
  object_answer = λ call. err denied;
  write_answer = λ call. err denied;
  upload_answer = λ call. err denied;
  signed_answer =
      λ call. ok (record { method = ascii "GET"; url = ascii "https://s3/x"; headers = [] });
}

abbrev client : Client
client = record {
  namespace = record { bucket = ascii "data"; prefix = ascii "team/" };
  default_presign_ttl = pos 900_000_000_000;
  max_presign_ttl = pos 1_800_000_000_000;
  observer = true;
}

abbrev clock : Clock
clock = record { started = 10; signed = 20; finished = 30 }

abbrev is_base64 : Text → Bool
is_base64 s = true

abbrev report_request : PresignGetRequest
report_request = record {
  object = record { key = ascii "report"; version_id = [] };
  range = some (record { start = pos 0; end = some (pos 9) });
  ttl = pos 0;
}

signs :
    calls_of is_base64 signer client clock (sign_get_op report_request)
    ≡ presign_get
        (record {
          bucket = ascii "data";
          key = ascii "team/report";
          version_id = none;
          range = some (ascii "bytes=0-9");
          if_match = none;
        })
        (pos 900_000_000_000)
      ∷ []
unfolding calls_of sign_get validate_ref wrap_invalid validate_key is_valid_utf8 text_discrete
    trim_space has_prefix contains_control validate_range resolve_ttl validate_ttl physical_key
    string_pointer format_range ParseInt.signed_decimal decimal
signs = refl

calls_of-AreConfined_example :
    AreConfined client (calls_of is_base64 signer client clock (sign_get_op report_request))
calls_of-AreConfined_example =
    calls_of-AreConfined is_base64 signer client clock (sign_get_op report_request)

abbrev second_part : CompletedPart
second_part = record { part_number = pos 2; etag = ascii "b" }

abbrev first_part : CompletedPart
first_part = record { part_number = pos 1; etag = ascii "a" }

abbrev complete_request : CompleteMultipartRequest
complete_request = record {
  key = ascii "movie";
  upload_id = ascii "u1";
  parts = second_part ∷ first_part ∷ [];
  if_match = [];
  if_none_match = [];
}

sorts :
    validate_and_sort_parts (ascii "c") (ascii "k") (second_part ∷ first_part ∷ [])
    ≡ ok (first_part ∷ second_part ∷ [])
unfolding validate_and_sort_parts check_parts validate_part_number trim_space has_prefix sort_parts
    insert_part
sorts = refl

repeats :
    validate_and_sort_parts (ascii "c") (ascii "k") (first_part ∷ first_part ∷ [])
    ≡ err (invalid (ascii "c") (ascii "k"))
unfolding validate_and_sort_parts check_parts validate_part_number trim_space has_prefix
repeats = refl

validate_and_sort_parts-IsSortOf_example :
    IsSortOf
      (second_part ∷ first_part ∷ [])
      (validate_and_sort_parts (ascii "c") (ascii "k") (second_part ∷ first_part ∷ []))
validate_and_sort_parts-IsSortOf_example =
    validate_and_sort_parts-IsSortOf (ascii "c") (ascii "k") (second_part ∷ first_part ∷ [])

error_of-IsSourced_example :
    IsSourced signer
      (ascii "multipart_complete")
      complete_request.key
      (calls_of is_base64 signer client clock (complete_upload_op complete_request))
      (error_of is_base64 signer client clock (complete_upload_op complete_request))
error_of-IsSourced_example =
    error_of-IsSourced is_base64 signer client clock (complete_upload_op complete_request)

-- The status has no class of its own, so the code decides.
classifies : classify_error denied ≡ forbidden
unfolding classify_error has_text text_discrete to_lower lower_byte
classifies = refl

normalizes :
    normalize_namespace (record { bucket = ascii "data"; prefix = ascii "a/b//" })
    ≡ ok (record { bucket = ascii "data"; prefix = ascii "a/b/" })
unfolding normalize_namespace trim_space has_prefix text_discrete is_valid_utf8 contains_control
    closed_prefix trim_right trim_left
normalizes = refl

observations_of-IsReport_example :
    IsReport true
      (error_of is_base64 signer client clock (complete_upload_op complete_request))
      (observations_of is_base64 signer client clock (complete_upload_op complete_request))
observations_of-IsReport_example =
    observations_of-IsReport is_base64 signer client clock (complete_upload_op complete_request)
