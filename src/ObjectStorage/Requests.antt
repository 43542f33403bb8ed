-- ===== src/ObjectStorage/Requests.antt =====
-- The requests and results of sdk/go/objectstorage/objectstorage.go. A missing text is empty, as
-- in the source; metadata is the list of a map's entries.
use stellarmesh_sdk.Base.{ℕ, Bool, List, Option, ℤ}
use stellarmesh_sdk.Text.{Text}
use stellarmesh_sdk.ObjectStorage.{Kind}

pub record ObjectRef : Type 0 where
  pub key : Text
  pub version_id : Text

pub record ByteRange : Type 0 where
  pub start : ℤ
  pub end : Option ℤ

pub record HeaderChecksum : Type 0 where
  pub crc32 : Text
  pub crc32c : Text
  pub sha1 : Text
  pub sha256 : Text

abbrev pub Metadata : Type 0
Metadata = List (Text × Text)

-- `last_modified` is a time.
pub record ObjectInfo : Type 0 where
  pub key : Text
  pub version_id : Text
  pub etag : Text
  pub size : ℤ
  pub content_type : Text
  pub last_modified : ℕ
  pub metadata : Metadata
  pub checksum : HeaderChecksum

-- `body` is what the stream holds.
pub record Object : Type 0 where
  pub info : ObjectInfo
  pub body : Text

pub record PutRequest : Type 0 where
  pub key : Text
  pub body : Option Text
  pub size : ℤ
  pub content_type : Text
  pub metadata : Metadata
  pub checksum : HeaderChecksum
  pub if_match : Text
  pub if_none_match : Text

pub record GetRequest : Type 0 where
  pub object : ObjectRef
  pub range : Option ByteRange

pub record DeleteRequest : Type 0 where
  pub object : ObjectRef
  pub if_match : Text

pub record PresignGetRequest : Type 0 where
  pub object : ObjectRef
  pub range : Option ByteRange
  pub ttl : ℤ

pub record PresignPutRequest : Type 0 where
  pub key : Text
  pub size : ℤ
  pub content_type : Text
  pub metadata : Metadata
  pub checksum : HeaderChecksum
  pub if_match : Text
  pub if_none_match : Text
  pub ttl : ℤ

pub record PresignedRequest : Type 0 where
  pub method : Text
  pub url : Text
  pub headers : List (Text × List Text)
  pub expires_at : ℕ

pub record CreateMultipartRequest : Type 0 where
  pub key : Text
  pub content_type : Text
  pub metadata : Metadata
  pub checksum : HeaderChecksum

pub record MultipartUpload : Type 0 where
  pub key : Text
  pub upload_id : Text

pub record PresignPartRequest : Type 0 where
  pub key : Text
  pub upload_id : Text
  pub part_number : ℤ
  pub ttl : ℤ

pub record CompletedPart : Type 0 where
  pub part_number : ℤ
  pub etag : Text

pub record CompleteMultipartRequest : Type 0 where
  pub key : Text
  pub upload_id : Text
  pub parts : List CompletedPart
  pub if_match : Text
  pub if_none_match : Text

pub record AbortMultipartRequest : Type 0 where
  pub key : Text
  pub upload_id : Text

-- `Outcome` is a success where `error_kind` is `none`, which is nil in the source.
pub record Observation : Type 0 where
  pub operation : Text
  pub success : Bool
  pub duration : ℕ
  pub bytes : ℤ
  pub error_kind : Option Kind
