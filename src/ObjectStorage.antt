-- ===== src/ObjectStorage.antt =====
-- sdk/go/objectstorage/objectstorage.go: the errors of object storage, namespaces, and the checks of
-- keys and lifetimes. The texts of the messages are left out.
pub mod Requests
use stellarmesh_sdk.Base.{
  Option, ℕ, ◌+◌, Bool, true, false, not, ◌&&◌, ◌||◌, List, [], ◌∷◌, ◌++◌, ltb, if◌then◌else◌,
  length, ℤ, pos, ltℤ, is_zero, Result, ok, err, refuse, ◌>>◌,
}
use stellarmesh_sdk.Text.{Text, ascii, ◌==◌, trim_space, has_prefix, trim_right}
use stellarmesh_sdk.Text.Utf8.{is_valid_utf8, contains_control}
use stellarmesh_sdk.Gateway.Route.{is_empty}

-- The six sentinel errors.
pub data Kind : Type 0 where
  not_found forbidden precondition_failed conflict invalid_argument unavailable : Kind

-- What the program reads of an error of the provider: whether it is a context's end, the status
-- of an HTTP response, and the code of an API error.
pub record ProviderError : Type 0 where
  pub ended : Bool
  pub status : Option ℕ
  pub code : Option Text

-- `Error`: a check that failed, another `Error` that is wrapped, or a provider's.
pub data StorageError : Type 0 where
  failed : (kind : Kind) (operation key : Text) → StorageError
  wrapped : (kind : Kind) (operation key : Text) → StorageError → StorageError
  provided : (kind : Kind) (operation key : Text) → ProviderError → StorageError

abbrev pub kind_of : StorageError → Kind
kind_of (failed kind operation key) = kind
kind_of (wrapped kind operation key e) = kind
kind_of (provided kind operation key e) = kind

pub record Namespace : Type 0 where
  pub bucket : Text
  pub prefix : Text

abbrev pub max_object_key_bytes : ℕ
max_object_key_bytes = 1024

abbrev pub max_single_put_bytes : ℤ
max_single_put_bytes = pos 5_368_709_120

-- In nanoseconds, as `time.Duration` is.
abbrev pub min_presign_ttl : ℤ
min_presign_ttl = pos 60_000_000_000

abbrev pub max_presign_ttl : ℤ
max_presign_ttl = pos 3_600_000_000_000

abbrev pub invalid : Text → Text → StorageError
invalid operation key = failed invalid_argument operation key

abbrev refuse_namespace : Bool → Result StorageError (Unit {0})
refuse_namespace bad = refuse bad (invalid (ascii "configure") [])

abbrev pub is_trimmed : Text → Bool
is_trimmed s = s == trim_space s

-- One slash at the end of a prefix that is not empty.
unfoldable pub closed_prefix : Text → Text
closed_prefix [] = []
closed_prefix (c ∷ s) = (c ∷ s) ++ ascii "/"

-- `NormalizeNamespace`.
unfoldable pub normalize_namespace : Namespace → Result StorageError Namespace
normalize_namespace n =
    let prefix = closed_prefix (trim_right n.prefix b'/') in
    refuse_namespace (is_empty (trim_space n.bucket) || not (is_trimmed n.bucket))
    >> (refuse_namespace (not (is_valid_utf8 n.bucket) || contains_control n.bucket)
        >> (refuse_namespace (has_prefix n.prefix (ascii "/"))
            >> (refuse_namespace (not (is_valid_utf8 n.prefix) || contains_control n.prefix)
                >> (refuse_namespace (ltb max_object_key_bytes (length prefix))
                    >> ok (record { bucket = n.bucket; prefix = prefix })))))

abbrev check_key : Text → Bool → Result StorageError (Unit {0})
check_key key bad = refuse bad (invalid (ascii "validate") key)

-- `ValidateKey`.
unfoldable pub validate_key : Namespace → Text → Result StorageError (Unit {0})
validate_key n key =
    check_key key (not (is_valid_utf8 key) || (is_empty key || not (is_trimmed key)))
    >> (check_key key (has_prefix key (ascii "/") || contains_control key)
        >> check_key key (ltb max_object_key_bytes (length n.prefix + length key)))

abbrev or_ttl : ℤ → ℤ → ℤ
or_ttl ttl default = if is_zero ttl then default else ttl

-- `ValidateTTL`.
unfoldable pub validate_ttl : ℤ → ℤ → Result StorageError ℤ
validate_ttl ttl default =
    let chosen = or_ttl ttl default in
    if ltℤ chosen min_presign_ttl || ltℤ max_presign_ttl chosen
    then err (invalid (ascii "presign") [])
    else ok chosen
