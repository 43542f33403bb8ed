-- ===== src/Storage/Validation.antt =====
-- services/storage/internal/storagev1/validation.go: the checks that the HTTP requests share.
use stellarmesh_sdk.Base.{
  ℕ, ◌+◌, ◌-◌, ◌*◌, Bool, false, not, ◌&&◌, ◌||◌, [], ◌∷◌, ltb, leb, eqb, if◌then◌else◌, length,
  all, ℤ, pos, negsuc, ltℤ, is_zero, Result, ok, err, refuse, ◌>>=◌, ◌>>◌,
}
use stellarmesh_sdk.Text.{Text}
use stellarmesh_sdk.Text.Utf8.{is_valid_utf8, contains_control}
use stellarmesh_sdk.Gateway.Route.{is_empty}
use stellarmesh_sdk.ObjectStorage.{StorageError, Namespace, validate_key}
use stellarmesh_sdk.ObjectStorage.Requests.{Metadata}

abbrev is_lower_letter : ℕ → Bool
is_lower_letter c = leb b'a' c && leb c b'z'

abbrev is_name_byte : ℕ → Bool
is_name_byte c = is_lower_letter c || ((leb b'0' c && leb c b'9') || (eqb c b'_' || eqb c b'-'))

-- `namespacePattern`: a small letter, and at most 63 letters, digits, underscores and dashes.
unfoldable pub matches_namespace : Text → Bool
matches_namespace [] = false
matches_namespace (c ∷ s) = is_lower_letter c && (all is_name_byte s && leb (length s) 63)

pub data InputError : Type 0 where
  namespace_name_invalid version_id_invalid content_type_invalid : InputError
  metadata_too_many metadata_invalid metadata_too_large expires_in_invalid : InputError
  key_invalid : StorageError → InputError

-- `ValidateNamespaceName`.
unfoldable pub validate_namespace_name : Text → Result InputError (Unit {0})
validate_namespace_name name = refuse (not (matches_namespace name)) namespace_name_invalid

key_result : Result StorageError (Unit {0}) → Result InputError (Unit {0})
key_result (ok u) = ok u
key_result (err e) = err (key_invalid e)

abbrev is_opaque : Text → Bool
is_opaque s = is_valid_utf8 s && not (contains_control s)

-- The loop over the metadata; the number is `metadataBytes`.
metadata_bytes : ℕ → Metadata → Result InputError ℕ
metadata_bytes count [] = ok count
metadata_bytes count ((k, v) ∷ m) =
    let rest = metadata_bytes (count + (length k + length v)) m in
    if is_empty k || not (is_opaque k && is_opaque v) then err metadata_invalid else rest

-- `ValidateObjectInput`.
unfoldable pub validate_object_input :
    Namespace → Text → Text → Text → Metadata → Result InputError (Unit {0})
unfolding key_result metadata_bytes
validate_object_input n key version_id content_type metadata =
    key_result (validate_key n key)
    >> (refuse (not (is_empty version_id) && not (is_opaque version_id)) version_id_invalid
        >> (refuse (ltb 255 (length content_type) || not (is_opaque content_type))
              content_type_invalid
            >> (refuse (ltb 32 (length metadata)) metadata_too_many
                >> (metadata_bytes 0 metadata >>= λ count.
                    refuse (ltb 2048 count) metadata_too_large))))

abbrev or_default : ℤ → ℤ
or_default seconds = if is_zero seconds then pos 900 else seconds

abbrev in_seconds : ℤ → ℤ
in_seconds (pos n) = pos (n * 1_000_000_000)
in_seconds (negsuc n) = negsuc ((n + 1) * 1_000_000_000 - 1)

-- `PresignTTL`.
unfoldable pub presign_ttl : ℤ → Result InputError ℤ
presign_ttl seconds =
    refuse (ltℤ (or_default seconds) (pos 60) || ltℤ (pos 3600) (or_default seconds))
      expires_in_invalid
    >> ok (in_seconds (or_default seconds))
