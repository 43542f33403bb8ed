-- ===== src/S3Store.antt =====
-- The S3 adapter, sdk/go/objectstorage/s3store: here errors.go, the classes of errors.
pub mod Classes
pub mod Validation
pub mod Parts
pub mod Provider
pub mod Config
pub mod Objects
pub mod Operations
mod Tests
mod ConfigTests
use stellarmesh_sdk.Base.{
  ℕ, Bool, true, false, ◌||◌, List, [], ◌∷◌, Option, none, some, eqb, if◌then◌else◌,
}
use stellarmesh_sdk.Text.{Text, ascii, to_lower, has_text}
use stellarmesh_sdk.ObjectStorage.{
  Kind, not_found, forbidden, precondition_failed, conflict, invalid_argument, unavailable,
  ProviderError, StorageError, failed, wrapped, provided,
}

abbrev not_found_codes : List Text
not_found_codes =
    ascii "nosuchkey"
    ∷ ascii "nosuchbucket"
    ∷ ascii "notfound"
    ∷ ascii "nosuchupload"
    ∷ ascii "invalidobjectstate"
    ∷ []

abbrev forbidden_codes : List Text
forbidden_codes =
    ascii "accessdenied"
    ∷ ascii "invalidaccesskeyid"
    ∷ ascii "signaturedoesnotmatch"
    ∷ ascii "expiredtoken"
    ∷ ascii "tokenrefreshrequired"
    ∷ []

abbrev precondition_codes : List Text
precondition_codes = ascii "preconditionfailed" ∷ ascii "conditionalrequestconflict" ∷ []

abbrev conflict_codes : List Text
conflict_codes =
    ascii "bucketalreadyexists"
    ∷ ascii "bucketalreadyownedbyyou"
    ∷ ascii "operationaborted"
    ∷ ascii "conflict"
    ∷ []

abbrev invalid_codes : List Text
invalid_codes =
    ascii "invalidargument"
    ∷ ascii "invalidrequest"
    ∷ ascii "invalidpart"
    ∷ ascii "invalidpartorder"
    ∷ ascii "entitytoolarge"
    ∷ ascii "entitytoosmall"
    ∷ []

-- The `switch` on the code.
kind_of_code : Text → Kind
kind_of_code code =
    if has_text not_found_codes code
    then not_found
    else if has_text forbidden_codes code
    then forbidden
    else if has_text precondition_codes code
    then precondition_failed
    else if has_text conflict_codes code
    then conflict
    else if has_text invalid_codes code
    then invalid_argument
    else unavailable

kind_of_api : Option Text → Kind
unfolding kind_of_code
kind_of_api none = unavailable
kind_of_api (some code) = kind_of_code (to_lower code)

-- The `switch` on the status; any other status leaves the choice to the code.
kind_of_status : ℕ → Kind → Kind
kind_of_status status other =
    if eqb status 400
    then invalid_argument
    else if eqb status 401 || eqb status 403
    then forbidden
    else if eqb status 404
    then not_found
    else if eqb status 409
    then conflict
    else if eqb status 412
    then precondition_failed
    else other

kind_of_response : Option ℕ → Kind → Kind
unfolding kind_of_status
kind_of_response none other = other
kind_of_response (some status) other = kind_of_status status other

-- `classifyError`.
unfoldable pub classify_error : ProviderError → Kind
unfolding kind_of_response kind_of_api
classify_error e = if e.ended then unavailable else kind_of_response e.status (kind_of_api e.code)

-- `wrapProviderError` of an error.
unfoldable pub wrap_provider_error : Text → Text → ProviderError → StorageError
wrap_provider_error operation key e = provided (classify_error e) operation key e

abbrev pub same_kind : Kind → Kind → Bool
same_kind not_found not_found = true
same_kind forbidden forbidden = true
same_kind precondition_failed precondition_failed = true
same_kind conflict conflict = true
same_kind invalid_argument invalid_argument = true
same_kind unavailable unavailable = true
same_kind _ _ = false

-- `errors.Is` of an error and one of the sentinels, by `Error.Unwrap`: the kind, or what is wrapped. The
-- error of a provider is the SDK's, which holds none of the sentinels.
unfoldable pub is_kind : StorageError → Kind → Bool
is_kind (failed k operation key) kind = same_kind k kind
is_kind (wrapped k operation key e) kind = same_kind k kind || is_kind e kind
is_kind (provided k operation key e) kind = same_kind k kind

first_kind : StorageError → List Kind → Kind
first_kind e [] = unavailable
first_kind e (k ∷ ks) = if is_kind e k then k else first_kind e ks

-- `errorKind`.
unfoldable pub error_kind : StorageError → Kind
unfolding first_kind
error_kind e =
    first_kind e
      (not_found ∷ forbidden ∷ precondition_failed ∷ conflict ∷ invalid_argument ∷ unavailable ∷ [])
