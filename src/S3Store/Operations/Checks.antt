-- ===== src/S3Store/Operations/Checks.antt =====
-- What the checks of validation.go leave of a key and of a lifetime, and the errors that they give.
use stellarmesh_sdk.Base.{
  ◌≡◌, refl, ◌≤◌, true, false, ◌++◌, length, length-append, ℤ, ltℤ, Result, ok, err, ◌>>◌,
  >>=-eq-ok, arith,
}
use stellarmesh_sdk.Text.{Text, ascii, has_prefix}
use stellarmesh_sdk.Text.Utf8.{is_valid_utf8, contains_control}
use stellarmesh_sdk.Gateway.Route.{is_empty}
use stellarmesh_sdk.ObjectStorage.{
  StorageError, validate_key, validate_ttl, min_presign_ttl, max_presign_ttl,
}
use stellarmesh_sdk.S3Store.Validation.{wrap_invalid, resolve_ttl}
use stellarmesh_sdk.S3Store.Provider.{Client, physical_key}

-- A key of the provider: one that the checks allow, behind the prefix.
pub record IsPhysical (c : Client) (physical : Text) : Type 0 where
  pub logical : Text
  pub is_physical : physical ≡ c.namespace.prefix ++ logical
  pub is_not_empty : is_empty logical ≡ false
  pub is_valid : is_valid_utf8 logical ≡ true
  pub is_printable : contains_control logical ≡ false
  pub is_relative : has_prefix logical (ascii "/") ≡ false
  pub is_short : length physical ≤ 1024

pub record IsAllowedTtl (c : Client) (ttl : ℤ) : Type 0 where
  pub is_long_enough : ltℤ ttl min_presign_ttl ≡ false
  pub is_short_enough : ltℤ max_presign_ttl ttl ≡ false
  pub is_configured : ltℤ c.max_presign_ttl ttl ≡ false

pub >>-both {ℓ} :
    {B : Type ℓ} (m : Result StorageError (Unit {0})) (rest : Result StorageError B) {b : B}
    → (m >> rest) ≡ ok b
    → (m ≡ ok tt) × (rest ≡ ok b)
>>-both (ok u) rest h = (refl, h)
>>-both (err e) rest h = cc

wrap_invalid-eq-ok {ℓ} :
    {A : Type ℓ} (operation key : Text) (m : Result StorageError A) {a : A}
    → wrap_invalid operation key m ≡ ok a
    → m ≡ ok a
unfolding wrap_invalid
wrap_invalid-eq-ok operation key (ok b) h = h
wrap_invalid-eq-ok operation key (err e) h = cc

pub validate_key-IsPhysical :
    (c : Client) (operation key : Text)
    → wrap_invalid operation key (validate_key c.namespace key) ≡ ok tt
    → IsPhysical c (physical_key c key)
unfolding validate_key physical_key
validate_key-IsPhysical c operation key h =
    let allowed = wrap_invalid-eq-ok operation key (validate_key c.namespace key) h in
    record {
      logical = key;
      is_physical = refl;
      is_not_empty = ground arith;
      is_valid = ground arith;
      is_printable = ground arith;
      is_relative = ground arith;
      is_short = ground (arith, length-append c.namespace.prefix key);
    }

pub resolve_ttl-IsAllowedTtl :
    (c : Client) (value : ℤ) (operation key : Text) (ttl : ℤ)
    → resolve_ttl c.default_presign_ttl c.max_presign_ttl value operation key ≡ ok ttl
    → IsAllowedTtl c ttl
unfolding resolve_ttl validate_ttl
resolve_ttl-IsAllowedTtl c value operation key ttl h =
    let (resolved, valid, rest) = >>=-eq-ok _ _ h in
    let bounded =
      wrap_invalid-eq-ok operation key (validate_ttl value c.default_presign_ttl) valid in
    record {
      is_long_enough = ground arith;
      is_short_enough = ground arith;
      is_configured = ground arith;
    }
