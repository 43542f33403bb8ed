-- ===== src/Gateway/Types.antt =====
-- The data that the gateway's components exchange: sdk/go/gateway/route.go, authentication.go,
-- policy.go, rate_limit.go, response.go, and what they read of `http.Request`.
use stellarmesh_sdk.Base.{◌≡◌, ℕ, Bool, List, Option, none, ℤ}
use stellarmesh_sdk.Text.{Text}
use stellarmesh_sdk.Gateway.Header.{Header}

-- `AccessMode` is a `uint8`; these are its two valid values.
abbrev pub access_protected : ℕ
access_protected = 0

abbrev pub access_public : ℕ
access_public = 1

pub record RouteMatch : Type 0 where
  pub methods : List Text
  pub exact_path : Text
  pub path_prefix : Text

pub record Route : Type 0 where
  pub name : Text
  pub match : RouteMatch
  pub upstream : Text
  pub access : ℕ
  pub max_body_bytes : ℤ

-- An attribute's value is of any type in the source, which only copies it: here it is a text.
pub record Identity : Type 0 where
  pub user_id : Text
  pub roles : List Text
  pub attributes : Option (List (Text × Text))

pub record AuthenticationDecision : Type 0 where
  pub authenticated : Bool
  pub identity : Identity
  pub reason : Text

pub record PolicyDecision : Type 0 where
  pub allowed : Bool
  pub reason : Text

pub record RequestContext : Type 0 where
  pub request_id : Text
  pub client_ip : Text
  pub route : Route
  pub identity : Option Identity

pub data RateLimitScope : Type 0 where
  client_ip user_id upstream : RateLimitScope

pub record RateLimitRequest : Type 0 where
  pub scope : RateLimitScope
  pub key : Text
  pub route : Text
  pub upstream : Text

-- `retry_after` is in nanoseconds, as `time.Duration` is.
pub record RateLimitDecision : Type 0 where
  pub allowed : Bool
  pub remaining : ℤ
  pub retry_after : ℤ
  pub reason : Text

-- A Go `error`: `ErrInvalidCredential`, or what wraps it, or any other with its message.
pub data Error : Type 0 where
  invalid_credential : Error
  failure : Text → Error

pub record GatewayError : Type 0 where
  pub status : ℕ
  pub code : Text
  pub message : Text
  pub retry_after : ℤ
  pub cause : Option Error

-- What `r.Context()` carries: the keys of context.go.
pub record Context : Type 0 where
  pub request_id : Option Text
  pub route : Option Route
  pub identity : Option Identity
  pub client_ip : Option Text

abbrev pub empty_context : Context
empty_context = record { request_id = none; route = none; identity = none; client_ip = none }

-- `body_limit` is the bound of an `http.MaxBytesReader` around the body.
pub record Request : Type 0 where
  pub method : Text
  pub path : Text
  pub header : Header
  pub remote_addr : Text
  pub content_length : ℤ
  pub has_body : Bool
  pub body_limit : Option ℤ
  pub context : Context

-- What a panic carries, as far as the gateway tells panics apart.
pub data Panic : Type 0 where
  abort_handler other : Panic

-- How a call of a project's component ends.
pub data Call {ℓ} (A : Type ℓ) : Type ℓ where
  returns : A → Call A
  fails : Error → Call A
  panics : Panic → Call A

pub returns-inj {ℓ} : {A : Type ℓ} {a b : A} → returns a ≡ returns b → a ≡ b
returns-inj h = cc

pub fails-ne-returns {ℓ} :
    {A : Type ℓ} {e : Error} {a : A} → ¬ (◌≡◌ {A = Call A} (fails e) (returns a))
fails-ne-returns h = cc
