-- ===== src/S3Store/Classes.antt =====
-- The classes of the errors of a provider, as sdk/go/objectstorage/s3store/errors.go means them.
use stellarmesh_sdk.Base.{
  ◌≡◌, refl, sym, ◌∙◌, ◌⊎◌, inl, inr, ℕ, true, false, ◌||◌, List, [], ◌∷◌, Option, none, some, eqb,
  eqb→eq, arith, Bool-cases, true-ne-false,
}
use stellarmesh_sdk.Text.{Text, ascii, to_lower, has_text}
use stellarmesh_sdk.Text.Laws.{In, has_text→In, In→has_text}
use stellarmesh_sdk.ObjectStorage.{
  Kind, not_found, forbidden, precondition_failed, conflict, invalid_argument, unavailable,
  ProviderError,
}
use stellarmesh_sdk.S3Store.{
  not_found_codes, forbidden_codes, precondition_codes, conflict_codes, invalid_codes, kind_of_code,
  kind_of_api, kind_of_status, kind_of_response, classify_error,
}

-- The kind of an HTTP status; the others have none.
abbrev pub StatusClass : ℕ → Kind → Type 0
StatusClass s invalid_argument = s ≡ 400
StatusClass s forbidden = (s ≡ 401) ⊎ (s ≡ 403)
StatusClass s not_found = s ≡ 404
StatusClass s conflict = s ≡ 409
StatusClass s precondition_failed = s ≡ 412
StatusClass s unavailable = ⊥

-- The kind of a code in lower case; the others have none.
abbrev pub CodeClass : Text → Kind → Type 0
CodeClass c not_found = In c (
    ascii "nosuchkey"
    ∷ ascii "nosuchbucket"
    ∷ ascii "notfound"
    ∷ ascii "nosuchupload"
    ∷ ascii "invalidobjectstate"
    ∷ [])
CodeClass c forbidden = In c (
    ascii "accessdenied"
    ∷ ascii "invalidaccesskeyid"
    ∷ ascii "signaturedoesnotmatch"
    ∷ ascii "expiredtoken"
    ∷ ascii "tokenrefreshrequired"
    ∷ [])
CodeClass c precondition_failed =
    In c (ascii "preconditionfailed" ∷ ascii "conditionalrequestconflict" ∷ [])
CodeClass c conflict = In c (
    ascii "bucketalreadyexists"
    ∷ ascii "bucketalreadyownedbyyou"
    ∷ ascii "operationaborted"
    ∷ ascii "conflict"
    ∷ [])
CodeClass c invalid_argument = In c (
    ascii "invalidargument"
    ∷ ascii "invalidrequest"
    ∷ ascii "invalidpart"
    ∷ ascii "invalidpartorder"
    ∷ ascii "entitytoolarge"
    ∷ ascii "entitytoosmall"
    ∷ [])
CodeClass c unavailable = ⊥

-- By the code, and without a class of its own unavailable.
abbrev pub ByCode : Option Text → Kind → Type 0
ByCode none k = k ≡ unavailable
ByCode (some c) k =
    CodeClass (to_lower c) k ⊎ (((j : Kind) → ¬ (CodeClass (to_lower c) j)) × (k ≡ unavailable))

-- By the status, and without a class of its own by the code.
abbrev pub ByStatus : Option ℕ → Option Text → Kind → Type 0
ByStatus none code k = ByCode code k
ByStatus (some s) code k = StatusClass s k ⊎ (((j : Kind) → ¬ (StatusClass s j)) × ByCode code k)

-- The end of a context is unavailable, whatever else the error holds.
abbrev pub IsClass : ProviderError → Kind → Type 0
IsClass e k =
    ((e.ended ≡ true) × (k ≡ unavailable)) ⊎ ((e.ended ≡ false) × ByStatus e.status e.code k)

not-In : (ss : List Text) (t : Text) → has_text ss t ≡ false → ¬ (In t ss)
not-In ss t h i = true-ne-false (sym (In→has_text ss t i) ∙ h)

code-cases :
    (c : Text)
    → CodeClass c (kind_of_code c)
      ⊎ (((j : Kind) → ¬ (CodeClass c j)) × (kind_of_code c ≡ unavailable))
unfolding kind_of_code
code-cases c = elim (Bool-cases (has_text not_found_codes c)) [
  | inl a ↦ inl (rw (a, kind_of_code) (has_text→In not_found_codes c a))
  | inr a ↦ elim (Bool-cases (has_text forbidden_codes c)) [
    | inl b ↦ inl (rw (a, b, kind_of_code) (has_text→In forbidden_codes c b))
    | inr b ↦ elim (Bool-cases (has_text precondition_codes c)) [
      | inl d ↦ inl (rw (a, b, d, kind_of_code) (has_text→In precondition_codes c d))
      | inr d ↦ elim (Bool-cases (has_text conflict_codes c)) [
        | inl e ↦ inl (rw (a, b, d, e, kind_of_code) (has_text→In conflict_codes c e))
        | inr e ↦ elim (Bool-cases (has_text invalid_codes c)) [
          | inl f ↦ inl (rw (a, b, d, e, f, kind_of_code) (has_text→In invalid_codes c f))
          | inr f ↦ inr (no_class a b d e f, rw (a, b, d, e, f, kind_of_code) refl)
        ]
      ]
    ]
  ]
]
  where
    no_class :
        has_text not_found_codes c ≡ false
        → has_text forbidden_codes c ≡ false
        → has_text precondition_codes c ≡ false
        → has_text conflict_codes c ≡ false
        → has_text invalid_codes c ≡ false
        → (j : Kind) → ¬ (CodeClass c j)
    no_class a b d e f not_found = not-In not_found_codes c a
    no_class a b d e f forbidden = not-In forbidden_codes c b
    no_class a b d e f precondition_failed = not-In precondition_codes c d
    no_class a b d e f conflict = not-In conflict_codes c e
    no_class a b d e f invalid_argument = not-In invalid_codes c f
    no_class a b d e f unavailable = λ i. i

kind_of_api-ByCode : (code : Option Text) → ByCode code (kind_of_api code)
unfolding kind_of_api
kind_of_api-ByCode none = refl
kind_of_api-ByCode (some c) = code-cases (to_lower c)

-- Either the status decides, or it has no class and leaves the choice.
status-cases :
    (s : ℕ) (k : Kind)
    → StatusClass s (kind_of_status s k)
      ⊎ (((j : Kind) → ¬ (StatusClass s j)) × (kind_of_status s k ≡ k))
unfolding kind_of_status
status-cases s k = elim (Bool-cases (eqb s 400)) [
  | inl a ↦ inl (rw (a, kind_of_status) (eqb→eq s 400 a))
  | inr a ↦ elim (Bool-cases (eqb s 401 || eqb s 403)) [
    | inl b ↦ inl (rw (a, b, kind_of_status) (forbidden_status b))
    | inr b ↦ elim (Bool-cases (eqb s 404)) [
      | inl d ↦ inl (rw (a, b, d, kind_of_status) (eqb→eq s 404 d))
      | inr d ↦ elim (Bool-cases (eqb s 409)) [
        | inl e ↦ inl (rw (a, b, d, e, kind_of_status) (eqb→eq s 409 e))
        | inr e ↦ elim (Bool-cases (eqb s 412)) [
          | inl f ↦ inl (rw (a, b, d, e, f, kind_of_status) (eqb→eq s 412 f))
          | inr f ↦ inr (no_class a b d e f, rw (a, b, d, e, f, kind_of_status) refl)
        ]
      ]
    ]
  ]
]
  where
    forbidden_status : (eqb s 401 || eqb s 403) ≡ true → (s ≡ 401) ⊎ (s ≡ 403)
    forbidden_status b = elim (Bool-cases (eqb s 401)) [
      | inl e ↦ inl (eqb→eq s 401 e)
      | inr e ↦ inr (eqb→eq s 403 (ground arith))
    ]

    no_class :
        eqb s 400 ≡ false
        → (eqb s 401 || eqb s 403) ≡ false
        → eqb s 404 ≡ false
        → eqb s 409 ≡ false
        → eqb s 412 ≡ false
        → (j : Kind) → ¬ (StatusClass s j)
    no_class a b d e f invalid_argument h = ground arith
    no_class a b d e f forbidden (inl h) = ground arith
    no_class a b d e f forbidden (inr h) = ground arith
    no_class a b d e f not_found h = ground arith
    no_class a b d e f conflict h = ground arith
    no_class a b d e f precondition_failed h = ground arith
    no_class a b d e f unavailable i = i

kind_of_response-ByStatus :
    (status : Option ℕ) (code : Option Text)
    → ByStatus status code (kind_of_response status (kind_of_api code))
unfolding kind_of_response
kind_of_response-ByStatus none code = kind_of_api-ByCode code
kind_of_response-ByStatus (some s) code = elim (status-cases s (kind_of_api code)) [
  | inl known ↦ inl known
  | inr (unknown, same) ↦ inr (unknown, rw same (kind_of_api-ByCode code))
]

pub classify_error-IsClass : (e : ProviderError) → IsClass e (classify_error e)
unfolding classify_error
classify_error-IsClass e = elim (Bool-cases e.ended) [
  | inl over ↦ inl (over, rw (over, classify_error) refl)
  | inr open_still ↦
      inr (open_still, rw (open_still, classify_error) (kind_of_response-ByStatus e.status e.code))
]
