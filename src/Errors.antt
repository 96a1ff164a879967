-- ===== src/Errors.antt =====
-- app/exceptions.py, with the exceptions of the language and of the packages that the code
-- raises, catches or lets through. A call returns its value or raises.
use resume_screening_service.Common.{ℕ, String, Bool, true, false, ◌≡◌, refl, ◌⊎◌, inl, inr}

pub data Exn : Type 0 where
  -- `HTTPException(status_code, detail)`
  http_exception : ℕ → String → Exn
  -- `class ServiceError` has these six subclasses
  resource_not_found resource_conflict invalid_credentials resume_content resume_parser_unavailable
        vector_indexing :
      String → Exn
  -- `ValueError` itself, and its subclasses that JSON and pydantic raise
  value_error json_error validation_error : String → Exn
  key_error runtime_error overflow_error attribute_error type_error : Exn
  -- SQLAlchemy's `IntegrityError`, `google.auth.exceptions.GoogleAuthError`
  integrity_error google_auth_error : Exn
  -- any other exception of a package, by its text
  package_error : String → Exn

-- `isinstance(exc, ValueError)`
abbrev pub is_value_error : Exn → Bool
is_value_error (value_error _) = true
is_value_error (json_error _) = true
is_value_error (validation_error _) = true
is_value_error _ = false

pub data Result {ℓ} (A : Type ℓ) : Type ℓ where
  ok : A → Result A
  raised : Exn → Result A

-- To split on a result and keep the equation.
pub Result-cases {ℓ} :
    {A : Type ℓ} (r : Result A) → ((a : A) × (r ≡ ok a)) ⊎ ((e : Exn) × (r ≡ raised e))
Result-cases (ok a) = inl (a, refl)
Result-cases (raised e) = inr (e, refl)
