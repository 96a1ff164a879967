-- ===== src/AuthRoutes.antt =====
-- The routes under /auth: app/routers/auth.py.
use resume_screening_service.Common.{String}
use resume_screening_service.Errors.{
  Exn, Result, ok, raised, http_exception, resource_conflict, resource_not_found,
  invalid_credentials, runtime_error, google_auth_error, value_error, json_error, validation_error,
}
use resume_screening_service.Models.{Uuid}
use resume_screening_service.Schemas.{TokenResponse}
use resume_screening_service.Services.{Env}
use resume_screening_service.Session.{Action, lift, raise, catch, ◌>>=◌}
use resume_screening_service.JwtAuth.{create_access_token}
use resume_screening_service.Registration.{
  register_with_password, authenticate_with_password, register_or_login_with_google,
}

abbrev pub no_secret : Exn
no_secret = http_exception 503 "JWT_SECRET is not configured on the server."

-- `except RuntimeError`
abbrev pub as_unavailable : Exn → Exn
as_unavailable runtime_error = no_secret
as_unavailable e = e

-- `except ResourceConflictError`
abbrev pub as_conflict : Exn → Exn
as_conflict (resource_conflict detail) = http_exception 409 detail
as_conflict e = e

-- `except InvalidCredentialsError`
abbrev pub as_unauthorized : Exn → Exn
as_unauthorized (invalid_credentials detail) = http_exception 401 detail
as_unauthorized e = e

-- `except ResourceNotFoundError`, `except (GoogleAuthError, ValueError)`
abbrev pub as_google_error : Exn → Exn
as_google_error (resource_not_found detail) = http_exception 503 detail
as_google_error google_auth_error = http_exception 401 "Invalid Google ID token."
as_google_error (value_error _) = http_exception 401 "Invalid Google ID token."
as_google_error (json_error _) = http_exception 401 "Invalid Google ID token."
as_google_error (validation_error _) = http_exception 401 "Invalid Google ID token."
as_google_error e = e

module _ (env : Env) where
  -- `_token_response`
  unfoldable pub token_response : Uuid → Result TokenResponse
  token_response tenant_id = elim (create_access_token env tenant_id) [
    | raised e ↦ raised (as_unavailable e)
    | ok token ↦ ok (record { access_token = token; token_type = "bearer"; tenant_id = tenant_id })
  ]

  unfoldable pub register : String → String → Action TokenResponse
  unfolding token_response
  register email password = do
    tenant ← catch (register_with_password env email password) (λ e. raise (as_conflict e))
    lift (token_response tenant.id)

  unfoldable pub login : String → String → Action TokenResponse
  unfolding token_response
  login email password = do
    tenant ← catch (authenticate_with_password env email password) (λ e. raise (as_unauthorized e))
    lift (token_response tenant.id)

  unfoldable pub google_auth : String → Action TokenResponse
  unfolding token_response
  google_auth id_token = do
    tenant ← catch (register_or_login_with_google env id_token) (λ e. raise (as_google_error e))
    lift (token_response tenant.id)
