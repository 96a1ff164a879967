-- ===== src/AdminAuth.antt =====
-- HTTP Basic for the admin routes: app/admin_auth.py.
pub mod Closed
use resume_screening_service.Common.{
  String, Bool, is_ascii, ⊤, ◌&&◌, ◌||◌, not, truthy, ◌==◌, string_eq, if◌then◌else◌,
}
use resume_screening_service.Errors.{Exn, type_error, http_exception, Result, ok, raised}
use resume_screening_service.Services.{Env}

pub record Credentials : Type 0 where
  pub username : String
  pub password : String

-- `secrets.compare_digest` of two texts: their equality, and an error unless both are ASCII.
unfoldable pub compare_digest : String → String → Result Bool
compare_digest a b = if is_ascii a && is_ascii b then ok (a == b) else raised type_error

module _ (env : Env) where
  open env use {settings}

  abbrev pub not_configured : Exn
  not_configured =
      http_exception 503 "ADMIN_USERNAME/ADMIN_PASSWORD are not configured on the server."

  abbrev pub invalid_credentials : Exn
  invalid_credentials = http_exception 401 "Invalid admin credentials."

  unfoldable pub require_admin : Credentials → Result ⊤
  require_admin credentials =
      if not (truthy settings.admin_username) || not (truthy settings.admin_password)
      then raised not_configured
      else elim (compare_digest credentials.username settings.admin_username) [
        | raised e ↦ raised e
        | ok valid_username ↦ elim (compare_digest credentials.password settings.admin_password) [
          | raised e ↦ raised e
          | ok valid_password ↦
              if not (valid_username && valid_password) then raised invalid_credentials else ok tt
        ]
      ]
