-- ===== src/JwtAuth.antt =====
-- Session tokens of self-registered tenants: app/jwt_auth.py.
use resume_screening_service.Common.{String, Option, none, some, truthy, not, if◌then◌else◌}
use resume_screening_service.Common.Int.{pos}
use resume_screening_service.Errors.{runtime_error, Result, ok, raised}
use resume_screening_service.Clock.{minutes, later}
use resume_screening_service.Models.{Uuid}
use resume_screening_service.Services.{Env}

module _ (env : Env) where
  open env use {settings, services, now, show_uuid, parse_uuid}

  -- `now + timedelta(minutes=settings.jwt_expiry_minutes)`, then the signed payload
  unfoldable pub create_access_token : Uuid → Result String
  create_access_token tenant_id =
      if not (truthy settings.jwt_secret)
      then raised runtime_error
      else elim (minutes (pos settings.jwt_expiry_minutes)) [
        | raised e ↦ raised e
        | ok span ↦ elim (later now span) [
          | raised e ↦ raised e
          | ok exp ↦ ok (
              services.jwt_encode
                (record { sub = some (show_uuid tenant_id); iat = now; exp = exp })
                settings.jwt_secret)
        ]
      ]

  -- The `except` turns an invalid token, a payload with no `sub` and a `sub` that is no UUID
  -- into `None`.
  unfoldable pub decode_access_token : String → Option Uuid
  decode_access_token token =
      if not (truthy settings.jwt_secret)
      then none
      else elim (services.jwt_decode now token settings.jwt_secret) [
        | none ↦ none
        | some payload ↦ elim payload.sub [ none ↦ none | some sub ↦ parse_uuid sub ]
      ]
