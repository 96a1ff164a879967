-- ===== src/Auth.antt =====
-- Who is calling: app/auth.py. Both dependencies resolve a request to its tenant.
pub mod Keys
pub mod Tokens
use resume_screening_service.Common.{
  String, Bool, Option, none, some, ⊤, not, ◌&&◌, ◌||◌, is_none, find, put, truthy, option_truthy,
  partition, lower_is, ◌==◌, string_eq, if◌then◌else◌,
}
use resume_screening_service.Errors.{Exn, http_exception}
use resume_screening_service.Models.{Uuid, ApiKey, api_key_row}
use resume_screening_service.Services.{Env}
use resume_screening_service.Session.{
  Action, pure, raise, query, or_raise, raise_if, update, commit, ◌>>=◌, ◌>>◌,
}
use resume_screening_service.JwtAuth.{decode_access_token}

abbrev pub missing_key : Exn
missing_key = http_exception 401 "Missing X-API-Key header."

abbrev pub invalid_key : Exn
invalid_key = http_exception 401 "Invalid or revoked API key."

abbrev pub malformed_header : Exn
malformed_header = http_exception 401 "Malformed Authorization header - expected 'Bearer <token>'."

abbrev pub invalid_session : Exn
invalid_session = http_exception 401 "Invalid or expired session token."

-- `ApiKey.hashed_key == hash, ApiKey.revoked_at.is_(None)`
abbrev pub is_live : String → ApiKey → Bool
is_live hash k = k.hashed_key == hash && is_none k.revoked_at

module _ (env : Env) where
  open env use {services, now}

  -- `_hash_key`
  abbrev pub hash_key : String → String
  hash_key raw_key = services.sha256_hex raw_key

  -- the body after the test for a missing header
  unfoldable pub require_raw_key : String → Action Uuid
  require_raw_key raw_key = do
    found ← query (λ db. find (is_live (hash_key raw_key)) db.api_keys)
    api_key ← or_raise found invalid_key
    update (λ db. record db {
      api_keys = put (record api_key { last_used_at = some now }) db.api_keys;
    })
    commit
    pure api_key.tenant_id

  unfoldable pub require_api_key : Option String → Action Uuid
  unfolding require_raw_key
  require_api_key none = raise missing_key
  require_api_key (some raw_key) = do
    raise_if (not (truthy raw_key)) missing_key
    require_raw_key raw_key

  -- the branch for a header that is present
  unfoldable pub require_bearer : String → Action Uuid
  require_bearer authorization = do
    let (scheme, token) = partition authorization
    raise_if (not (lower_is scheme "bearer") || not (truthy token)) malformed_header
    or_raise (decode_access_token env token) invalid_session

  unfoldable pub require_tenant : Option String → Option String → Action Uuid
  unfolding require_api_key require_bearer
  require_tenant (some authorization) x_api_key = require_bearer authorization
  require_tenant none x_api_key = require_api_key x_api_key
