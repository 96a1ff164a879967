-- ===== src/AdminAuth/Closed.antt =====
-- `require_admin` of app/admin_auth.py, on every branch.
use text.Mathlib.Text.{◌==◌ as str_eq}
use resume_screening_service.Common.{◌≡◌, ◌≢◌, ◌↔◌, ◌⊎◌, true, is_ascii, arith, eq_iff}
use resume_screening_service.Errors.{ok, raised}
use resume_screening_service.Services.{Env}
use resume_screening_service.AdminAuth.{
  compare_digest, Credentials, require_admin, not_configured, invalid_credentials,
}

-- For ASCII settings and credentials: a request is let in exactly when both settings are
-- configured and both of its credentials are theirs, so that with an empty setting nobody is let
-- in, also not with empty credentials; it is answered with 503 exactly when a setting is empty; and
-- with 401 in every other case.
pub require_admin-decides :
    (env : Env) (c : Credentials)
    → is_ascii env.settings.admin_username ≡ true
    → is_ascii env.settings.admin_password ≡ true
    → is_ascii c.username ≡ true
    → is_ascii c.password ≡ true
    → ((require_admin env c ≡ ok tt) ↔ (
        (env.settings.admin_username ≢ "")
        × (env.settings.admin_password ≢ "")
        × (c.username ≡ env.settings.admin_username)
        × (c.password ≡ env.settings.admin_password)))
      × ((require_admin env c ≡ raised (not_configured env))
          ↔ ((env.settings.admin_username ≡ "") ⊎ (env.settings.admin_password ≡ "")))
      × ((require_admin env c ≢ ok tt)
          → (require_admin env c ≢ raised (not_configured env))
          → require_admin env c ≡ raised (invalid_credentials env))
unfolding require_admin compare_digest
require_admin-decides env c su sp cu cp = (
  (
    λ h. ground (arith, name, word, same_name, same_word),
    λ h. ground (arith, name, word, same_name, same_word),
  ),
  (λ h. ground (arith, name, word), λ h. ground (arith, name, word)),
  λ h k. ground arith,
)
  where
    name : (str_eq env.settings.admin_username "" ≡ true) ↔ (env.settings.admin_username ≡ "")
    name = eq_iff env.settings.admin_username ""

    word : (str_eq env.settings.admin_password "" ≡ true) ↔ (env.settings.admin_password ≡ "")
    word = eq_iff env.settings.admin_password ""

    same_name :
        (str_eq c.username env.settings.admin_username ≡ true)
        ↔ (c.username ≡ env.settings.admin_username)
    same_name = eq_iff c.username env.settings.admin_username

    same_word :
        (str_eq c.password env.settings.admin_password ≡ true)
        ↔ (c.password ≡ env.settings.admin_password)
    same_word = eq_iff c.password env.settings.admin_password
