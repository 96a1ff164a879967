-- ===== src/Registration.antt =====
-- Self-service tenants: app/services/tenant_registration_service.py.
pub mod Accounts
pub mod Google
use resume_screening_service.Common.{
  String, Option, none, some, ◌∷◌, not, truthy, text_or, option_or, option_is, is_none, find, get,
  string_eq, if◌then◌else◌,
}
use resume_screening_service.Errors.{
  Exn, resource_not_found, resource_conflict, invalid_credentials, key_error,
}
use resume_screening_service.Models.{Uuid, Tenant, tenant_row}
use resume_screening_service.Services.{Env}
use resume_screening_service.Session.{
  Action, pure, raise, lift, query, or_raise, raise_if, update, commit, draw, new_id, ◌>>=◌, ◌>>◌,
}

abbrev pub email_taken : Exn
email_taken = resource_conflict "An account with this email already exists."

abbrev pub wrong_login : Exn
wrong_login = invalid_credentials "Invalid email or password."

abbrev pub google_not_configured : Exn
google_not_configured = resource_not_found "Google sign-in is not configured on this server."

abbrev pub tenant_not_found : Exn
tenant_not_found = resource_not_found "Tenant not found"

-- `a or b` of two nullable texts, of which the second is one
abbrev pub nonempty : String → Option String
nonempty s = if truthy s then some s else none

module _ (env : Env) where
  open env use {settings, services, now}

  -- `db.add(tenant); db.commit(); db.refresh(tenant)`
  abbrev pub add_tenant : Tenant → Action Tenant
  add_tenant tenant = do
    update (λ db. record db { tenants = tenant ∷ db.tenants })
    commit
    pure tenant

  unfoldable pub register_with_password : String → String → Action Tenant
  register_with_password email password = do
    existing ← query (λ db. find (λ t. option_is t.email email) db.tenants)
    raise_if (not (is_none existing)) email_taken
    salt ← draw env
    hashed ← lift (services.bcrypt_hash salt password)
    id ← new_id env
    add_tenant (record {
      id = id;
      name = email;
      email = some email;
      hashed_password = some hashed;
      google_sub = none;
      created_at = now;
    })

  -- the tests after the query
  unfoldable pub check_login : Option Tenant → String → Action Tenant
  check_login none password = raise wrong_login
  check_login (some tenant) password = do
    hashed ← or_raise tenant.hashed_password wrong_login
    valid ← lift (services.bcrypt_check password hashed)
    raise_if (not valid) wrong_login
    pure tenant

  unfoldable pub authenticate_with_password : String → String → Action Tenant
  unfolding check_login
  authenticate_with_password email password = do
    tenant ← query (λ db. find (λ t. option_is t.email email) db.tenants)
    check_login tenant password

  -- the end of the function: the tenant of the Google account, or a new one
  unfoldable pub find_or_add_google : String → String → Action Tenant
  find_or_add_google google_sub email = do
    tenant ← query (λ db. find (λ t. option_is t.google_sub google_sub) db.tenants)
    elim tenant [
      | some t ↦ pure t
      | none ↦ do
        id ← new_id env
        add_tenant (record {
          id = id;
          name = text_or email google_sub;
          email = nonempty email;
          hashed_password = none;
          google_sub = some google_sub;
          created_at = now;
        })
    ]

  unfoldable pub register_or_login_with_google : String → Action Tenant
  unfolding find_or_add_google
  register_or_login_with_google google_id_token = do
    raise_if (not (truthy settings.google_oauth_client_id)) google_not_configured
    claims ← lift (services.verify_google google_id_token settings.google_oauth_client_id)
    google_sub ← or_raise claims.sub key_error
    find_or_add_google google_sub (option_or claims.email "")

  unfoldable pub get_tenant : Uuid → Action Tenant
  get_tenant tenant_id = do or_raise (← query (λ db. get tenant_id db.tenants)) tenant_not_found
