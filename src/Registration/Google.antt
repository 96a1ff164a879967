-- ===== src/Registration/Google.antt =====
-- `register_or_login_with_google` of app/services/tenant_registration_service.py.
use mathlib.Core.List.{Memᴰ}
use resume_screening_service.Common.{
  String, ◌≡◌, refl, ◌∷◌, true, false, none, some, arith, find, option_is, distinct, truthy,
  text_or, string_eq, nat_eq, List, contains-values_self,
}
use resume_screening_service.Errors.{ok, raised, integrity_error}
use resume_screening_service.Models.{Tenant, tenant_row}
use resume_screening_service.Services.{GoogleClaims, Env}
use resume_screening_service.Session.{World, constraints_hold, tenants_hold}
use resume_screening_service.Registration.{
  nonempty, find_or_add_google, register_or_login_with_google,
}

tenants_hold-conflict :
    (x t : Tenant) (ts : List Tenant) (email : String)
    → x.email ≡ some email
    → Memᴰ t ts
    → t.email ≡ some email
    → tenants_hold (x ∷ ts) ≡ false
unfolding tenants_hold distinct
tenants_hold-conflict x t ts email named stored same =
    let taken =
      contains-values_self ⦃e = string_eq⦄ (λ (y : Tenant). y.email) email t ts stored same in
    rw named (ground arith)

module _ (env : Env) where
  -- An account that a Google account has is returned, whatever email it has now, and nothing
  -- changes.
  pub register_or_login_with_google-returns :
      (id_token sub : String) (claims : GoogleClaims) (t : Tenant) (w : World)
      → truthy env.settings.google_oauth_client_id ≡ true
      → env.services.verify_google id_token env.settings.google_oauth_client_id ≡ ok claims
      → claims.sub ≡ some sub
      → find (λ (x : Tenant). option_is x.google_sub sub) w.db.tenants ≡ some t
      → register_or_login_with_google env id_token w ≡ (ok t, w)
  unfolding register_or_login_with_google find_or_add_google
  register_or_login_with_google-returns id_token sub claims t w given verified named found =
      ground arith

  find_or_add_google-conflict :
      (sub email : String) (t : Tenant) (w : World)
      → truthy email ≡ true
      → find (λ (x : Tenant). option_is x.google_sub sub) w.db.tenants ≡ none
      → Memᴰ t w.db.tenants
      → t.email ≡ some email
      → (find_or_add_google env sub email w).0 ≡ raised integrity_error
  unfolding find_or_add_google constraints_hold
  find_or_add_google-conflict sub email t w full fresh stored same =
      let new : Tenant = record {
        id = env.uuid4 w.draws;
        name = text_or email sub;
        email = nonempty email;
        hashed_password = none;
        google_sub = some sub;
        created_at = env.now;
      } in
      let taken = tenants_hold-conflict new t w.db.tenants email (rw full refl) stored same in
      ground arith

  -- A first Google sign-in with the email of an account that is there does not find that account,
  -- and makes none: it raises the error of the unique column.
  pub register_or_login_with_google-conflict :
      (id_token sub email : String) (claims : GoogleClaims) (t : Tenant) (w : World)
      → truthy env.settings.google_oauth_client_id ≡ true
      → env.services.verify_google id_token env.settings.google_oauth_client_id ≡ ok claims
      → claims.sub ≡ some sub
      → claims.email ≡ some email
      → truthy email ≡ true
      → find (λ (x : Tenant). option_is x.google_sub sub) w.db.tenants ≡ none
      → Memᴰ t w.db.tenants
      → t.email ≡ some email
      → (register_or_login_with_google env id_token w).0 ≡ raised integrity_error
  unfolding register_or_login_with_google
  register_or_login_with_google-conflict id_token sub email claims t w given verified named mail
        full fresh stored same =
      let conflict = find_or_add_google-conflict sub email t w full fresh stored same in
      ground arith
