-- ===== src/Registration/Accounts.antt =====
-- Password accounts of app/services/tenant_registration_service.py: registration beside login.
use mathlib.Core.List.{Memᴰ}
use resume_screening_service.Common.{
  ℕ, suc, String, ◌≡◌, refl, ◌∷◌, true, none, some, List, arith, find, find-none, get, option_is,
  option_is_iff, Option-cases, inl, inr, string_eq, distinct, contains-keys, contains-values,
  nat_eq,
}
use resume_screening_service.Errors.{Result-cases, ok, raised}
use resume_screening_service.Models.{Instant, Tenant, tenant_row}
use resume_screening_service.Services.{Env, at}
use resume_screening_service.Session.{World, Database, constraints_hold, tenants_hold}
use resume_screening_service.Session.Laws.{constraints_hold-tenants}
use resume_screening_service.Session.Inserts.{constraints_hold-add_tenant}
use resume_screening_service.Registration.{
  email_taken, register_with_password, authenticate_with_password,
}

-- What the code relies on: bcrypt accepts a password against any hash that was made of it.
pub record PasswordLaws (env : Env) : Type 0 where
  pub check-hash :
      (salt : ℕ) (password hashed : String)
      → env.services.bcrypt_hash salt password ≡ ok hashed
      → env.services.bcrypt_check password hashed ≡ ok true

-- `email` has no account
abbrev pub IsNew : String → List Tenant → Type 0
IsNew email tenants = find (λ (t : Tenant). option_is t.email email) tenants ≡ none

module _ (env : Env) where
  -- A registration for an email that has an account is refused, and changes nothing.
  pub register_with_password-taken :
      (email password : String) (t : Tenant) (w : World)
      → Memᴰ t w.db.tenants
      → t.email ≡ some email
      → register_with_password env email password w ≡ (raised email_taken, w)
  unfolding register_with_password
  register_with_password-taken email password t w m e =
      elim (Option-cases (find (λ (x : Tenant). option_is x.email email) w.db.tenants)) [
        | inl missing ↦ absurd (
            ground (
              arith,
              find-none (λ (x : Tenant). option_is x.email email) w.db.tenants t missing m,
              (option_is_iff t.email email).1 e,
            ))
        | inr (x, found) ↦ ground arith
      ]

  -- what a registration that succeeds has committed
  register_with_password-stored :
      (email password : String) (w w' : World) (t : Tenant)
      → register_with_password env email password w ≡ (ok t, w')
      → IsNew email w.db.tenants
        × (w'.db.tenants ≡ t ∷ w.db.tenants)
        × (w'.saved ≡ w'.db)
        × (t.email ≡ some email)
        × (hashed : String) × (t.hashed_password ≡ some hashed)
        × (env.services.bcrypt_hash w.draws password ≡ ok hashed)
  unfolding register_with_password
  register_with_password-stored email password w w' t h =
      elim (Option-cases (find (λ (x : Tenant). option_is x.email email) w.db.tenants)) [
        | inr (x, found) ↦ absurd (ground arith)
        | inl missing ↦ elim (Result-cases (env.services.bcrypt_hash w.draws password)) [
          | inr (e, failed) ↦ absurd (ground arith)
          | inl (hashed, made) ↦
              (missing, ground arith, ground arith, ground arith, hashed, ground arith, made)
        ]
      ]

  -- A registration that succeeds was for an email with no account. The account that it commits is
  -- found by the email and the password, at any later instant; the login returns that tenant and
  -- changes nothing.
  pub authenticate_with_password-register_with_password :
      PasswordLaws env
      → (email password : String) (t : Tenant) (now : Instant) (w w' : World)
      → register_with_password env email password w ≡ (ok t, w')
      → IsNew email w.db.tenants
        × (authenticate_with_password (at env now) email password w' ≡ (ok t, w'))
  unfolding authenticate_with_password find
  authenticate_with_password-register_with_password laws email password t now w w' h =
      let (missing, tenants, _, mail, hashed, word, made) =
        register_with_password-stored email password w w' t h in
      let valid = laws.check-hash w.draws password hashed made in
      let same = (option_is_iff t.email email).1 mail in
      (missing, rw tenants (rw same (rw word (rw valid refl))))

  tenants_hold-new :
      (t : Tenant) (ts : List Tenant) (email : String)
      → tenants_hold ts ≡ true
      → get t.id ts ≡ none
      → IsNew email ts
      → t.email ≡ some email
      → t.google_sub ≡ none
      → tenants_hold (t ∷ ts) ≡ true
  unfolding tenants_hold distinct
  tenants_hold-new t ts email h fresh new mail sub =
      rw (mail, sub)
        (ground (
          arith,
          contains-keys ⦃r = tenant_row⦄ t.id ts,
          contains-values ⦃e = string_eq⦄ (λ (x : Tenant). x.email) email ts,
        ))

  -- On consistent tables, if the drawn id is new and the hash does not fail, the registration of an
  -- email that has no account succeeds: the new tenant is committed in front of the others, with
  -- the hash of the password, and is returned.
  pub register_with_password-accepts :
      (email password hashed : String) (w : World)
      → constraints_hold w.db ≡ true
      → IsNew email w.db.tenants
      → get (env.uuid4 (suc w.draws)) w.db.tenants ≡ none
      → env.services.bcrypt_hash w.draws password ≡ ok hashed
      → (t : Tenant) × (w' : World) × (register_with_password env email password w ≡ (ok t, w'))
        × (w'.saved.tenants ≡ t ∷ w.db.tenants)
        × (t.email ≡ some email)
        × (t.hashed_password ≡ some hashed)
  unfolding register_with_password
  register_with_password-accepts email password hashed w h new fresh made =
      let t : Tenant = record {
        id = env.uuid4 (suc w.draws);
        name = email;
        email = some email;
        hashed_password = some hashed;
        google_sub = none;
        created_at = env.now;
      } in
      let db : Database = record w.db { tenants = t ∷ w.db.tenants } in
      let kept = constraints_hold-add_tenant w.db t h (
        tenants_hold-new t w.db.tenants email (constraints_hold-tenants w.db h) fresh new refl
          refl) in
      (
        t,
        record w { db = db; saved = db; draws = suc (suc w.draws) },
        ground arith,
        refl,
        refl,
        refl,
      )
