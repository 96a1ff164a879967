-- ===== src/System/Accounts.antt =====
-- The commits of app/auth.py, app/services/tenant_registration_service.py and app/routers/admin.py.
use resume_screening_service.Common.{
  ℕ, text_or, option_is, string_eq, String, ◌≡◌, ap, ◌∙◌, refl, true, none, some, ◌∷◌, inl, inr,
  Option-cases, get, put, find, get-key, nat_eq, suc,
}
use resume_screening_service.Errors.{Result-cases}
use resume_screening_service.Models.{Uuid, Tenant, ApiKey, tenant_row, api_key_row, plan_row, Plan}
use resume_screening_service.Schemas.{PlanCreate}
use resume_screening_service.Services.{Env}
use resume_screening_service.Session.{World, constraints_hold, ◌>>=◌, commit, pure, update}
use resume_screening_service.Registration.{
  register_with_password, find_or_add_google, nonempty, add_tenant,
}
use resume_screening_service.Admin
use resume_screening_service.Routes.Closed.{opened}
use resume_screening_service.System.Moves.{Move, Moves, IsAccount}
use resume_screening_service.System.Behaves.{IsClean, Moves-commit}

pub IsClean-opened : (w : World) → constraints_hold w.saved ≡ true → IsClean (opened w)
IsClean-opened w h = record { clean = refl; holds = h }

module _ (env : Env) (w : World) (h : constraints_hold w.saved ≡ true) where
  pub Moves-create_tenant :
      (name : String)
      → Moves env.show_uuid
          (env.uuid4 w.draws)
          w.saved
          (Admin.create_tenant env name (opened w)).1.saved
  unfolding Admin.create_tenant
  Moves-create_tenant name =
      let t : Tenant = record {
        id = env.uuid4 w.draws;
        name = name;
        email = none;
        hashed_password = none;
        google_sub = none;
        created_at = env.now;
      } in
      Moves-commit env t.id (λ db. record db { tenants = t ∷ db.tenants }) t
        (record (opened w) { draws = suc w.draws }) (record { clean = refl; holds = h })
        (Move.tenant_added t refl (IsAccount.by_operator refl refl refl) refl)

  pub Moves-create_api_key :
      (t : Uuid) → Moves env.show_uuid t w.saved (Admin.create_api_key env t (opened w)).1.saved
  unfolding Admin.create_api_key
  Moves-create_api_key t =
      let raw_key = env.token_urlsafe w.draws in
      let k = Admin.new_key env (env.uuid4 (suc w.draws)) t raw_key in
      elim (Option-cases (get t w.saved.tenants)) [
        | inl missing ↦ rw missing Moves.here
        | inr (a, found) ↦ rw found (
            Moves-commit env t (λ db. record db { api_keys = k ∷ db.api_keys })
              (Admin.key_response env k raw_key) (record (opened w) { draws = suc (suc w.draws) })
              (record { clean = refl; holds = h }) (Move.key_added k refl refl refl))
      ]

  -- a change of a key that is stored, of its last use or of its revocation
  Moves-put_api_key :
      {A : Type 0} (k old : ApiKey) (a : A)
      → get k.id w.saved.api_keys ≡ some old
      → k.tenant_id ≡ old.tenant_id
      → k.hashed_key ≡ old.hashed_key
      → (k.revoked_at ≡ none → old.revoked_at ≡ none)
      → Moves env.show_uuid old.tenant_id w.saved
          ((update (λ db. record db { api_keys = put k db.api_keys }) >>= λ _.
              commit >>= λ _. pure a)
            (opened w)).1.saved
  Moves-put_api_key k old a found tenant hashed live =
      Moves-commit env old.tenant_id (λ db. record db { api_keys = put k db.api_keys }) a (opened w)
        (IsClean-opened w h) (Move.key_changed k old found refl tenant hashed live refl)

  pub Moves-revoke_api_key :
      (key_id : Uuid)
      → (t : Uuid) × Moves env.show_uuid t w.saved
          (Admin.revoke_api_key env key_id (opened w)).1.saved
  unfolding Admin.revoke_api_key
  Moves-revoke_api_key key_id = elim (Option-cases (get key_id w.saved.api_keys)) [
    | inl missing ↦ (0, rw missing Moves.here)
    | inr (k, found) ↦
        let revoked = record k { revoked_at = some env.now } in
        let same = get-key ⦃r = api_key_row⦄ key_id w.saved.api_keys k found in
        (
          k.tenant_id,
          rw found (
              Moves-put_api_key revoked k revoked (ap (λ i. get i w.saved.api_keys) same ∙ found)
                refl refl (λ (e : some env.now ≡ none). absurd (cc))),
        )
  ]

  pub Moves-create_plan :
      (t : Uuid) (payload : PlanCreate)
      → Moves env.show_uuid t w.saved (Admin.create_plan env payload (opened w)).1.saved
  unfolding Admin.create_plan
  Moves-create_plan t payload =
      let plan : Plan = record {
        id = env.uuid4 w.draws;
        name = payload.name;
        price = payload.price;
        currency = payload.currency;
        monthly_resume_quota = payload.monthly_resume_quota;
        duration_months = payload.duration_months;
        razorpay_plan_id = payload.razorpay_plan_id;
        created_at = env.now;
      } in
      Moves-commit env t (λ db. record db { plans = plan ∷ db.plans }) plan
        (record (opened w) { draws = suc w.draws }) (record { clean = refl; holds = h })
        (Move.plan_added plan refl)

  -- a row of a new account, and its commit
  Moves-add_tenant :
      (a : Tenant) (draws : ℕ)
      → IsAccount a
      → Moves env.show_uuid a.id w.saved
          (add_tenant env a (record (opened w) { draws = draws })).1.saved
  Moves-add_tenant a draws account =
      Moves-commit env a.id (λ db. record db { tenants = a ∷ db.tenants }) a
        (record (opened w) { draws = draws }) (record { clean = refl; holds = h })
        (Move.tenant_added a refl account refl)

  pub Moves-register_with_password :
      (email password : String)
      → (t : Uuid) × Moves env.show_uuid t w.saved
          (register_with_password env email password (opened w)).1.saved
  unfolding register_with_password
  Moves-register_with_password email password =
      elim (Option-cases (find (λ (x : Tenant). option_is x.email email) w.saved.tenants)) [
        | inr (x, found) ↦ (0, rw found Moves.here)
        | inl missing ↦ elim (Result-cases (env.services.bcrypt_hash w.draws password)) [
          | inr (e, failed) ↦ (0, rw (missing, failed) Moves.here)
          | inl (hashed, made) ↦
              let a : Tenant = record {
                id = env.uuid4 (suc w.draws);
                name = email;
                email = some email;
                hashed_password = some hashed;
                google_sub = none;
                created_at = env.now;
              } in
              (
                a.id,
                rw (missing, made)
                    (Moves-add_tenant a (suc (suc w.draws))
                      (IsAccount.by_password email hashed refl refl refl)),
              )
        ]
      ]

  pub Moves-find_or_add_google :
      (sub email : String)
      → (t : Uuid) × Moves env.show_uuid t w.saved
          (find_or_add_google env sub email (opened w)).1.saved
  unfolding find_or_add_google find
  Moves-find_or_add_google sub email =
      elim (Option-cases (find (λ (x : Tenant). option_is x.google_sub sub) w.saved.tenants)) [
        | inr (x, found) ↦ (0, rw found Moves.here)
        | inl missing ↦
            let a : Tenant = record {
              id = env.uuid4 w.draws;
              name = text_or email sub;
              email = nonempty email;
              hashed_password = none;
              google_sub = some sub;
              created_at = env.now;
            } in
            (
              a.id,
              rw missing (Moves-add_tenant a (suc w.draws) (IsAccount.by_google sub refl refl)),
            )
      ]
