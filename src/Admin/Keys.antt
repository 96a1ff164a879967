-- ===== src/Admin/Keys.antt =====
-- `create_api_key` and `revoke_api_key` of app/routers/admin.py beside `require_api_key` of
-- app/auth.py.
use mathlib.Core.List.{Memᴰ}
use resume_screening_service.Common.{
  String, ◌≡◌, refl, sym, ap, subst, ◌∙◌, ◌∷◌, true, some, arith, truthy, get, put, put-Memᴰ, inl,
  inr, ◌⊎◌, get-key_self, unique_of_distinct, string_eq, Option-cases,
}
use resume_screening_service.Errors.{ok, raised}
use resume_screening_service.Models.{Uuid, Instant, ApiKey, api_key_row, tenant_row}
use resume_screening_service.Schemas.{ApiKeyCreateResponse}
use resume_screening_service.Services.{Env, at}
use resume_screening_service.Session.{World, constraints_hold}
use resume_screening_service.Session.Laws.{distinct_hashed_keys}
use resume_screening_service.Auth.{missing_key, invalid_key, hash_key, require_api_key}
use resume_screening_service.Auth.Keys.{require_api_key-accepts, require_api_key-rejects}
use resume_screening_service.Admin.{create_api_key, new_key, revoke_api_key}

module _ (env : Env) where
  -- what a creation that succeeds has committed
  create_api_key-stored :
      (tenant_id : Uuid) (w w' : World) (r : ApiKeyCreateResponse)
      → create_api_key env tenant_id w ≡ (ok r, w')
      → (constraints_hold w'.db ≡ true)
        × (w'.db.api_keys ≡ new_key env r.id tenant_id r.raw_key ∷ w.db.api_keys)
        × (w'.saved ≡ w'.db)
  unfolding create_api_key
  create_api_key-stored tenant_id w w' r h = ground arith

  -- The text that a creation returns authenticates later requests, at any instant, as the tenant
  -- that the key was made for, if the drawn text is not empty.
  pub require_api_key-create_api_key :
      (tenant_id : Uuid) (t : Instant) (w w' : World) (r : ApiKeyCreateResponse)
      → create_api_key env tenant_id w ≡ (ok r, w')
      → truthy r.raw_key ≡ true
      → (require_api_key (at env t) (some r.raw_key) w').0 ≡ ok tenant_id
  require_api_key-create_api_key tenant_id t w w' r h given =
      let (kept, keys, _) = create_api_key-stored tenant_id w w' r h in
      let k = new_key env r.id tenant_id r.raw_key in
      let stored = subst (λ ks. Memᴰ k ks) (sym keys) (Memᴰ.head refl) in
      ap (λ o. o.0)
        (require_api_key-accepts (at env t) r.raw_key k w' kept given
          (record { stored = stored; hashed = refl; live = refl }))

  revoke_api_key-stored :
      (key_id : Uuid) (w w' : World) (k : ApiKey)
      → revoke_api_key env key_id w ≡ (ok k, w')
      → (constraints_hold w'.db ≡ true) × Memᴰ k w'.db.api_keys × (k.revoked_at ≡ some env.now)
  unfolding revoke_api_key
  revoke_api_key-stored key_id w w' k h = elim (Option-cases (get key_id w.db.api_keys)) [
    | inl missing ↦ absurd (ground arith)
    | inr (old, found) ↦
        let revoked = record old { revoked_at = some env.now } in
        let there =
          put-Memᴰ ⦃r = api_key_row⦄ revoked old w.db.api_keys
            (get-key_self ⦃r = api_key_row⦄ key_id w.db.api_keys old found) in
        let key : revoked ≡ k = ground arith in
        let keys : put revoked w.db.api_keys ≡ w'.db.api_keys = ground arith in
        (
          ground arith,
          subst (λ ks. Memᴰ k ks) keys (subst (λ x. Memᴰ x (put revoked w.db.api_keys)) key there),
          ground arith,
        )
  ]

  -- A revoked key authenticates no later request: whoever sends a text with its hash is answered
  -- with 401, and nothing changes.
  pub require_api_key-revoke_api_key :
      (key_id : Uuid) (t : Instant) (raw_key : String) (w w' : World) (k : ApiKey)
      → revoke_api_key env key_id w ≡ (ok k, w')
      → hash_key env raw_key ≡ k.hashed_key
      → (require_api_key (at env t) (some raw_key) w' ≡ (raised missing_key, w'))
        ⊎ (require_api_key (at env t) (some raw_key) w' ≡ (raised invalid_key, w'))
  require_api_key-revoke_api_key key_id t raw_key w w' k h same =
      let (kept, stored, revoked) = revoke_api_key-stored key_id w w' k h in
      require_api_key-rejects (at env t) (some raw_key) w' λ raw k' sent auth.
        let text : hash_key env raw ≡ hash_key env raw_key = ap (hash_key env) (ground arith) in
        let one =
          unique_of_distinct ⦃e = string_eq⦄ (λ (x : ApiKey). x.hashed_key) k' k w'.db.api_keys
            (distinct_hashed_keys w'.db kept) auth.stored stored (auth.hashed ∙ text ∙ same) in
        ground (arith, one, auth.live)
