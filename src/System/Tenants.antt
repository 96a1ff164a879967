-- ===== src/System/Tenants.antt =====
-- The routes behind `require_tenant` (app/auth.py): one tenant's commits.
use resume_screening_service.Common.{
  String, Option, none, some, ◌≡◌, ◌⊎◌, inl, inr, ap, sym, subst, ◌∙◌, refl, find, find-Memᴰ,
  get_of_Memᴰ, Option-cases, true, Bool-cases, truthy, nat_eq,
}
use resume_screening_service.Errors.{Result, ok, raised}
use resume_screening_service.Models.{Uuid, api_key_row}
use resume_screening_service.Services.{Env}
use resume_screening_service.Session.{World, Action, SameTables, constraints_hold}
use resume_screening_service.Session.Laws.{distinct_api_keys, constraints_hold-put_api_key}
use resume_screening_service.Auth.{
  hash_key, is_live, require_raw_key, require_api_key, require_bearer, require_tenant,
}
use resume_screening_service.Auth.Keys.{used, require_raw_key-found, require_raw_key-missing}
use resume_screening_service.Routes.{Headers, as_tenant}
use resume_screening_service.System.Moves.{
  Move, Moves, Moves-of_same, Moves-of_one, Moves-trans, Moves-consistent,
}
use resume_screening_service.System.Behaves.{Behaves}
use resume_screening_service.System.Reads.{read_rules}
use resume_screening_service.Embeddings.Tables.{KeepsTables}
use resume_screening_service.Routes.Closed.{opened}

module _ (env : Env) where
  -- What authentication leaves: a use of a key of the tenant, or nothing.
  abbrev Authenticated : World → Result Uuid × World → Type 0
  Authenticated w (ok t, w') = Moves env.show_uuid t w.saved w'.saved × (w'.db ≡ w'.saved)
  Authenticated w (raised e, w') = w'.saved ≡ w.saved

  Authenticated-of_reads :
      (w : World) (m : Action Uuid) → KeepsTables m → Authenticated w (m (opened w))
  Authenticated-of_reads w m km = pick (m (opened w)) (km.same (opened w))
    where
      pick : (o : Result Uuid × World) → SameTables (opened w) o.1 → Authenticated w o
      pick (ok t, w') same =
          (Moves-of_same env.show_uuid t w.saved w'.saved same.1, same.0 ∙ sym same.1)
      pick (raised e, w') same = same.1

  require_raw_key-Authenticated :
      (raw_key : String) (w : World)
      → constraints_hold w.saved ≡ true
      → Authenticated w (require_raw_key env raw_key (opened w))
  require_raw_key-Authenticated raw_key w h =
      let live = is_live (hash_key env raw_key) in
      elim (Option-cases (find live w.saved.api_keys)) [
        | inl missing ↦
            subst (Authenticated w) (sym (require_raw_key-missing env raw_key (opened w) missing))
              refl
        | inr (k, found) ↦
            let k' = record k { last_used_at = some env.now } in
            let by_id =
              get_of_Memᴰ ⦃r = api_key_row⦄ k w.saved.api_keys (distinct_api_keys w.saved h)
                (find-Memᴰ live w.saved.api_keys k found) in
            subst (Authenticated w) (sym (require_raw_key-found env raw_key k (opened w) h found)) (
              Moves-of_one env.show_uuid k.tenant_id w.saved (used env k (opened w)).saved
                  (Move.key_changed k' k by_id refl refl refl (λ e. e) refl)
                  (constraints_hold-put_api_key w.saved k' k h by_id refl refl),
              refl,
            )
      ]

  require_tenant-Authenticated :
      (authorization x_api_key : Option String) (w : World)
      → constraints_hold w.saved ≡ true
      → Authenticated w (require_tenant env authorization x_api_key (opened w))
  unfolding require_tenant require_api_key require_bearer
  require_tenant-Authenticated (some authorization) x w h =
      Authenticated-of_reads w (require_bearer env authorization) (search (read_rules) depth 9)
  require_tenant-Authenticated none none w h = refl
  require_tenant-Authenticated none (some raw_key) w h = elim (Bool-cases (truthy raw_key)) [
    | inl given ↦ rw given (require_raw_key-Authenticated raw_key w h)
    | inr empty ↦ rw empty refl
  ]

  -- A route behind the dependency commits rows of the tenant that the request is authenticated as,
  -- or nothing.
  abbrev pub ActsFor : Headers → World → World → Type 0
  ActsFor h w w' =
      (w'.saved ≡ w.saved)
      ⊎ ((t : Uuid) × ((require_tenant env h.authorization h.x_api_key (opened w)).0 ≡ ok t)
          × Moves env.show_uuid t w.saved w'.saved)

  pub as_tenant-ActsFor {ℓ} :
      {A : Type ℓ} (h : Headers) (m : Uuid → Action A)
      → ((t : Uuid) → Behaves env t (m t))
      → (w : World) → constraints_hold w.saved ≡ true
      → ActsFor h w (as_tenant env h m w).1
  as_tenant-ActsFor {A} h m km w held =
      pick (require_tenant env h.authorization h.x_api_key (opened w)) refl
        (require_tenant-Authenticated h.authorization h.x_api_key w held)
    where
      pick :
          (o : Result Uuid × World)
          → (require_tenant env h.authorization h.x_api_key (opened w)) ≡ o
          → Authenticated w o
          → let o' = elim o.0 as (λ _. Result A × World) [
            | ok t ↦ m t o.1
            | raised e ↦ (raised e, o.1)
          ] in
            ActsFor h w (record o'.1 { db = o'.1.saved })
      pick (raised e, w') is same = inl same
      pick (ok t, w') is (used, clean) = inr (
        t,
        ap (λ o. o.0) is,
        Moves-trans env.show_uuid t w.saved w'.saved (m t w').1.saved used (
            (km t).moves w' (record {
              clean = clean;
              holds = Moves-consistent env.show_uuid t w.saved w'.saved held used;
            })),
      )
