-- ===== src/Auth/Keys.antt =====
-- `require_api_key` of app/auth.py: which requests it admits, and what it writes.
use mathlib.Core.List.{Memᴰ}
use resume_screening_service.Common.{
  String, ◌≡◌, ◌↔◌, ◌⊎◌, refl, sym, ap, ◌∙◌, unique_of_distinct, true, Option, none, some, List,
  arith, eq_iff, inl, inr, Option-cases, truthy, find, put, find-holds, find-Memᴰ, find-none,
  get_of_Memᴰ, nat_eq, string_eq,
}
use resume_screening_service.Errors.{ok, raised}
use resume_screening_service.Models.{Uuid, ApiKey, api_key_row}
use resume_screening_service.Services.{Env}
use resume_screening_service.Session.{Database, World, constraints_hold}
use resume_screening_service.Session.Laws.{
  constraints_hold-put_api_key, distinct_api_keys, distinct_hashed_keys,
}
use resume_screening_service.Auth.{
  missing_key, invalid_key, is_live, hash_key, require_raw_key, require_api_key,
}

-- `k` is a row that authenticates `raw_key`.
pub record Authenticates (env : Env) (raw_key : String) (keys : List ApiKey) (k : ApiKey)
    : Type 0 where
  pub stored : Memᴰ k keys
  pub hashed : k.hashed_key ≡ hash_key env raw_key
  pub live : k.revoked_at ≡ none

is_live_iff :
    (hash : String) (k : ApiKey)
    → (is_live hash k ≡ true) ↔ ((k.hashed_key ≡ hash) × (k.revoked_at ≡ none))
is_live_iff hash k = (to, from)
  where
    to : is_live hash k ≡ true → (k.hashed_key ≡ hash) × (k.revoked_at ≡ none)
    to h = ground (arith, eq_iff k.hashed_key hash)

    from : (k.hashed_key ≡ hash) × (k.revoked_at ≡ none) → is_live hash k ≡ true
    from h = ground (arith, eq_iff k.hashed_key hash)

module _ (env : Env) where
  open env use {now}

  -- the world after a request that the key authenticated
  abbrev pub used : ApiKey → World → World
  used k w =
      let db = record w.db {
        api_keys = put (record k { last_used_at = some now }) w.db.api_keys;
      } in
      record w { db = db; saved = db }

  pub require_raw_key-found :
      (raw_key : String) (k : ApiKey) (w : World)
      → constraints_hold w.db ≡ true
      → find (is_live (hash_key env raw_key)) w.db.api_keys ≡ some k
      → require_raw_key env raw_key w ≡ (ok k.tenant_id, used k w)
  unfolding require_raw_key
  require_raw_key-found raw_key k w h found =
      let stored = find-Memᴰ (is_live (hash_key env raw_key)) w.db.api_keys k found in
      let by_id = get_of_Memᴰ ⦃r = api_key_row⦄ k w.db.api_keys (distinct_api_keys w.db h) stored in
      let kept =
        constraints_hold-put_api_key w.db (record k { last_used_at = some now }) k h by_id refl
          refl in
      ground arith

  pub require_raw_key-missing :
      (raw_key : String) (w : World)
      → find (is_live (hash_key env raw_key)) w.db.api_keys ≡ none
      → require_raw_key env raw_key w ≡ (raised invalid_key, w)
  unfolding require_raw_key
  require_raw_key-missing raw_key w found = ground arith

  Authenticates-of_find :
      (raw_key : String) (keys : List ApiKey) (k : ApiKey)
      → find (is_live (hash_key env raw_key)) keys ≡ some k
      → Authenticates env raw_key keys k
  Authenticates-of_find raw_key keys k found =
      let hash = hash_key env raw_key in
      let row = (is_live_iff hash k).0 (find-holds (is_live hash) keys k found) in
      record { stored = find-Memᴰ (is_live hash) keys k found; hashed = row.0; live = row.1 }

  find-live :
      (raw_key : String) (k : ApiKey) (db : Database)
      → constraints_hold db ≡ true
      → Authenticates env raw_key db.api_keys k
      → find (is_live (hash_key env raw_key)) db.api_keys ≡ some k
  find-live raw_key k db h auth =
      let hash = hash_key env raw_key in
      let live = (is_live_iff hash k).1 (auth.hashed, auth.live) in
      elim (Option-cases (find (is_live hash) db.api_keys)) [
        | inl missing ↦
            absurd (cc (find-none (is_live hash) db.api_keys k missing auth.stored, live))
        | inr (k', found) ↦
            let other = Authenticates-of_find raw_key db.api_keys k' found in
            found
            ∙ ap some (
                unique_of_distinct ⦃e = string_eq⦄ (λ (x : ApiKey). x.hashed_key) k' k db.api_keys
                  (distinct_hashed_keys db h) other.stored auth.stored
                  (other.hashed ∙ sym auth.hashed))
      ]

  tenant_of_found :
      (raw_key : String) (k : ApiKey) (t : Uuid) (w : World)
      → find (is_live (hash_key env raw_key)) w.db.api_keys ≡ some k
      → (require_raw_key env raw_key w).0 ≡ ok t
      → k.tenant_id ≡ t
  unfolding require_raw_key
  tenant_of_found raw_key k t w found h = ground arith

  -- On consistent tables a key that is live is accepted: the tenant is the key's, its last use is
  -- recorded and committed, and nothing else changes.
  pub require_api_key-accepts :
      (raw_key : String) (k : ApiKey) (w : World)
      → constraints_hold w.db ≡ true
      → truthy raw_key ≡ true
      → Authenticates env raw_key w.db.api_keys k
      → require_api_key env (some raw_key) w ≡ (ok k.tenant_id, used k w)
  unfolding require_api_key
  require_api_key-accepts raw_key k w h given auth =
      ground (arith, require_raw_key-found raw_key k w h (find-live raw_key k w.db h auth))

  -- A request is authenticated only by a key of the table that is not revoked and has the hash of
  -- the text sent, and only as the tenant of that key.
  pub require_api_key_sound :
      (x_api_key : Option String) (t : Uuid) (w : World)
      → (require_api_key env x_api_key w).0 ≡ ok t
      → (raw_key : String) × (k : ApiKey) × (x_api_key ≡ some raw_key)
        × Authenticates env raw_key w.db.api_keys k
        × (k.tenant_id ≡ t)
  unfolding require_api_key
  require_api_key_sound none t w h = absurd (cc)
  require_api_key_sound (some raw_key) t w h =
      elim (Option-cases (find (is_live (hash_key env raw_key)) w.db.api_keys)) [
        | inl missing ↦ absurd (ground (arith, require_raw_key-missing raw_key w missing))
        | inr (k, found) ↦ (
          raw_key,
          k,
          refl,
          Authenticates-of_find raw_key w.db.api_keys k found,
          tenant_of_found raw_key k t w found (ground arith),
        )
      ]

  -- A request that no live key authenticates is answered with 401 and changes nothing.
  pub require_api_key-rejects :
      (x_api_key : Option String) (w : World)
      → ((raw_key : String) (k : ApiKey)
          → x_api_key ≡ some raw_key
          → ¬ Authenticates env raw_key w.db.api_keys k)
      → ((require_api_key env x_api_key w ≡ (raised missing_key, w))
          ⊎ (require_api_key env x_api_key w ≡ (raised invalid_key, w)))
  unfolding require_api_key
  require_api_key-rejects none w h = inl refl
  require_api_key-rejects (some raw_key) w h =
      elim (Option-cases (find (is_live (hash_key env raw_key)) w.db.api_keys)) [
        | inl missing ↦ ground (arith, require_raw_key-missing raw_key w missing)
        | inr (k, found) ↦
            absurd (h raw_key k refl (Authenticates-of_find raw_key w.db.api_keys k found))
      ]
