-- ===== src/System/Revocation.antt =====
-- A revoked key (`revoke_api_key` of app/routers/admin.py) beside `require_api_key` of app/auth.py,
-- with any requests between them.
use mathlib.Core.List.{Memᴰ}
use resume_screening_service.Common.{
  String, none, some, List, ◌≡◌, ◌≢◌, refl, sym, ap, true, get, find-Memᴰ, ◌==◌, ◌∙◌, nat_eq,
  string_eq, unique_of_distinct,
}
use resume_screening_service.Errors.{ok}
use resume_screening_service.Models.{Uuid, Instant, ApiKey, api_key_row}
use resume_screening_service.Services.{Env, at}
use resume_screening_service.Session.{World, constraints_hold}
use resume_screening_service.Session.Laws.{distinct_hashed_keys}
use resume_screening_service.Auth.{hash_key, require_api_key, require_tenant}
use resume_screening_service.Auth.Keys.{require_api_key_sound}
use resume_screening_service.System.{Request, serve_all}
use resume_screening_service.System.Moves.{History-consistent}
use resume_screening_service.System.Histories.{serve_all-History}
use resume_screening_service.Routes.Closed.{opened}
use resume_screening_service.System.Rows.{serve_all-Keeps}

found-Memᴰ : (k : Uuid) (ks : List ApiKey) (x : ApiKey) → get k ks ≡ some x → Memᴰ x ks
unfolding get
found-Memᴰ k ks x found = find-Memᴰ (λ (y : ApiKey). y.id == k) ks x found

-- the text of a revoked key is no key
revoked-rejected :
    (env : Env) (rs : List (Instant × Request)) (w : World) (k : ApiKey) (raw_key : String)
    (now : Instant)
    → constraints_hold w.saved ≡ true
    → get k.id w.saved.api_keys ≡ some k
    → k.revoked_at ≢ none
    → k.hashed_key ≡ hash_key env raw_key
    → (t : Uuid)
    → (require_api_key (at env now) (some raw_key) (opened (serve_all env rs w))).0 ≢ ok t
revoked-rejected env rs w k raw_key now held found revoked hashed t accepted =
    let w' = serve_all env rs w in
    let held' =
      History-consistent env.show_uuid w.saved w'.saved held (serve_all-History env rs w held) in
    let kept = (serve_all-Keeps env rs w held).api_keys k found in
    let (sent, x, is_sent, auth, _) =
      require_api_key_sound (at env now) (some raw_key) t (opened w') accepted in
    let is_raw : raw_key ≡ sent = cc in
    let same_hash : x.hashed_key ≡ kept.later.hashed_key =
      auth.hashed ∙ ap env.services.sha256_hex (sym is_raw) ∙ sym hashed ∙ sym kept.hashed in
    let same =
      unique_of_distinct ⦃e = string_eq⦄ (λ (y : ApiKey). y.hashed_key) x kept.later
        w'.saved.api_keys (distinct_hashed_keys w'.saved held') auth.stored
        (found-Memᴰ k.id w'.saved.api_keys kept.later kept.found) same_hash in
    revoked (kept.revoked (sym (ap (λ y. y.revoked_at) same) ∙ auth.live))

-- When a key has been revoked, then after any requests, webhooks and messages, and at any instant, a
-- request without an Authorization header that sends the key's text is authenticated as no tenant,
-- and with an Authorization header the answer is the same as without the key.
pub serve_all-revoked :
    (env : Env) (rs : List (Instant × Request)) (w : World) (k : ApiKey) (raw_key : String)
    (now : Instant)
    → constraints_hold w.saved ≡ true
    → get k.id w.saved.api_keys ≡ some k
    → k.revoked_at ≢ none
    → k.hashed_key ≡ hash_key env raw_key
    → (authorization : String) (t : Uuid)
    → ((require_api_key (at env now) (some raw_key) (opened (serve_all env rs w))).0 ≢ ok t)
      × ((require_tenant (at env now) none (some raw_key) (opened (serve_all env rs w))).0 ≢ ok t)
      × (require_tenant
            (at env now)
            (some authorization)
            (some raw_key)
            (opened (serve_all env rs w))
          ≡ require_tenant (at env now) (some authorization) none (opened (serve_all env rs w)))
unfolding require_tenant
serve_all-revoked env rs w k raw_key now held found revoked hashed authorization t =
    let rejected = revoked-rejected env rs w k raw_key now held found revoked hashed t in
    (rejected, rejected, refl)
