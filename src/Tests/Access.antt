-- ===== src/Tests/Access.antt =====
-- The theorems on authentication and on the admin routes, at the sample server.
use mathlib.Core.List.{Memᴰ}
use resume_screening_service.Common.{
  String, ◌≡◌, ◌≢◌, ◌↔◌, ◌⊎◌, refl, ap, Bool, true, false, Option, none, some, truthy, is_ascii,
  get, find, count, select, put, prefix, distinct, contains, every, arith, eq_iff, partition,
}
use resume_screening_service.Common.Int.{pos, ◌+ℤ◌, ◌*ℤ◌}
use resume_screening_service.Errors.{ok, raised, runtime_error}
use resume_screening_service.Clock.{minutes, later}
use resume_screening_service.Models.{Uuid, Instant, ApiKey, api_key_row}
use resume_screening_service.Schemas.{ApiKeyCreateResponse, TenantUsageResponse}
use resume_screening_service.Services.{Env, at}
use resume_screening_service.Session.{
  World, constraints_hold, tenants_hold, api_keys_hold, candidates_hold, jobs_hold, plans_hold,
  subscriptions_hold, match_results_hold,
}
use resume_screening_service.JwtAuth.{create_access_token, decode_access_token}
use resume_screening_service.AdminAuth.{require_admin, not_configured, invalid_credentials}
use resume_screening_service.AdminAuth.Closed.{require_admin-decides}
use resume_screening_service.Auth.{missing_key, invalid_key, require_api_key, require_tenant}
use resume_screening_service.Auth.Keys.{
  Authenticates, used, require_api_key-accepts, require_api_key_sound,
}
use resume_screening_service.Auth.Tokens.{
  TokenLaws, require_tenant-create_access_token, require_tenant-no_fallback, tokens_fail_closed,
}
use resume_screening_service.Admin.{create_api_key, revoke_api_key, get_tenant_usage, usage}
use resume_screening_service.Admin.Keys.{
  require_api_key-create_api_key, require_api_key-revoke_api_key,
}
use resume_screening_service.Admin.Usage.{enforce_quota-get_tenant_usage}
use resume_screening_service.Billing.{count_all_time_candidates}
use resume_screening_service.BillingGuard.{enforce_quota, free_tier_reached}
use resume_screening_service.Tests.Sample.{
  sample_settings, sample_env, sample_db, sample_world, sample_db_holds, count-strokes, acme_key,
  sign, check, strokes,
}

acme_key-Authenticates : Authenticates sample_env "key" sample_db.api_keys acme_key
acme_key-Authenticates = record { stored = Memᴰ.head refl; hashed = refl; live = refl }

require_api_key-accepts_example :
    require_api_key sample_env (some "key") sample_world
    ≡ (ok 1, used sample_env acme_key sample_world)
require_api_key-accepts_example =
    require_api_key-accepts sample_env "key" acme_key sample_world sample_db_holds refl
      acme_key-Authenticates

acme_is_let_in : (require_api_key sample_env (some "key") sample_world).0 ≡ ok 1
acme_is_let_in = ap (λ o. o.0) require_api_key-accepts_example

require_api_key_sound_example :
    (raw_key : String) × (k : ApiKey) × (some "key" ≡ some raw_key)
    × Authenticates sample_env raw_key sample_db.api_keys k
    × (k.tenant_id ≡ 1)
require_api_key_sound_example =
    require_api_key_sound sample_env (some "key") 1 sample_world acme_is_let_in

-- the tables with no API key
abbrev starts : String → Bool
starts String.[] = false
starts (String.◌∷◌ c s) = true

truthy-mark : (s : String) → truthy (String.◌∷◌ "s" s) ≡ true
truthy-mark s =
    let marked = String.◌∷◌ "s" s in
    let differ : marked ≢ "" = λ e. absurd (cc (ap starts e)) in
    let same = eq_iff marked "" in ground (arith, differ, same)

check-sign :
    (sub : Option String) (iat exp t : Instant) (key : String)
    → let token = sign (record { sub = sub; iat = iat; exp = exp }) key in
      (check t token key ≡ some (record { sub = sub; iat = t; exp = t })) × (truthy token ≡ true)
unfolding sign check
check-sign none iat exp t key = (refl, refl)
check-sign (some s) iat exp t key = (refl, truthy-mark s)

sample_env-TokenLaws : TokenLaws sample_env
sample_env-TokenLaws = record {
  decode-encode = λ p key t given after before.
      (record { sub = p.sub; iat = t; exp = t }, (check-sign p.sub p.iat p.exp t key).0, refl);
  signed = λ p key. (check-sign p.sub p.iat p.exp p.iat key).1;
  parse-show = count-strokes;
}

token_is_made : create_access_token sample_env 1 ≡ ok "s|"
unfolding create_access_token minutes later sign strokes ◌*ℤ◌ ◌+ℤ◌
token_is_made = refl

require_tenant-create_access_token_example :
    require_tenant (at sample_env (pos 6000000)) (some "Bearer s|") (some "key") sample_world
    ≡ (ok 1, sample_world)
unfolding ◌+ℤ◌ ◌*ℤ◌
require_tenant-create_access_token_example =
    require_tenant-create_access_token sample_env sample_env-TokenLaws 1 "s|" (pos 6000000)
      (some "key") sample_world token_is_made (omega arith) (omega arith)

require_tenant-no_fallback_example :
    (require_tenant sample_env (some "Bearer n") (some "key") sample_world
      ≡ require_tenant sample_env (some "Bearer n") none sample_world)
    × ((require_tenant sample_env (some "Bearer n") (some "key") sample_world).1 ≡ sample_world)
    × ((t : Uuid)
        → (require_tenant sample_env (some "Bearer n") (some "key") sample_world).0 ≡ ok t
        → decode_access_token sample_env (partition "Bearer n").1 ≡ some t)
require_tenant-no_fallback_example =
    require_tenant-no_fallback sample_env "Bearer n" (some "key") sample_world

-- the server with no secret for its tokens
abbrev secretless : Env
secretless = record sample_env { settings = record sample_settings { jwt_secret = "" } }

tokens_fail_closed_example :
    ((tenant_id : Uuid) → create_access_token secretless tenant_id ≡ raised runtime_error)
    × ((token : String) → decode_access_token secretless token ≡ none)
    × ((authorization : String) (x_api_key : Option String) (w : World) (t : Uuid)
        → (require_tenant secretless (some authorization) x_api_key w).0 ≢ ok t)
tokens_fail_closed_example = tokens_fail_closed secretless refl

abbrev admin : String
admin = "admin"

abbrev word : String
word = "word"

require_admin-decides_example :
    ((require_admin sample_env (record { username = admin; password = word }) ≡ ok tt)
      ↔ ((admin ≢ "") × (word ≢ "") × (admin ≡ admin) × (word ≡ word)))
    × ((require_admin sample_env (record { username = admin; password = word })
          ≡ raised (not_configured sample_env))
        ↔ ((admin ≡ "") ⊎ (word ≡ "")))
    × (require_admin sample_env (record { username = admin; password = word }) ≢ ok tt
        → require_admin sample_env (record { username = admin; password = word })
          ≢ raised (not_configured sample_env)
        → require_admin sample_env (record { username = admin; password = word })
          ≡ raised (invalid_credentials sample_env))
unfolding is_ascii
require_admin-decides_example =
    require_admin-decides sample_env (record { username = admin; password = word }) refl refl refl
      refl

-- the world after the creation of a key for the second tenant
abbrev globex_world : World
globex_world = (create_api_key sample_env 2 sample_world).1

abbrev globex_response : ApiKeyCreateResponse
globex_response = record {
  id = 101;
  tenant_id = 2;
  key_prefix = "drawn";
  created_at = pos 5000000;
  revoked_at = none;
  last_used_at = none;
  raw_key = "drawn";
}

globex_key_is_made : create_api_key sample_env 2 sample_world ≡ (ok globex_response, globex_world)
unfolding create_api_key get constraints_hold tenants_hold api_keys_hold candidates_hold jobs_hold
    plans_hold subscriptions_hold match_results_hold distinct contains every prefix
globex_key_is_made = refl

require_api_key-create_api_key_example :
    (require_api_key (at sample_env (pos 9000000)) (some "drawn") globex_world).0 ≡ ok 2
require_api_key-create_api_key_example =
    require_api_key-create_api_key sample_env 2 (pos 9000000) sample_world globex_world
      globex_response globex_key_is_made refl

abbrev revoked_world : World
revoked_world = (revoke_api_key sample_env 11 sample_world).1

acme_key_is_revoked :
    revoke_api_key sample_env 11 sample_world
    ≡ (ok (record acme_key { revoked_at = some (pos 5000000) }), revoked_world)
unfolding revoke_api_key get put constraints_hold tenants_hold api_keys_hold candidates_hold
    jobs_hold plans_hold subscriptions_hold match_results_hold distinct contains every
acme_key_is_revoked = refl

require_api_key-revoke_api_key_example :
    (require_api_key (at sample_env (pos 9000000)) (some "key") revoked_world
      ≡ (raised missing_key, revoked_world))
    ⊎ (require_api_key (at sample_env (pos 9000000)) (some "key") revoked_world
        ≡ (raised invalid_key, revoked_world))
require_api_key-revoke_api_key_example =
    require_api_key-revoke_api_key sample_env 11 (pos 9000000) "key" sample_world revoked_world
      (record acme_key { revoked_at = some (pos 5000000) }) acme_key_is_revoked refl

-- the free tier of two resumes is used up
abbrev acme_usage : TenantUsageResponse
acme_usage = record {
  tenant_id = 1;
  is_free_tier = true;
  candidates_this_period = 2;
  monthly_resume_quota = none;
  free_tier_limit = some 2;
}

acme_usage_is_shown : get_tenant_usage sample_env 1 sample_world ≡ (ok acme_usage, sample_world)
unfolding get_tenant_usage usage get find count select count_all_time_candidates
acme_usage_is_shown = refl

enforce_quota-get_tenant_usage_example :
    enforce_quota sample_env 1 sample_world ≡ (raised (free_tier_reached 2), sample_world)
enforce_quota-get_tenant_usage_example =
    enforce_quota-get_tenant_usage sample_env 1 acme_usage sample_world sample_world
      acme_usage_is_shown
