-- ===== src/Auth/Tokens.antt =====
-- `require_tenant` of app/auth.py on session tokens, beside app/jwt_auth.py.
use text.Mathlib.TextLemmas.{cons-append, nil-append}
use resume_screening_service.Common.{
  String, ◌<>◌, ◌≡◌, ◌≢◌, refl, true, Option, none, some, arith, truthy, partition, lower_is,
  eq_iff,
}
use resume_screening_service.Common.Int.{pos, ◌+ℤ◌, ◌*ℤ◌, ◌≤ℤ◌}
use resume_screening_service.Errors.{ok, raised, runtime_error}
use resume_screening_service.Clock.{minute, minutes, later}
use resume_screening_service.Models.{Uuid, Instant}
use resume_screening_service.Services.{JwtPayload, Env, at}
use resume_screening_service.Session.{World}
use resume_screening_service.JwtAuth.{create_access_token, decode_access_token}
use resume_screening_service.Auth.{require_tenant}

-- What the code relies on: PyJWT gives back the subject of a payload that it signed with the same
-- key, from the instant of issue up to a second before the expiry (it compares whole seconds); a
-- signed token is not empty; and `UUID(str(u))` is `u`.
pub record TokenLaws (env : Env) : Type 0 where
  pub decode-encode :
      (p : JwtPayload) (key : String) (t : Instant)
      → truthy key ≡ true
      → p.iat ≤ℤ t
      → t +ℤ pos 1000000 ≤ℤ p.exp
      → (q : JwtPayload) × (env.services.jwt_decode t (env.services.jwt_encode p key) key ≡ some q)
        × (q.sub ≡ p.sub)
  pub signed : (p : JwtPayload) (key : String) → truthy (env.services.jwt_encode p key) ≡ true
  pub parse-show : (u : Uuid) → env.parse_uuid (env.show_uuid u) ≡ some u

partition-bearer : (token : String) → partition ("Bearer " <> token) ≡ ("Bearer", token)
unfolding partition
partition-bearer token = rw (
  cons-append, cons-append, cons-append, cons-append, cons-append, cons-append, cons-append,
  nil-append,
)

module _ (env : Env) (laws : TokenLaws env) where
  payload : Uuid → JwtPayload
  payload tenant_id = record {
    sub = some (env.show_uuid tenant_id);
    iat = env.now;
    exp = env.now +ℤ minute *ℤ pos env.settings.jwt_expiry_minutes;
  }

  create-eq-ok :
      (tenant_id : Uuid) (token : String)
      → create_access_token env tenant_id ≡ ok token
      → (truthy env.settings.jwt_secret ≡ true)
        × (token ≡ env.services.jwt_encode (payload tenant_id) env.settings.jwt_secret)
  unfolding create_access_token minutes later payload
  create-eq-ok tenant_id token created = ground arith

  decode-create :
      (tenant_id : Uuid) (token : String) (t : Instant)
      → create_access_token env tenant_id ≡ ok token
      → env.now ≤ℤ t
      → t +ℤ pos 1000000 ≤ℤ env.now +ℤ minute *ℤ pos env.settings.jwt_expiry_minutes
      → decode_access_token (at env t) token ≡ some tenant_id
  unfolding decode_access_token payload
  decode-create tenant_id token t created after before =
      let (given, issued) = create-eq-ok tenant_id token created in
      let (q, decoded, same) =
        laws.decode-encode (payload tenant_id) env.settings.jwt_secret t given after before in
      let parsed = laws.parse-show tenant_id in ground arith

  token-truthy :
      (tenant_id : Uuid) (token : String)
      → create_access_token env tenant_id ≡ ok token
      → truthy token ≡ true
  token-truthy tenant_id token created =
      rw (create-eq-ok tenant_id token created).1
        (laws.signed (payload tenant_id) env.settings.jwt_secret)

  -- A token issued to a tenant is accepted as that tenant, at any instant until a second before it
  -- expires, in the header 'Bearer <token>', whatever API key is sent along; nothing changes.
  pub require_tenant-create_access_token :
      (tenant_id : Uuid) (token : String) (t : Instant) (x_api_key : Option String) (w : World)
      → create_access_token env tenant_id ≡ ok token
      → env.now ≤ℤ t
      → t +ℤ pos 1000000 ≤ℤ env.now +ℤ minute *ℤ pos env.settings.jwt_expiry_minutes
      → require_tenant (at env t) (some ("Bearer " <> token)) x_api_key w ≡ (ok tenant_id, w)
  unfolding require_tenant lower_is
  require_tenant-create_access_token tenant_id token t x_api_key w created after before = rw (
    partition-bearer token,
    token-truthy tenant_id token created,
    decode-create tenant_id token t created after before,
  )

-- A request with an Authorization header never falls back on its API key: whatever key is sent,
-- the answer is the same, the world is left as it was, and a tenant is returned only if it is the
-- one that the token after a 'bearer ' of any case decodes to.
pub require_tenant-no_fallback :
    (env : Env) (authorization : String) (x_api_key : Option String) (w : World)
    → (require_tenant env (some authorization) x_api_key w
        ≡ require_tenant env (some authorization) none w)
      × ((require_tenant env (some authorization) x_api_key w).1 ≡ w)
      × ((t : Uuid)
          → (require_tenant env (some authorization) x_api_key w).0 ≡ ok t
          → decode_access_token env (partition authorization).1 ≡ some t)
unfolding require_tenant
require_tenant-no_fallback env authorization x_api_key w = (refl, ground arith, λ t h. ground arith)

-- With no secret configured no token is issued, and none is accepted.
pub tokens_fail_closed :
    (env : Env)
    → env.settings.jwt_secret ≡ ""
    → ((tenant_id : Uuid) → create_access_token env tenant_id ≡ raised runtime_error)
      × ((token : String) → decode_access_token env token ≡ none)
      × ((authorization : String) (x_api_key : Option String) (w : World) (t : Uuid)
          → (require_tenant env (some authorization) x_api_key w).0 ≢ ok t)
unfolding create_access_token decode_access_token require_tenant
tokens_fail_closed env h =
    let given = eq_iff env.settings.jwt_secret "" in
    (λ u. ground (arith, given), λ token. ground (arith, given), λ a x w t e. ground (arith, given))
