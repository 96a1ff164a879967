-- ===== src/Admin.antt =====
-- The operator's routes: app/routers/admin.py.
pub mod Keys
pub mod Usage
use resume_screening_service.Common.{
  ℕ, String, true, false, Option, none, some, List, ◌∷◌, take, drop, select, get, put, prefix, ◌==◌,
  nat_eq,
}
use resume_screening_service.Common.Sort.{sort_desc}
use resume_screening_service.Errors.{Exn, http_exception, attribute_error, Result, ok, raised}
use resume_screening_service.Models.{
  Uuid, Tenant, ApiKey, Plan, Subscription, tenant_row, api_key_row, plan_row,
}
use resume_screening_service.Schemas.{ApiKeyCreateResponse, PlanCreate, TenantUsageResponse}
use resume_screening_service.Services.{Env}
use resume_screening_service.Session.{
  Database, Action, pure, lift, query, or_raise, update, commit, draw, new_id, ◌>>=◌, ◌>>◌,
}
use resume_screening_service.Auth.{hash_key}
use resume_screening_service.Billing.{
  count_all_time_candidates, count_candidates_this_period, current_period_start, subscription_of,
}
use resume_screening_service.BillingGuard.{active}

abbrev pub tenant_not_found : Exn
tenant_not_found = http_exception 404 "Tenant not found"

abbrev pub key_not_found : Exn
key_not_found = http_exception 404 "API key not found"

-- `limit` and `offset` that are not negative; the database refuses others
unfoldable pub list_tenants : ℕ → ℕ → Action (List Tenant)
list_tenants limit offset =
    query (λ db. take limit (drop offset (sort_desc (λ t. t.created_at) db.tenants)))

unfoldable pub get_tenant : Uuid → Action Tenant
get_tenant tenant_id = do or_raise (← query (λ db. get tenant_id db.tenants)) tenant_not_found

unfoldable pub list_api_keys : Uuid → Action (List ApiKey)
list_api_keys tenant_id = query (λ db.
    sort_desc (λ k. k.created_at) (select (λ (k : ApiKey). k.tenant_id == tenant_id) db.api_keys))

unfoldable pub list_plans : Action (List Plan)
list_plans = query (λ db. sort_desc (λ p. p.created_at) db.plans)

unfoldable pub list_subscriptions : Option Uuid → Action (List Subscription)
list_subscriptions none = query (λ db. sort_desc (λ s. s.created_at) db.subscriptions)
list_subscriptions (some tenant_id) = query (λ db.
    sort_desc (λ s. s.created_at)
      (select (λ (s : Subscription). s.tenant_id == tenant_id) db.subscriptions))

module _ (env : Env) where
  open env use {settings, now, token_urlsafe}

  unfoldable pub create_tenant : String → Action Tenant
  create_tenant name = do
    id ← new_id env
    let tenant : Tenant = record {
      id = id;
      name = name;
      email = none;
      hashed_password = none;
      google_sub = none;
      created_at = now;
    }
    update (λ db. record db { tenants = tenant ∷ db.tenants })
    commit
    pure tenant

  -- the row of a new key, by the text drawn for it
  abbrev pub new_key : Uuid → Uuid → String → ApiKey
  new_key id tenant_id raw_key = record {
    id = id;
    tenant_id = tenant_id;
    hashed_key = hash_key env raw_key;
    key_prefix = prefix 8 raw_key;
    created_at = now;
    revoked_at = none;
    last_used_at = none;
  }

  abbrev pub key_response : ApiKey → String → ApiKeyCreateResponse
  key_response k raw_key = record {
    id = k.id;
    tenant_id = k.tenant_id;
    key_prefix = k.key_prefix;
    created_at = k.created_at;
    revoked_at = k.revoked_at;
    last_used_at = k.last_used_at;
    raw_key = raw_key;
  }

  unfoldable pub create_api_key : Uuid → Action ApiKeyCreateResponse
  unfolding prefix
  create_api_key tenant_id = do
    tenant ← query (λ db. get tenant_id db.tenants)
    or_raise tenant tenant_not_found
    n ← draw env
    let raw_key = token_urlsafe n
    id ← new_id env
    let api_key = new_key id tenant_id raw_key
    update (λ db. record db { api_keys = api_key ∷ db.api_keys })
    commit
    pure (key_response api_key raw_key)

  unfoldable pub revoke_api_key : Uuid → Action ApiKey
  revoke_api_key key_id = do
    api_key ← or_raise (← query (λ db. get key_id db.api_keys)) key_not_found
    let revoked = record api_key { revoked_at = some now }
    update (λ db. record db { api_keys = put revoked db.api_keys })
    commit
    pure revoked

  unfoldable pub create_plan : PlanCreate → Action Plan
  create_plan payload = do
    id ← new_id env
    let plan : Plan = record {
      id = id;
      name = payload.name;
      price = payload.price;
      currency = payload.currency;
      monthly_resume_quota = payload.monthly_resume_quota;
      duration_months = payload.duration_months;
      razorpay_plan_id = payload.razorpay_plan_id;
      created_at = now;
    }
    update (λ db. record db { plans = plan ∷ db.plans })
    commit
    pure plan

  -- The plan of the subscription is read with no test for `None`.
  unfoldable pub plan_usage : Database → Uuid → Subscription → Result TenantUsageResponse
  plan_usage db tenant_id subscription = elim (get subscription.plan_id db.plans) [
    | none ↦ raised attribute_error
    | some plan ↦ elim (current_period_start env subscription plan) [
      | raised e ↦ raised e
      | ok period_start ↦ ok (record {
        tenant_id = tenant_id;
        is_free_tier = false;
        candidates_this_period = count_candidates_this_period db.candidates tenant_id period_start;
        monthly_resume_quota = plan.monthly_resume_quota;
        free_tier_limit = none;
      })
    ]
  ]

  -- the response after the test for the tenant
  unfoldable pub usage : Database → Uuid → Result TenantUsageResponse
  unfolding plan_usage
  usage db tenant_id = elim (active (subscription_of tenant_id db.subscriptions)) [
    | none ↦ ok (record {
      tenant_id = tenant_id;
      is_free_tier = true;
      candidates_this_period = count_all_time_candidates db.candidates tenant_id;
      monthly_resume_quota = none;
      free_tier_limit = some settings.free_tier_resume_limit;
    })
    | some subscription ↦ plan_usage db tenant_id subscription
  ]

  unfoldable pub get_tenant_usage : Uuid → Action TenantUsageResponse
  unfolding usage
  get_tenant_usage tenant_id = do
    tenant ← query (λ db. get tenant_id db.tenants)
    or_raise tenant tenant_not_found
    response ← query (λ db. usage db tenant_id)
    lift response
