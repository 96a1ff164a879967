-- ===== src/Admin/Usage.antt =====
-- `get_tenant_usage` of app/routers/admin.py beside `enforce_quota` of app/billing_guard.py.
use resume_screening_service.Common.{
  ℕ, ◌≡◌, inl, inr, ap, Bool, true, not, Option, none, some, arith, get, leb, Option-cases,
  if◌then◌else◌,
}
use resume_screening_service.Common.Int.{ℤ, pos, leb_ℤ}
use resume_screening_service.Errors.{Exn, ok, raised}
use resume_screening_service.Models.{Uuid, Subscription, plan_row, tenant_row}
use resume_screening_service.Schemas.{TenantUsageResponse}
use resume_screening_service.Services.{Env}
use resume_screening_service.Session.{World, Database}
use resume_screening_service.Billing.{subscription_of}
use resume_screening_service.BillingGuard.{
  active, free_tier_reached, quota_exceeded, check_free_tier, check_plan, enforce_quota,
}
use resume_screening_service.Admin.{usage, get_tenant_usage}

-- What an operator reads off the response: whether one more resume is allowed.
abbrev pub below : ℕ → Option ℕ → Bool
below used none = true
below used (some limit) = not (leb limit used)

abbrev pub below_quota : ℕ → Option ℤ → Bool
below_quota used none = true
below_quota used (some quota) = not (leb_ℤ quota (pos used))

abbrev pub allows : TenantUsageResponse → Bool
allows r =
    if r.is_free_tier
    then below r.candidates_this_period r.free_tier_limit
    else below_quota r.candidates_this_period r.monthly_resume_quota

module _ (env : Env) (tenant_id : Uuid) where
  answer :
      (r : TenantUsageResponse) (w w' : World)
      → get_tenant_usage env tenant_id w ≡ (ok r, w')
      → usage env w.db tenant_id ≡ ok r
  unfolding get_tenant_usage
  answer r w w' h = elim (Option-cases (get tenant_id w.db.tenants)) [
    | inl missing ↦ absurd (ground arith)
    | inr (t, found) ↦ ground arith
  ]

  abbrev refusal : TenantUsageResponse → Exn
  refusal r =
      if r.is_free_tier
      then free_tier_reached env.settings.free_tier_resume_limit
      else quota_exceeded

  usage-free :
      (db : Database) (r : TenantUsageResponse)
      → active (subscription_of tenant_id db.subscriptions) ≡ none
      → usage env db tenant_id ≡ ok r
      → check_free_tier env db tenant_id ≡ (if allows r then ok tenant_id else raised (refusal r))
  unfolding usage check_free_tier
  usage-free db r free h = ground arith

  usage-paid :
      (db : Database) (s : Subscription) (r : TenantUsageResponse)
      → active (subscription_of tenant_id db.subscriptions) ≡ some s
      → usage env db tenant_id ≡ ok r
      → check_plan env db tenant_id s ≡ (if allows r then ok tenant_id else raised (refusal r))
  unfolding usage check_plan
  usage-paid db s r paid h = ground arith

  -- Whenever the view answers, the gate lets the tenant through exactly if the numbers of the view
  -- allow one more resume; otherwise it raises the 402 of the tier that the view names.
  pub enforce_quota-get_tenant_usage :
      (r : TenantUsageResponse) (w w' : World)
      → get_tenant_usage env tenant_id w ≡ (ok r, w')
      → enforce_quota env tenant_id w ≡ (
        (if allows r
            then ok tenant_id
            else raised (
                if r.is_free_tier
                then free_tier_reached env.settings.free_tier_resume_limit
                else quota_exceeded)),
        w,
      )
  unfolding get_tenant_usage enforce_quota
  enforce_quota-get_tenant_usage r w w' h =
      elim (Option-cases (active (subscription_of tenant_id w.db.subscriptions))) [
        | inl free ↦ rw free (ap (λ o. (o, w)) (usage-free w.db r free (answer r w w' h)))
        | inr (s, paid) ↦ rw paid (ap (λ o. (o, w)) (usage-paid w.db s r paid (answer r w w' h)))
      ]
