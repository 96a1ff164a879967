-- ===== src/BillingGuard.antt =====
-- The gate of the routes that consume a resume: app/billing_guard.py.
use resume_screening_service.Common.{
  ℕ, ◌<>◌, show_ℕ, Option, none, some, get, leb, ◌==◌, string_eq, if◌then◌else◌,
}
use resume_screening_service.Common.Int.{pos, leb_ℤ}
use resume_screening_service.Errors.{Exn, http_exception, attribute_error, Result, ok, raised}
use resume_screening_service.Models.{Uuid, Plan, Subscription, plan_row}
use resume_screening_service.Services.{Env}
use resume_screening_service.Session.{Database, Action}
use resume_screening_service.Billing.{
  count_all_time_candidates, count_candidates_this_period, current_period_start, subscription_of,
}

unfoldable pub free_tier_reached : ℕ → Exn
free_tier_reached limit =
    http_exception 402 (
      "Free tier limit ("
      <> (show_ℕ limit <> " resumes) reached. Subscribe to a plan to continue."))

abbrev pub quota_exceeded : Exn
quota_exceeded = http_exception 402 "Monthly resume quota exceeded."

-- `subscription is not None and subscription.status == "active"`: the subscription, if so
abbrev pub active : Option Subscription → Option Subscription
active none = none
active (some s) = if s.status == "active" then some s else none

module _ (env : Env) where
  open env use {settings}

  unfoldable pub check_free_tier : Database → Uuid → Result Uuid
  check_free_tier db tenant_id =
      if leb settings.free_tier_resume_limit (count_all_time_candidates db.candidates tenant_id)
      then raised (free_tier_reached settings.free_tier_resume_limit)
      else ok tenant_id

  unfoldable pub check_quota : Database → Uuid → Subscription → Plan → Result Uuid
  check_quota db tenant_id subscription plan = elim plan.monthly_resume_quota [
    | none ↦ ok tenant_id
    | some quota ↦ elim (current_period_start env subscription plan) [
      | raised e ↦ raised e
      | ok period_start ↦
          if leb_ℤ quota (pos (count_candidates_this_period db.candidates tenant_id period_start))
          then raised quota_exceeded
          else ok tenant_id
    ]
  ]

  -- `db.get(Plan, …)` of a plan that is not there is `None`, whose attribute cannot be read.
  unfoldable pub check_plan : Database → Uuid → Subscription → Result Uuid
  unfolding check_quota
  check_plan db tenant_id subscription = elim (get subscription.plan_id db.plans) [
    | none ↦ raised attribute_error
    | some plan ↦ check_quota db tenant_id subscription plan
  ]

  unfoldable pub enforce_quota : Uuid → Action Uuid
  unfolding check_free_tier check_plan
  enforce_quota tenant_id w = (
    elim (active (subscription_of tenant_id w.db.subscriptions)) [
      | none ↦ check_free_tier w.db tenant_id
      | some subscription ↦ check_plan w.db tenant_id subscription
    ],
    w,
  )
