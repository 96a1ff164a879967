-- ===== src/Billing/Activation.antt =====
-- A subscription from its creation to its first events: `create_subscription` and
-- `handle_webhook_event` of app/services/billing_service.py, and the gate of app/billing_guard.py.
use resume_screening_service.Common.{
  String, ◌≡◌, sym, ◌∙◌, ap, subst, refl, true, Option, some, arith, find_of_distinct, get, put,
  put-Memᴰ, distinct, map, nat_eq, string_eq, ◌==◌, get-key_self, Bool-cases, inl, inr,
  if◌then◌else◌,
}
use resume_screening_service.Errors.{ok}
use resume_screening_service.Models.{Uuid, Instant, Plan, Subscription, plan_row, subscription_row}
use resume_screening_service.Services.{Env, at}
use resume_screening_service.Session.{World, Database, constraints_hold, subscriptions_hold}
use resume_screening_service.Session.Laws.{constraints_hold-put_subscription}
use resume_screening_service.Billing.{
  WebhookEntity, subscription_of, create_subscription, handle_webhook_event,
}
use resume_screening_service.BillingGuard.{check_quota, enforce_quota, check_plan, check_free_tier}
use resume_screening_service.Billing.Events.{
  Tracked, PeriodEnd, status_of_event-Tracked, period_end_after-PeriodEnd,
}
use resume_screening_service.Billing.Webhooks.{
  after, named, get-named, handle_webhook_event-commits,
}
use resume_screening_service.Billing.Subscribe.{Subscribed, create_subscription-Subscribed}

distinct_tenants :
    (db : Database)
    → constraints_hold db ≡ true
    → distinct (map (λ (s : Subscription). s.tenant_id) db.subscriptions) ≡ true
unfolding constraints_hold subscriptions_hold
distinct_tenants db h = ground arith

distinct_remote :
    (db : Database)
    → constraints_hold db ≡ true
    → distinct (map (λ (s : Subscription). s.razorpay_subscription_id) db.subscriptions) ≡ true
unfolding constraints_hold subscriptions_hold
distinct_remote db h = ground arith

-- the tenant's subscription after an event is the one that the event has changed
subscription_of-after :
    (t : Uuid) (new_status : String) (entity : WebhookEntity) (s : Subscription)
    (period_end : Option Instant) (db : Database)
    → constraints_hold db ≡ true
    → named entity db ≡ some s
    → s.tenant_id ≡ t
    → subscription_of t (put (after new_status period_end s) db.subscriptions)
      ≡ some (after new_status period_end s)
subscription_of-after t new_status entity s period_end db h found own =
    let s' = after new_status period_end s in
    let by_id = get-named entity s db h found in
    let later : Database = record db { subscriptions = put s' db.subscriptions } in
    find_of_distinct ⦃e = nat_eq⦄ (λ (x : Subscription). x.tenant_id) s' t later.subscriptions
      (distinct_tenants later (constraints_hold-put_subscription db s' s h by_id refl refl refl))
      (put-Memᴰ ⦃r = subscription_row⦄ s' s db.subscriptions by_id) own

module _ (env : Env) where
  -- with an active subscription and its plan, the gate is the check of the plan's quota, and with
  -- one that is not active, the check of the free tier
  enforce_quota_of_plan :
      (t : Uuid) (s : Subscription) (plan : Plan) (w : World)
      → subscription_of t w.db.subscriptions ≡ some s
      → get s.plan_id w.db.plans ≡ some plan
      → enforce_quota env t w ≡ (
        (if s.status == "active"
            then check_quota env w.db t s plan
            else check_free_tier env w.db t),
        w,
      )
  unfolding enforce_quota check_plan
  enforce_quota_of_plan t s plan w found stored = elim (Bool-cases (s.status == "active")) [
    | inl live ↦ ground arith
    | inr ended ↦ ground arith
  ]

module _ (env : Env) (t plan_id : Uuid) (w w' : World) (s : Subscription) (url : String) where
  subscribed :
      constraints_hold w.db ≡ true
      → create_subscription env t plan_id w ≡ (ok (s, url), w')
      → Subscribed env t plan_id w (ok (s, url), w')
  subscribed h run =
      subst (Subscribed env t plan_id w) run (create_subscription-Subscribed env t plan_id w h)

  -- When a subscription has been made on consistent tables, an event with its id at Razorpay finds
  -- it, whatever the tenant had before, and commits the subscription of the tenant with the status
  -- active for an activation or a charge, and cancelled for a cancellation or a halt, and with the
  -- end of the period that a charge tells; no other row changes. On the tables that the event
  -- leaves, and at any instant, the quota gate of the tenant is the check of the quota of the plan
  -- that was asked for when the status is active, and the check of the free tier when it is not.
  pub handle_webhook_event-create_subscription :
      (event_type new_status : String) (entity : WebhookEntity) (period_end : Option Instant)
      (now : Instant)
      → constraints_hold w.db ≡ true
      → create_subscription env t plan_id w ≡ (ok (s, url), w')
      → Tracked event_type new_status
      → entity.id ≡ s.razorpay_subscription_id
      → PeriodEnd event_type entity s.current_period_end period_end
      → (plan : Plan) × (get plan_id w.db.plans ≡ some plan)
        × (let s' = after new_status period_end s in
            let db : Database = record w'.db { subscriptions = put s' w'.db.subscriptions } in
            let later : World = record w' { db = db; saved = db } in
            (handle_webhook_event event_type (some entity) w' ≡ (ok tt, later))
            × (subscription_of t db.subscriptions ≡ some s')
            × (enforce_quota (at env now) t later ≡ (
              (if new_status == "active"
                  then check_quota (at env now) db t s' plan
                  else check_free_tier (at env now) db t),
              later,
            )))
  handle_webhook_event-create_subscription event_type new_status entity period_end now h run tracked
        same ends =
      let (plan, stored, answered, told, a) = subscribed h run in
      let s' = after new_status period_end s in
      let db : Database = record w'.db { subscriptions = put s' w'.db.subscriptions } in
      let later : World = record w' { db = db; saved = db } in
      let found =
        find_of_distinct ⦃e = string_eq⦄ (λ (x : Subscription). x.razorpay_subscription_id) s
          entity.id w'.db.subscriptions (distinct_remote w'.db a.consistent) a.stored (sym same) in
      let mine =
        subscription_of-after t new_status entity s period_end w'.db a.consistent found
          a.of_tenant in
      let plans : w'.db.plans ≡ w.db.plans = ap (λ (d : Database). d.plans) a.kept in
      let plan_stored : get s'.plan_id later.db.plans ≡ some plan =
        ap (λ k. get k later.db.plans) a.of_plan
        ∙ ap (get plan.id) plans
        ∙ get-key_self ⦃r = plan_row⦄ plan_id w.db.plans plan stored in
      (
        plan,
        stored,
        (
          handle_webhook_event-commits event_type new_status entity s period_end w' a.consistent
              (status_of_event-Tracked event_type new_status tracked) found
              (period_end_after-PeriodEnd event_type entity s period_end ends),
          mine,
          enforce_quota_of_plan (at env now) t s' plan later mine plan_stored,
        ),
      )
