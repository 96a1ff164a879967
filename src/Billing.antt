-- ===== src/Billing.antt =====
-- Subscriptions, webhooks and usage: app/services/billing_service.py.
pub mod Events
pub mod Webhooks
pub mod Subscribe
pub mod Activation
use resume_screening_service.Common.{
  ℕ, String, Bool, Option, none, some, List, ◌∷◌, ⊤, ◌&&◌, find, count, get, put, ◌==◌, nat_eq,
  string_eq, if◌then◌else◌,
}
use resume_screening_service.Common.Int.{ℤ, pos, ◌*ℤ◌, leb_ℤ}
use resume_screening_service.Errors.{Exn, key_error, resource_not_found, Result, ok, raised}
use resume_screening_service.Clock.{days, earlier, from_timestamp}
use resume_screening_service.Models.{
  Uuid, Instant, Candidate, Plan, Subscription, plan_row, subscription_row,
}
use resume_screening_service.Services.{
  Bytes, RazorpayResponse, create_subscription as create_remote, Env,
}
use resume_screening_service.Session.{
  Action, pure, lift, gets, query, or_raise, update, commit, perform, new_id, ◌>>=◌, ◌>>◌,
}

abbrev pub subscription_total_count : ℕ
subscription_total_count = 120

abbrev pub plan_not_found : Exn
plan_not_found = resource_not_found "Plan not found"

-- `_STATUS_EVENTS.get(event_type)`
unfoldable pub status_of_event : String → Option String
status_of_event event_type =
    if event_type == "subscription.activated"
    then some "active"
    else if event_type == "subscription.charged"
    then some "active"
    else if event_type == "subscription.cancelled"
    then some "cancelled"
    else if event_type == "subscription.halted"
    then some "cancelled"
    else none

-- `payload["subscription"]["entity"]`, as far as it is read
pub record WebhookEntity : Type 0 where
  pub id : String
  pub current_end : Option ℤ

-- `func.count()` of a tenant's candidates, all or from an instant on
unfoldable pub count_all_time_candidates : List Candidate → Uuid → ℕ
count_all_time_candidates candidates tenant_id =
    count (λ (c : Candidate). c.tenant_id == tenant_id) candidates

unfoldable pub count_candidates_this_period : List Candidate → Uuid → Instant → ℕ
count_candidates_this_period candidates tenant_id period_start =
    count (λ (c : Candidate). c.tenant_id == tenant_id && leb_ℤ period_start c.created_at)
      candidates

-- `Subscription.tenant_id == tenant_id`
abbrev pub subscription_of : Uuid → List Subscription → Option Subscription
subscription_of tenant_id = find (λ (s : Subscription). s.tenant_id == tenant_id)

module _ (env : Env) where
  open env use {services, now}

  unfoldable pub current_period_start : Subscription → Plan → Result Instant
  current_period_start subscription plan = elim (days (pos 30 *ℤ plan.duration_months)) [
    | raised e ↦ raised e
    | ok window ↦ elim subscription.current_period_end [
      | some end ↦ earlier end window
      | none ↦ earlier now window
    ]
  ]

  -- the assignments to the subscription of the tenant, which is made if there is none
  unfoldable pub assign_subscription : Uuid → Uuid → RazorpayResponse → Action Subscription
  assign_subscription tenant_id plan_id response = do
    found ← query (λ db. subscription_of tenant_id db.subscriptions)
    elim found [
      | some s ↦ do
        let s' = record s {
          plan_id = plan_id;
          status = response.status;
          razorpay_subscription_id = response.id;
        }
        update (λ db. record db { subscriptions = put s' db.subscriptions })
        commit
        pure s'
      | none ↦ do
        id ← new_id env
        let s' : Subscription = record {
          id = id;
          tenant_id = tenant_id;
          plan_id = plan_id;
          status = response.status;
          razorpay_subscription_id = response.id;
          current_period_end = none;
          created_at = now;
        }
        update (λ db. record db { subscriptions = s' ∷ db.subscriptions })
        commit
        pure s'
    ]

  unfoldable pub create_subscription : Uuid → Uuid → Action (Subscription × String)
  unfolding assign_subscription
  create_subscription tenant_id plan_id = do
    plan ← or_raise (← query (λ db. get plan_id db.plans)) plan_not_found
    before ← gets (λ w. w.calls)
    perform env (create_remote plan.razorpay_plan_id subscription_total_count)
    let response = services.subscription before plan.razorpay_plan_id
    subscription ← assign_subscription tenant_id plan.id response
    pure (subscription, response.short_url)

  -- `razorpay.Client.utility.verify_webhook_signature`; a body that is not UTF-8 raises
  -- `UnicodeDecodeError`, a `ValueError`
  unfoldable pub verify_webhook_signature : Bytes → String → Result Bool
  verify_webhook_signature raw_body signature = elim (services.decode_utf8 raw_body) [
    | none ↦ raised (Exn.value_error "invalid utf-8")
    | some body ↦ ok (services.signature_valid body signature env.settings.razorpay_webhook_secret)
  ]

-- `current_period_end` after the event
unfoldable pub period_end_after : String → WebhookEntity → Subscription → Result (Option Instant)
period_end_after event_type entity s =
    if event_type == "subscription.charged"
    then elim entity.current_end [
      | none ↦ ok s.current_period_end
      | some seconds ↦ elim (from_timestamp seconds) [ ok t ↦ ok (some t) | raised e ↦ raised e ]
    ]
    else ok s.current_period_end

-- the body after both early returns
unfoldable pub apply_event : String → WebhookEntity → String → Subscription → Action ⊤
apply_event event_type entity new_status s = do
  update
      (λ db. record db { subscriptions = put (record s { status = new_status }) db.subscriptions })
  period_end ← lift (period_end_after event_type entity s)
  update (λ db. record db {
    subscriptions =
        put (record s { status = new_status; current_period_end = period_end }) db.subscriptions;
  })
  commit

-- `payload` is `payload["subscription"]["entity"]`, read only for an event that is tracked; `none`
-- stands for one whose `id` cannot be read.
unfoldable pub handle_webhook_event : String → Option WebhookEntity → Action ⊤
unfolding apply_event
handle_webhook_event event_type payload = elim (status_of_event event_type) [
  | none ↦ pure tt
  | some new_status ↦ do
    entity ← or_raise payload key_error
    found ← query (λ db.
        find (λ (s : Subscription). s.razorpay_subscription_id == entity.id) db.subscriptions)
    elim found [ none ↦ pure tt | some s ↦ apply_event event_type entity new_status s ]
]
