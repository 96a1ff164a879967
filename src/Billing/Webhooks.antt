-- ===== src/Billing/Webhooks.antt =====
-- `handle_webhook_event` of app/services/billing_service.py.
use resume_screening_service.Common.{
  String, ◌≡◌, ◌≢◌, ◌⊎◌, refl, true, Option, none, some, arith, find, find-Memᴰ, get, put,
  get-put_ne, get-put_self, get_of_Memᴰ, put-put, nat_eq, string_eq, ◌==◌,
}
use resume_screening_service.Errors.{ok}
use resume_screening_service.Models.{Uuid, Instant, Subscription, subscription_row}
use resume_screening_service.Session.{World, Database, constraints_hold}
use resume_screening_service.Session.Laws.{
  constraints_hold-put_subscription, distinct_subscriptions,
}
use resume_screening_service.Billing.{
  WebhookEntity, status_of_event, period_end_after, apply_event, handle_webhook_event,
}
use resume_screening_service.Billing.Events.{
  Tracked, PeriodEnd, status_of_event-Tracked, status_of_event_untracked,
  period_end_after-PeriodEnd,
}

-- the subscription that an event names
abbrev pub named : WebhookEntity → Database → Option Subscription
named entity db =
    find (λ (s : Subscription). s.razorpay_subscription_id == entity.id) db.subscriptions

-- the subscription after an event
abbrev pub after : String → Option Instant → Subscription → Subscription
after new_status period_end s = record s { status = new_status; current_period_end = period_end }

-- An event that is not tracked, or that names no subscription of the tables, changes nothing and
-- raises nothing.
pub handle_webhook_event-ignores :
    (event_type : String) (entity : WebhookEntity) (w : World)
    → (status_of_event event_type ≡ none) ⊎ (named entity w.db ≡ none)
    → handle_webhook_event event_type (some entity) w ≡ (ok tt, w)
unfolding handle_webhook_event
handle_webhook_event-ignores event_type entity w h = ground arith

apply_event-commits :
    (event_type new_status : String) (entity : WebhookEntity) (s : Subscription)
    (period_end : Option Instant) (w : World)
    → constraints_hold w.db ≡ true
    → get s.id w.db.subscriptions ≡ some s
    → period_end_after event_type entity s ≡ ok period_end
    → let s' = after new_status period_end s in
      let db = record w.db { subscriptions = put s' w.db.subscriptions } in
      apply_event event_type entity new_status s w ≡ (ok tt, record w { db = db; saved = db })
unfolding apply_event
apply_event-commits event_type new_status entity s period_end w h by_id ends =
    let s' = after new_status period_end s in
    let kept = constraints_hold-put_subscription w.db s' s h by_id refl refl refl in
    let once =
      put-put ⦃r = subscription_row⦄ s' (record s { status = new_status }) w.db.subscriptions
        refl in
    rw ends (rw once (ground arith))

-- the row that an event names is the row of its id
pub get-named :
    (entity : WebhookEntity) (s : Subscription) (db : Database)
    → constraints_hold db ≡ true
    → named entity db ≡ some s
    → get s.id db.subscriptions ≡ some s
get-named entity s db h found =
    get_of_Memᴰ ⦃r = subscription_row⦄ s db.subscriptions (distinct_subscriptions db h) (
      find-Memᴰ (λ (x : Subscription). x.razorpay_subscription_id == entity.id) db.subscriptions s
        found)

-- the tables that a tracked event commits
pub handle_webhook_event-commits :
    (event_type new_status : String) (entity : WebhookEntity) (s : Subscription)
    (period_end : Option Instant) (w : World)
    → constraints_hold w.db ≡ true
    → status_of_event event_type ≡ some new_status
    → named entity w.db ≡ some s
    → period_end_after event_type entity s ≡ ok period_end
    → let db = record w.db {
      subscriptions = put (after new_status period_end s) w.db.subscriptions;
    } in
      handle_webhook_event event_type (some entity) w ≡ (ok tt, record w { db = db; saved = db })
unfolding handle_webhook_event
handle_webhook_event-commits event_type new_status entity s period_end w h tracked found ends =
    let by_id = get-named entity s w.db h found in
    let run = apply_event-commits event_type new_status entity s period_end w h by_id ends in
    ground arith

-- On consistent tables an event gives the subscription that it names the status active when it is
-- an activation or a charge, and cancelled when it is a cancellation or a halt. A charge that tells
-- the end of the period, in seconds from year 1 to year 9999, sets the end of the period to that
-- instant, and no other event does. The change is committed; every other subscription, and every
-- other table, is as it was. An event that is none of these four changes nothing and raises nothing.
pub handle_webhook_event-applies :
    (event_type new_status other : String) (entity : WebhookEntity) (payload : Option WebhookEntity)
    (s : Subscription) (period_end : Option Instant) (w : World)
    → constraints_hold w.db ≡ true
    → Tracked event_type new_status
    → named entity w.db ≡ some s
    → PeriodEnd event_type entity s.current_period_end period_end
    → ((status : String) → ¬ Tracked other status)
    → (handle_webhook_event other payload w ≡ (ok tt, w))
      × (db : Database) × (handle_webhook_event event_type (some entity) w
          ≡ (ok tt, record w { db = db; saved = db }))
      × (get s.id db.subscriptions ≡ some (after new_status period_end s))
      × ((id : Uuid) → s.id ≢ id → get id db.subscriptions ≡ get id w.db.subscriptions)
      × (record db { subscriptions = w.db.subscriptions } ≡ w.db)
unfolding handle_webhook_event
handle_webhook_event-applies event_type new_status other entity payload s period_end w h tracked
      found ends foreign =
    let s' = after new_status period_end s in
    let ignored = status_of_event_untracked other foreign in
    (
      rw (handle_webhook_event, ignored) refl,
      record w.db { subscriptions = put s' w.db.subscriptions },
      handle_webhook_event-commits event_type new_status entity s period_end w h
          (status_of_event-Tracked event_type new_status tracked) found
          (period_end_after-PeriodEnd event_type entity s period_end ends),
      get-put_self ⦃r = subscription_row⦄ s' s w.db.subscriptions (get-named entity s w.db h found),
      (λ id other. get-put_ne ⦃r = subscription_row⦄ id s' w.db.subscriptions other),
      refl,
    )
