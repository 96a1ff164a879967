-- ===== src/Tests/Accounts.antt =====
-- The theorems on accounts and on subscriptions, at the sample server.
use mathlib.Core.List.{Memᴰ}
use resume_screening_service.Registration.{register_or_login_with_google}
use resume_screening_service.Common.{
  String, ◌==◌, false, ap, [], ◌≡◌, ◌≢◌, refl, none, some, ◌∷◌, get, put, find, distinct, contains,
  values, every, ==-refl, string_eq, arith,
}
use resume_screening_service.Common.Int.{pos}
use resume_screening_service.Errors.{ok, raised, integrity_error}
use resume_screening_service.Models.{
  Uuid, Tenant, Plan, Subscription, tenant_row, subscription_row, plan_row,
}
use resume_screening_service.Services.{at}
use resume_screening_service.Session.{
  Database, World, constraints_hold, tenants_hold, api_keys_hold, candidates_hold, jobs_hold,
  plans_hold, subscriptions_hold, match_results_hold,
}
use resume_screening_service.Registration.{register_with_password, authenticate_with_password}
use resume_screening_service.Registration.Accounts.{
  PasswordLaws, IsNew, authenticate_with_password-register_with_password,
  register_with_password-accepts,
}
use resume_screening_service.Billing.{
  WebhookEntity, handle_webhook_event, create_subscription, assign_subscription, subscription_of,
}
use resume_screening_service.Registration.Google.{register_or_login_with_google-conflict}
use resume_screening_service.BillingGuard.{enforce_quota, check_free_tier}
use resume_screening_service.Billing.Events.{Tracked, PeriodEnd}
use resume_screening_service.Billing.Subscribe.{Subscribed, create_subscription-Subscribed}
use resume_screening_service.Billing.Activation.{handle_webhook_event-create_subscription}
use resume_screening_service.Billing.Webhooks.{after, handle_webhook_event-applies}
use resume_screening_service.Tests.Sample.{
  sample_env, sample_db, sample_world, sample_db_holds, world_of, acme, acme_subscription,
}

sample_env-PasswordLaws : PasswordLaws sample_env
sample_env-PasswordLaws = record {
  check-hash = λ salt password hashed made. ground (arith, ==-refl ⦃e = string_eq⦄ hashed);
}

abbrev new_tenant : Tenant
new_tenant = record {
  id = 101;
  name = "new@x.org";
  email = some "new@x.org";
  hashed_password = some "hpass";
  google_sub = none;
  created_at = pos 5000000;
}

abbrev registered_world : World
registered_world = (register_with_password sample_env "new@x.org" "pass" sample_world).1

new_tenant_is_registered :
    register_with_password sample_env "new@x.org" "pass" sample_world
    ≡ (ok new_tenant, registered_world)
unfolding register_with_password find get constraints_hold tenants_hold api_keys_hold
    candidates_hold jobs_hold plans_hold subscriptions_hold match_results_hold distinct contains
    values every
new_tenant_is_registered = refl

authenticate_with_password-register_with_password_example :
    IsNew "new@x.org" sample_db.tenants
    × (authenticate_with_password (at sample_env (pos 9)) "new@x.org" "pass" registered_world
        ≡ (ok new_tenant, registered_world))
authenticate_with_password-register_with_password_example =
    authenticate_with_password-register_with_password sample_env sample_env-PasswordLaws "new@x.org"
      "pass" new_tenant (pos 9) sample_world registered_world new_tenant_is_registered

register_with_password-accepts_example :
    (t : Tenant) × (w' : World) × (register_with_password sample_env "new@x.org" "pass" sample_world
      ≡ (ok t, w'))
    × (w'.saved.tenants ≡ t ∷ sample_db.tenants)
    × (t.email ≡ some "new@x.org")
    × (t.hashed_password ≡ some "hpass")
unfolding find get
register_with_password-accepts_example =
    register_with_password-accepts sample_env "new@x.org" "pass" "hpass" sample_world
      sample_db_holds refl refl refl

abbrev charge : WebhookEntity
charge = record { id = "sub_1"; current_end = some (pos 9) }

abbrev charged : Subscription
charged = after "active" (some (pos 9000000)) acme_subscription

-- an event that tells nothing of a subscription
differs : (a b : String) → (a == b) ≡ false → a ≢ b
differs a b h e = absurd (ground (arith, ap (λ x. x == b) e, ==-refl ⦃e = string_eq⦄ b))

paused_is_not_tracked : (status : String) → ¬ Tracked "subscription.paused" status
paused_is_not_tracked status (Tracked.activated e s) = differs _ _ refl e
paused_is_not_tracked status (Tracked.charged e s) = differs _ _ refl e
paused_is_not_tracked status (Tracked.cancelled e s) = differs _ _ refl e
paused_is_not_tracked status (Tracked.halted e s) = differs _ _ refl e

handle_webhook_event-applies_example :
    (handle_webhook_event "subscription.paused" (some charge) sample_world ≡ (ok tt, sample_world))
    × (db : Database) × (handle_webhook_event "subscription.charged" (some charge) sample_world
        ≡ (ok tt, record sample_world { db = db; saved = db }))
    × (get 31 db.subscriptions ≡ some charged)
    × ((id : Uuid) → 31 ≢ id → get id db.subscriptions ≡ get id sample_db.subscriptions)
    × (record db { subscriptions = sample_db.subscriptions } ≡ sample_db)
unfolding find
handle_webhook_event-applies_example =
    handle_webhook_event-applies "subscription.charged" "active" "subscription.paused" charge
      (some charge) acme_subscription (some (pos 9000000)) sample_world sample_db_holds
      (Tracked.charged refl refl) refl
      (PeriodEnd.told (pos 9) refl refl (omega arith) (omega arith) refl) paused_is_not_tracked

abbrev subscribed_world : World
subscribed_world = (create_subscription sample_env 1 21 sample_world).1

abbrev new_subscription : Subscription
new_subscription = record acme_subscription { razorpay_subscription_id = "sub_9" }

acme_subscribes :
    create_subscription sample_env 1 21 sample_world
    ≡ (ok (new_subscription, "u"), subscribed_world)
unfolding create_subscription assign_subscription get put find constraints_hold tenants_hold
    api_keys_hold candidates_hold jobs_hold plans_hold subscriptions_hold match_results_hold
    distinct contains every
acme_subscribes = refl

create_subscription-Subscribed_example :
    Subscribed sample_env 1 21 sample_world (create_subscription sample_env 1 21 sample_world)
create_subscription-Subscribed_example =
    create_subscription-Subscribed sample_env 1 21 sample_world sample_db_holds

abbrev cancellation : WebhookEntity
cancellation = record { id = "sub_9"; current_end = none }

abbrev cancelled_db : Database
cancelled_db = record subscribed_world.db {
  subscriptions = put (after "cancelled" none new_subscription) subscribed_world.db.subscriptions;
}

handle_webhook_event-create_subscription_example :
    (plan : Plan) × (get 21 sample_db.plans ≡ some plan)
    × (let later : World = record subscribed_world { db = cancelled_db; saved = cancelled_db } in
        (handle_webhook_event "subscription.cancelled" (some cancellation) subscribed_world
          ≡ (ok tt, later))
        × (subscription_of 1 cancelled_db.subscriptions
            ≡ some (after "cancelled" none new_subscription))
        × (enforce_quota (at sample_env (pos 9)) 1 later
            ≡ (check_free_tier (at sample_env (pos 9)) cancelled_db 1, later)))
handle_webhook_event-create_subscription_example =
    handle_webhook_event-create_subscription sample_env 1 21 sample_world subscribed_world
      new_subscription "u" "subscription.cancelled" "cancelled" cancellation none (pos 9)
      sample_db_holds acme_subscribes (Tracked.cancelled refl refl) refl
      (PeriodEnd.not_charged (differs _ _ refl) refl)

-- the tables with an account of Google
abbrev google_tenant : Tenant
google_tenant = record acme { google_sub = some "g1" }

abbrev google_world : World
google_world = world_of (record sample_db { tenants = google_tenant ∷ [] })

-- the tables with a password account of the email that Google tells
abbrev taken_tenant : Tenant
taken_tenant = record acme { email = some "g@x.org" }

abbrev taken_world : World
taken_world = world_of (record sample_db { tenants = taken_tenant ∷ [] })

register_or_login_with_google-conflict_example :
    (register_or_login_with_google sample_env "g2" taken_world).0 ≡ raised integrity_error
unfolding find
register_or_login_with_google-conflict_example =
    register_or_login_with_google-conflict sample_env "g2" "g2" "g@x.org"
      (record { sub = some "g2"; email = some "g@x.org" }) taken_tenant taken_world refl refl refl
      refl refl refl (Memᴰ.head refl) refl
