-- ===== src/Tests/Requests.antt =====
-- The theorems on the routes, at the sample server.
use resume_screening_service.Common.{
  String, true, ◌≡◌, ◌≢◌, ◌≤◌, ◌∷◌, [], refl, none, some, get, put, find, select, distinct,
  contains, every,
}
use resume_screening_service.Errors.{Result, ok, raised}
use resume_screening_service.Models.{Instant, Candidate, Subscription, pending, plan_row}
use resume_screening_service.Session.{
  World, constraints_hold, tenants_hold, api_keys_hold, candidates_hold, jobs_hold, plans_hold,
  subscriptions_hold, match_results_hold,
}
use resume_screening_service.Repositories.{add_candidate}
use resume_screening_service.Auth.{require_tenant, require_api_key, require_raw_key}
use resume_screening_service.Billing.{
  count_candidates_this_period, current_period_start, count_all_time_candidates,
  verify_webhook_signature,
}
use resume_screening_service.BillingGuard.{enforce_quota, check_free_tier, check_plan, check_quota}
use resume_screening_service.Ingestion.{upload_resume_and_enqueue}
use resume_screening_service.Candidates.{placeholder, enqueue_resume_upload}
use resume_screening_service.Routes.{Headers, WebhookPayload, upload_body, upload_resume, webhook}
use resume_screening_service.Routes.Closed.{
  opened, upload_resume-guarded, upload_resume-free_tier, webhook-rejects,
}
use resume_screening_service.Responses.{Reading, read}
use resume_screening_service.Responses.Secrets.{scrubbed, read-scrubbed}
use resume_screening_service.Tests.Sample.{
  sample_env, sample_db, sample_world, world_of, ada, acme_subscription, monthly,
}
use resume_screening_service.Routes.Quota.{upload_resume-quota}
use resume_screening_service.Common.Int.{pos, leb_ℤ, ◌*ℤ◌, ◌-ℤ◌}
use resume_screening_service.Clock.{days, earlier}

abbrev pdf : String
pdf = "application/pdf"

abbrev payload : Result WebhookPayload
payload = ok (record { event = some "subscription.charged"; entity = none })

webhook-rejects_example :
    ((webhook sample_env (1 ∷ []) (some "wrong") payload sample_world).0 ≢ ok tt)
    × ((webhook sample_env (1 ∷ []) (some "wrong") payload sample_world).1.saved ≡ sample_db)
    × ((webhook sample_env (1 ∷ []) (some "wrong") payload sample_world).1.calls ≡ [])
unfolding verify_webhook_signature
webhook-rejects_example =
    webhook-rejects sample_env (1 ∷ []) (some "wrong") payload sample_world (λ h. absurd (cc))

-- the tables with one candidate, so that the free tier allows one more
abbrev roomy_world : World
roomy_world = world_of (record sample_db { candidates = ada ∷ [] })

abbrev acme_headers : Headers
acme_headers = record { authorization = none; x_api_key = some "key" }

abbrev uploaded_world : World
uploaded_world =
    (upload_resume sample_env acme_headers (some "application/pdf") (37 ∷ []) roomy_world).1

abbrev new_row : Candidate
new_row = placeholder sample_env 100 1

upload_is_accepted :
    upload_resume sample_env acme_headers (some "application/pdf") (37 ∷ []) roomy_world
    ≡ (ok new_row, uploaded_world)
unfolding upload_resume upload_body require_tenant require_api_key require_raw_key enforce_quota
    check_free_tier count_all_time_candidates enqueue_resume_upload add_candidate
    upload_resume_and_enqueue find get put select constraints_hold tenants_hold api_keys_hold
    candidates_hold jobs_hold plans_hold subscriptions_hold match_results_hold distinct contains
    every
upload_is_accepted = refl

-- the world after the authentication of the upload
abbrev authenticated : World
authenticated = (require_tenant sample_env none (some "key") (opened roomy_world)).1

upload_resume-guarded_example :
    ((require_tenant sample_env none (some "key") (opened roomy_world)).0 ≡ ok 1)
    × ((enforce_quota sample_env 1 authenticated).0 ≡ ok 1)
    × (some pdf ≡ some "application/pdf")
    × (new_row.status ≡ pending)
upload_resume-guarded_example =
    upload_resume-guarded sample_env acme_headers (some "application/pdf") (37 ∷ []) roomy_world
      uploaded_world new_row upload_is_accepted

upload_resume-free_tier_example : count_all_time_candidates uploaded_world.saved.candidates 1 ≤ 2
unfolding require_tenant require_api_key require_raw_key find put get constraints_hold tenants_hold
    api_keys_hold candidates_hold jobs_hold plans_hold subscriptions_hold match_results_hold
    distinct contains every
upload_resume-free_tier_example =
    upload_resume-free_tier sample_env acme_headers (some "application/pdf") (37 ∷ []) roomy_world
      uploaded_world new_row upload_is_accepted refl

read-scrubbed_example :
    read (Reading.api_keys 1) (record sample_world { db = scrubbed sample_db })
    ≡ read (Reading.api_keys 1) sample_world
read-scrubbed_example = read-scrubbed (Reading.api_keys 1) sample_world

-- the tables with a paid subscription
abbrev paid : Subscription
paid = record acme_subscription { status = "active" }

abbrev paid_world : World
paid_world = world_of (record sample_db { subscriptions = paid ∷ [] })

abbrev paid_upload_world : World
paid_upload_world =
    (upload_resume sample_env acme_headers (some "application/pdf") (37 ∷ []) paid_world).1

abbrev period : Instant
period = elim (current_period_start sample_env paid monthly) [ ok start ↦ start | raised e ↦ pos 0 ]

paid_upload_is_accepted :
    upload_resume sample_env acme_headers (some "application/pdf") (37 ∷ []) paid_world
    ≡ (ok new_row, paid_upload_world)
unfolding upload_resume upload_body require_tenant require_api_key require_raw_key enforce_quota
    check_plan check_quota current_period_start count_candidates_this_period enqueue_resume_upload
    add_candidate upload_resume_and_enqueue find get put select constraints_hold tenants_hold
    api_keys_hold candidates_hold jobs_hold plans_hold subscriptions_hold match_results_hold
    distinct contains every days ◌*ℤ◌ earlier ◌-ℤ◌
paid_upload_is_accepted = refl

period_is_known : current_period_start sample_env paid monthly ≡ ok period
unfolding current_period_start days ◌*ℤ◌ earlier ◌-ℤ◌
period_is_known = refl

upload_resume-quota_example :
    leb_ℤ (pos (count_candidates_this_period paid_upload_world.saved.candidates 1 period)) (pos 50)
    ≡ true
unfolding require_tenant require_api_key require_raw_key find put get constraints_hold tenants_hold
    api_keys_hold candidates_hold jobs_hold plans_hold subscriptions_hold match_results_hold
    distinct contains every
upload_resume-quota_example =
    upload_resume-quota sample_env acme_headers (some "application/pdf") (37 ∷ []) paid_world
      paid_upload_world new_row paid monthly (pos 50) period paid_upload_is_accepted refl refl refl
      period_is_known
