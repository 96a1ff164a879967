-- ===== src/Routes.antt =====
-- The tenants' routes: app/routers/candidates.py, jobs.py, screening.py and billing.py. Each runs
-- in the session of its request, behind the dependency that resolves the tenant.
pub mod Closed
pub mod Quota
use resume_screening_service.Common.{String, Option, List, ⊤, not, option_is, option_or, string_eq}
use resume_screening_service.Common.Int.{ℤ}
use resume_screening_service.Errors.{
  Exn, http_exception, resource_not_found, vector_indexing, key_error, Result,
}
use resume_screening_service.Models.{Uuid, Candidate, Job}
use resume_screening_service.Schemas.{
  CandidateCreate, JobCreate, ScreeningRequest, ScreeningResponse, SubscribeResponse,
}
use resume_screening_service.Services.{Bytes, Env}
use resume_screening_service.Session.{
  Action, pure, raise, lift, catch, raise_if, or_raise, in_session, ◌>>=◌, ◌>>◌,
}
use resume_screening_service.Auth.{require_tenant}
use resume_screening_service.BillingGuard.{enforce_quota}
use resume_screening_service.Billing
use resume_screening_service.Billing.{WebhookEntity}
use resume_screening_service.Candidates
use resume_screening_service.Jobs
use resume_screening_service.Ranking.{rank_candidates_for_job}

-- The two headers that authenticate a request.
pub record Headers : Type 0 where
  pub authorization : Option String
  pub x_api_key : Option String

-- `except ResourceNotFoundError`
abbrev pub as_not_found : Exn → Exn
as_not_found (resource_not_found detail) = http_exception 404 detail
as_not_found e = e

-- `except VectorIndexingError`
abbrev pub as_bad_gateway : Exn → Exn
as_bad_gateway (vector_indexing detail) = http_exception 502 detail
as_bad_gateway e = e

abbrev pub only_pdf : Exn
only_pdf = http_exception 400 "Only PDF files are supported"

abbrev pub bad_signature : Exn
bad_signature = http_exception 400 "Invalid webhook signature."

-- What the webhook reads of the JSON that its body is: the event, and the entity if it can be
-- read. `none` for the event stands for a payload without one.
pub record WebhookPayload : Type 0 where
  pub event : Option String
  pub entity : Option WebhookEntity

module _ (env : Env) where
  -- a route of a tenant
  abbrev pub as_tenant {ℓ} : {A : Type ℓ} → Headers → (Uuid → Action A) → Action A
  as_tenant h route =
      in_session (do tenant_id ← require_tenant env h.authorization h.x_api_key; route tenant_id)

  unfoldable pub create_candidate : Headers → CandidateCreate → Action Candidate
  create_candidate h payload =
      as_tenant h
        (λ t. catch (Candidates.create_candidate env t payload) (λ e. raise (as_bad_gateway e)))

  -- the body of the route, for the tenant that `enforce_quota` let through
  unfoldable pub upload_body : Option String → Bytes → Uuid → Action Candidate
  upload_body content_type file_bytes tenant_id = do
    raise_if (not (option_is content_type "application/pdf")) only_pdf
    Candidates.enqueue_resume_upload env tenant_id file_bytes

  unfoldable pub upload_resume : Headers → Option String → Bytes → Action Candidate
  unfolding upload_body
  upload_resume h content_type file_bytes =
      as_tenant h
        (λ t. do tenant_id ← enforce_quota env t; upload_body content_type file_bytes tenant_id)

  unfoldable pub list_candidates : Headers → Action (List Candidate)
  list_candidates h = as_tenant h Candidates.list_candidates

  unfoldable pub get_candidate : Headers → Uuid → Action Candidate
  get_candidate h candidate_id =
      as_tenant h
        (λ t. catch (Candidates.get_candidate t candidate_id) (λ e. raise (as_not_found e)))

  unfoldable pub create_job : Headers → JobCreate → Action Job
  create_job h payload =
      as_tenant h (λ t. catch (Jobs.create_job env t payload) (λ e. raise (as_bad_gateway e)))

  unfoldable pub list_jobs : Headers → Action (List Job)
  list_jobs h = as_tenant h Jobs.list_jobs

  unfoldable pub get_job : Headers → Uuid → Action Job
  get_job h job_id = as_tenant h (λ t. catch (Jobs.get_job t job_id) (λ e. raise (as_not_found e)))

  -- the body of both screening routes
  abbrev pub rank_body : Uuid → Option ℤ → Option ℤ → Uuid → Action ScreeningResponse
  rank_body job_id top_k top_n t = do
    job ← catch (Jobs.get_job t job_id) (λ e. raise (as_not_found e))
    rank_candidates_for_job env t job top_k top_n

  unfoldable pub rank_candidates : Headers → ScreeningRequest → Action ScreeningResponse
  rank_candidates h payload = as_tenant h (rank_body payload.job_id payload.top_k payload.top_n)

  unfoldable pub rank_candidates_by_id :
      Headers → Uuid → Option ℤ → Option ℤ → Action ScreeningResponse
  rank_candidates_by_id h job_id top_k top_n = as_tenant h (rank_body job_id top_k top_n)

  unfoldable pub subscribe : Headers → Uuid → Action SubscribeResponse
  subscribe h plan_id = as_tenant h (λ t. do
    (subscription, url) ←
        catch (Billing.create_subscription env t plan_id) (λ e. raise (as_not_found e))
    pure (record {
      subscription_id = subscription.id;
      status = subscription.status;
      checkout_url = url;
    }))

  -- `payload` is what `json.loads(raw_body)` gives, or its exception. A missing signature header
  -- is read as the empty text.
  unfoldable pub webhook : Bytes → Option String → Result WebhookPayload → Action ⊤
  webhook raw_body signature payload = in_session (do
    valid ← lift (Billing.verify_webhook_signature env raw_body (option_or signature ""))
    raise_if (not valid) bad_signature
    p ← lift payload
    event ← or_raise p.event key_error
    Billing.handle_webhook_event event p.entity)
