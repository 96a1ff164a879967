-- ===== src/Responses.antt =====
-- The response models of app/models/schemas.py that are read from the attributes of a row
-- (`from_attributes`), and the answers of the routes that read (app/routers/admin.py, candidates.py
-- and jobs.py).
pub mod Secrets
use resume_screening_service.Common.{ℕ, String, Option, List, map}
use resume_screening_service.Common.Int.{ℤ}
use resume_screening_service.Errors.{Result, ok, raised}
use resume_screening_service.Models.{
  Uuid, Instant, Entry, Tenant, ApiKey, Candidate, CandidateStatus, Job, Plan, Subscription,
}
use resume_screening_service.Session.{Action, World}
use resume_screening_service.Admin
use resume_screening_service.Candidates
use resume_screening_service.Jobs

pub record CandidateResponse : Type 0 where
  pub id : Uuid
  pub full_name : Option String
  pub email : Option String
  pub phone : Option String
  pub summary : Option String
  pub skills : List String
  pub experience : List Entry
  pub education : List Entry
  pub status : CandidateStatus
  pub created_at : Instant

pub record JobResponse : Type 0 where
  pub id : Uuid
  pub title : String
  pub company : Option String
  pub description : String
  pub required_skills : List String
  pub preferred_skills : List String
  pub created_at : Instant

pub record TenantResponse : Type 0 where
  pub id : Uuid
  pub name : String
  pub email : Option String
  pub created_at : Instant

pub record ApiKeyResponse : Type 0 where
  pub id : Uuid
  pub tenant_id : Uuid
  pub key_prefix : String
  pub created_at : Instant
  pub revoked_at : Option Instant
  pub last_used_at : Option Instant

pub record PlanResponse : Type 0 where
  pub id : Uuid
  pub name : String
  pub price : ℤ
  pub currency : String
  pub monthly_resume_quota : Option ℤ
  pub duration_months : ℤ
  pub razorpay_plan_id : String

pub record AdminSubscriptionResponse : Type 0 where
  pub id : Uuid
  pub tenant_id : Uuid
  pub plan_id : Uuid
  pub status : String
  pub current_period_end : Option Instant

abbrev pub candidate_response : Candidate → CandidateResponse
candidate_response c = record {
  id = c.id;
  full_name = c.full_name;
  email = c.email;
  phone = c.phone;
  summary = c.summary;
  skills = c.skills;
  experience = c.experience;
  education = c.education;
  status = c.status;
  created_at = c.created_at;
}

abbrev pub job_response : Job → JobResponse
job_response j = record {
  id = j.id;
  title = j.title;
  company = j.company;
  description = j.description;
  required_skills = j.required_skills;
  preferred_skills = j.preferred_skills;
  created_at = j.created_at;
}

abbrev pub tenant_response : Tenant → TenantResponse
tenant_response t = record { id = t.id; name = t.name; email = t.email; created_at = t.created_at }

abbrev pub api_key_response : ApiKey → ApiKeyResponse
api_key_response k = record {
  id = k.id;
  tenant_id = k.tenant_id;
  key_prefix = k.key_prefix;
  created_at = k.created_at;
  revoked_at = k.revoked_at;
  last_used_at = k.last_used_at;
}

abbrev pub plan_response : Plan → PlanResponse
plan_response p = record {
  id = p.id;
  name = p.name;
  price = p.price;
  currency = p.currency;
  monthly_resume_quota = p.monthly_resume_quota;
  duration_months = p.duration_months;
  razorpay_plan_id = p.razorpay_plan_id;
}

abbrev pub subscription_response : Subscription → AdminSubscriptionResponse
subscription_response s = record {
  id = s.id;
  tenant_id = s.tenant_id;
  plan_id = s.plan_id;
  status = s.status;
  current_period_end = s.current_period_end;
}

-- `response_model=…`: what is sent of the result of a route
abbrev pub answer : {A B : Type 0} → (A → B) → Action A → World → Result B
answer f m w = elim (m w).0 [ ok a ↦ ok (f a) | raised e ↦ raised e ]

-- The answers of the routes that read. The dependencies have resolved the tenant `t` already.
pub data Reading : Type 0 where
  tenants : ℕ → ℕ → Reading
  tenant : Uuid → Reading
  api_keys : Uuid → Reading
  candidates : Uuid → Reading
  candidate : Uuid → Uuid → Reading
  jobs : Uuid → Reading
  job : Uuid → Uuid → Reading

pub data Answer : Type 0 where
  of_tenants : Result (List TenantResponse) → Answer
  of_tenant : Result TenantResponse → Answer
  of_api_keys : Result (List ApiKeyResponse) → Answer
  of_candidates : Result (List CandidateResponse) → Answer
  of_candidate : Result CandidateResponse → Answer
  of_jobs : Result (List JobResponse) → Answer
  of_job : Result JobResponse → Answer

unfoldable pub read : Reading → World → Answer
read (Reading.tenants limit offset) w =
    Answer.of_tenants (answer (map tenant_response) (Admin.list_tenants limit offset) w)
read (Reading.tenant id) w = Answer.of_tenant (answer tenant_response (Admin.get_tenant id) w)
read (Reading.api_keys id) w =
    Answer.of_api_keys (answer (map api_key_response) (Admin.list_api_keys id) w)
read (Reading.candidates t) w =
    Answer.of_candidates (answer (map candidate_response) (Candidates.list_candidates t) w)
read (Reading.candidate t id) w =
    Answer.of_candidate (answer candidate_response (Candidates.get_candidate t id) w)
read (Reading.jobs t) w = Answer.of_jobs (answer (map job_response) (Jobs.list_jobs t) w)
read (Reading.job t id) w = Answer.of_job (answer job_response (Jobs.get_job t id) w)
