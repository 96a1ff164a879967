-- ===== src/Repositories.antt =====
-- The database access layer: app/repositories/candidate_repository.py and job_repository.py.
pub mod Tenancy
use resume_screening_service.Common.{Option, List, ◌∷◌, ◌&&◌, find, select, ◌==◌, nat_eq}
use resume_screening_service.Common.Sort.{sort_desc}
use resume_screening_service.Models.{Uuid, Candidate, Job}
use resume_screening_service.Session.{Action, pure, query, update, flush, ◌>>◌}

unfoldable pub add_candidate : Candidate → Action Candidate
add_candidate candidate = do
  update (λ db. record db { candidates = candidate ∷ db.candidates })
  flush
  pure candidate

unfoldable pub get_candidate_by_id : Uuid → Uuid → Action (Option Candidate)
get_candidate_by_id tenant_id candidate_id =
    query (λ db.
      find (λ (c : Candidate). c.id == candidate_id && c.tenant_id == tenant_id) db.candidates)

unfoldable pub list_all_candidates : Uuid → Action (List Candidate)
list_all_candidates tenant_id = query (λ db.
    sort_desc (λ c. c.created_at)
      (select (λ (c : Candidate). c.tenant_id == tenant_id) db.candidates))

unfoldable pub add_job : Job → Action Job
add_job job = do update (λ db. record db { jobs = job ∷ db.jobs }); flush; pure job

unfoldable pub get_job_by_id : Uuid → Uuid → Action (Option Job)
get_job_by_id tenant_id job_id =
    query (λ db. find (λ (j : Job). j.id == job_id && j.tenant_id == tenant_id) db.jobs)

unfoldable pub list_all_jobs : Uuid → Action (List Job)
list_all_jobs tenant_id =
    query
      (λ db. sort_desc (λ j. j.created_at) (select (λ (j : Job). j.tenant_id == tenant_id) db.jobs))
