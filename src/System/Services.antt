-- ===== src/System/Services.antt =====
-- The bodies of the routes of a tenant (app/routers) beside the contract of the tables.
use resume_screening_service.Common.{
  ap, String, Option, none, some, ◌≡◌, inl, inr, sym, subst, refl, find, find-Memᴰ, find-holds,
  Option-cases, eq_of_==, ◌==◌, ◌&&◌, nat_eq, arith,
}
use resume_screening_service.Common.Int.{ℤ}
use resume_screening_service.Errors.{Result, ok, raised}
use resume_screening_service.Models.{Uuid, Candidate, Job}
use resume_screening_service.Schemas.{CandidateCreate, JobCreate}
use resume_screening_service.Services.{Bytes, Env}
use resume_screening_service.Session.{World, Action, catch, raise, ◌>>=◌}
use resume_screening_service.Candidates
use resume_screening_service.Jobs
use resume_screening_service.Jobs.{get_job, job_not_found}
use resume_screening_service.Session.Runs.{bind_of_ok, bind_of_raised}
use resume_screening_service.Ranking.{rank_candidates_for_job}
use resume_screening_service.Repositories.{get_job_by_id}
use resume_screening_service.Routes.{rank_body, upload_body, as_not_found}
use resume_screening_service.BillingGuard.{enforce_quota, check_free_tier, check_plan, check_quota}
use resume_screening_service.System.Moves.{Moves, Moves-of_same}
use resume_screening_service.System.Behaves.{
  IsClean, Behaves, Behaves-of_opened, Behaves-after_reads,
}
use resume_screening_service.System.Reads.{read_rules}
use resume_screening_service.Routes.Closed.{opened}
use resume_screening_service.System.Screening.{
  Moves-create_candidate, Moves-create_job, Moves-enqueue_resume_upload,
}
use resume_screening_service.System.Billed.{Moves-rank_candidates_for_job}

module _ (env : Env) (t : Uuid) where
  pub Behaves-create_candidate :
      (p : CandidateCreate) → Behaves env t (Candidates.create_candidate env t p)
  Behaves-create_candidate p =
      Behaves-of_opened env t (Candidates.create_candidate env t p)
        (λ w h. Moves-create_candidate env t w h p)

  pub Behaves-create_job : (p : JobCreate) → Behaves env t (Jobs.create_job env t p)
  Behaves-create_job p =
      Behaves-of_opened env t (Jobs.create_job env t p) (λ w h. Moves-create_job env t w h p)

  Behaves-upload_body :
      (content_type : Option String) (file_bytes : Bytes)
      → Behaves env t (upload_body env content_type file_bytes t)
  unfolding upload_body
  Behaves-upload_body content_type file_bytes =
      search
        (
          read_rules,
          Behaves-after_reads,
          (Behaves-of_opened env t (Candidates.enqueue_resume_upload env t file_bytes)
              (λ w h. Moves-enqueue_resume_upload env t w h file_bytes)),
        )
        depth 9

  -- The gate lets through only the tenant that it is asked about.
  enforce_quota-returns : (u : Uuid) (w : World) → (enforce_quota env t w).0 ≡ ok u → u ≡ t
  unfolding enforce_quota check_free_tier check_plan check_quota
  enforce_quota-returns u w h = ground arith

  pub Behaves-upload :
      (content_type : Option String) (file_bytes : Bytes)
      → Behaves env t (enforce_quota env t >>= λ u. upload_body env content_type file_bytes u)
  unfolding enforce_quota
  Behaves-upload content_type file_bytes = record {
    moves = λ w c. pick w c (enforce_quota env t w).0 refl;
  }
    where
      pick :
          (w : World)
          → IsClean w
          → (r : Result Uuid) → (enforce_quota env t w).0 ≡ r
          → Moves env.show_uuid t w.saved
              (elim r as (λ _. Result Candidate × World) [
                | ok u ↦ upload_body env content_type file_bytes u w
                | raised e ↦ (raised e, w)
              ]).1.saved
      pick w c (ok u) e =
          subst
            (λ x.
              Moves env.show_uuid t w.saved (upload_body env content_type file_bytes x w).1.saved)
            (sym (enforce_quota-returns u w e))
            ((Behaves-upload_body content_type file_bytes).moves w c)
      pick w c (raised e) same = Moves.here

  -- the first line of a screening
  abbrev wanted_job : Uuid → Action Job
  wanted_job job_id = catch (get_job t job_id) (λ e. raise (as_not_found e))

  wanted_job-found :
      (job_id : Uuid) (w : World) (job : Job)
      → find (λ (j : Job). j.id == job_id && j.tenant_id == t) w.db.jobs ≡ some job
      → wanted_job job_id w ≡ (ok job, w)
  unfolding get_job get_job_by_id
  wanted_job-found job_id w job found = ground arith

  wanted_job-missing :
      (job_id : Uuid) (w : World)
      → find (λ (j : Job). j.id == job_id && j.tenant_id == t) w.db.jobs ≡ none
      → wanted_job job_id w ≡ (raised (as_not_found job_not_found), w)
  unfolding get_job get_job_by_id
  wanted_job-missing job_id w missing = ground arith

  -- The job that is ranked is a row of the tenant.
  pub Behaves-rank_body :
      (job_id : Uuid) (top_k top_n : Option ℤ) → Behaves env t (rank_body env job_id top_k top_n t)
  Behaves-rank_body job_id top_k top_n =
      let wanted = λ (j : Job). j.id == job_id && j.tenant_id == t in
      let rank = λ (job : Job). rank_candidates_for_job env t job top_k top_n in
      Behaves-of_opened env t (rank_body env job_id top_k top_n t) (λ w h.
        elim (Option-cases (find wanted w.saved.jobs)) [
          | inl missing ↦ Moves-of_same env.show_uuid t w.saved _ (
              ap (λ o. o.1.saved)
                (bind_of_raised (wanted_job job_id) rank (opened w) (opened w)
                  (as_not_found job_not_found) (wanted_job-missing job_id (opened w) missing)))
          | inr (job, found) ↦
              let matched = find-holds wanted w.saved.jobs job found in
              let own : job.tenant_id ≡ t = eq_of_== ⦃e = nat_eq⦄ job.tenant_id t (ground arith) in
              subst (λ o. Moves env.show_uuid t w.saved o.1.saved)
                (sym (
                  bind_of_ok (wanted_job job_id) rank (opened w) (opened w) job
                    (wanted_job-found job_id (opened w) job found)))
                (Moves-rank_candidates_for_job env t w job top_k top_n
                  (find-Memᴰ wanted w.saved.jobs job found) own)
        ])
