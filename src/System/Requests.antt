-- ===== src/System/Requests.antt =====
-- The routes of app/routers/candidates.py, jobs.py, screening.py and billing.py beside the
-- contract of the tables.
use resume_screening_service.Common.{String, Option, ◌≡◌, sym, subst, refl, true, ⊤, nat_eq}
use resume_screening_service.Common.Int.{ℤ}
use resume_screening_service.Errors.{Result, ok, raised}
use resume_screening_service.Models.{Uuid}
use resume_screening_service.Schemas.{CandidateCreate, JobCreate, ScreeningRequest}
use resume_screening_service.Services.{Bytes, Env}
use resume_screening_service.Session.{World, Action, constraints_hold}
use resume_screening_service.Routes
use resume_screening_service.Routes.{
  Headers, rank_body, upload_body, as_tenant, as_not_found, as_bad_gateway,
}
use resume_screening_service.System.{TenantRequest, forget, tenant_route}
use resume_screening_service.System.Behaves.{
  Behaves, Behaves-of_reads, Behaves-after_reads, Behaves-then_reads, Behaves-catch,
}
use resume_screening_service.System.Reads.{
  read_rules, KeepsTables-get_candidate, KeepsTables-get_job, KeepsTables-list_all_candidates,
  KeepsTables-list_all_jobs,
}
use resume_screening_service.System.Billed.{Behaves-create_subscription}
use resume_screening_service.System.Tenants.{ActsFor, as_tenant-ActsFor}
use resume_screening_service.System.Services.{
  Behaves-create_candidate, Behaves-create_job, Behaves-upload, Behaves-rank_body,
}

pub forget-world {ℓ} : {A : Type ℓ} (m : Action A) (w : World) → (forget m w).1 ≡ (m w).1
forget-world {A} m w = pick (m w)
  where
    pick :
        (o : Result A × World)
        → (elim o.0 as (λ _. Result ⊤ × World) [
          | ok a ↦ (ok tt, o.1)
          | raised e ↦ (raised e, o.1)
        ]).1
          ≡ o.1
    pick (ok a, w') = refl
    pick (raised e, w') = refl

module _ (env : Env) where
  -- `m` commits rows of the tenant that the headers are authenticated as, or nothing.
  record Acts {ℓ} {A : Type ℓ} (h : Headers) (m : Action A) : Type 0 where
    acts : (w : World) → constraints_hold w.saved ≡ true → ActsFor env h w (m w).1

  Acts-as_tenant {ℓ} :
      {A : Type ℓ} (h : Headers) (m : Uuid → Action A)
      → ((t : Uuid) → Behaves env t (m t))
      → Acts h (as_tenant env h m)
  Acts-as_tenant h m km = record { acts = as_tenant-ActsFor env h m km }

  Acts-forget {ℓ} : {A : Type ℓ} (h : Headers) (m : Action A) → Acts h m → Acts h (forget m)
  Acts-forget h m km = record {
    acts = λ w held. subst (ActsFor env h w) (sym (forget-world m w)) (km.acts w held);
  }

  ruleset services = (
    read_rules, Behaves-catch, Behaves-of_reads, Behaves-after_reads, Behaves-then_reads,
    Behaves-create_candidate, Behaves-create_job, Behaves-create_subscription,
    KeepsTables-get_candidate, KeepsTables-get_job, KeepsTables-list_all_candidates,
    KeepsTables-list_all_jobs,
  )

  Acts-create_candidate :
      (h : Headers) (p : CandidateCreate) → Acts h (Routes.create_candidate env h p)
  unfolding Routes.create_candidate
  Acts-create_candidate h p = search (services, Acts-as_tenant) depth 12

  Acts-upload_resume :
      (h : Headers) (content_type : Option String) (file_bytes : Bytes)
      → Acts h (Routes.upload_resume env h content_type file_bytes)
  unfolding Routes.upload_resume
  Acts-upload_resume h content_type file_bytes = search (Behaves-upload, Acts-as_tenant) depth 12

  Acts-list_candidates : (h : Headers) → Acts h (Routes.list_candidates env h)
  unfolding Routes.list_candidates
  Acts-list_candidates h = search (services, Acts-as_tenant) depth 12

  Acts-get_candidate : (h : Headers) (id : Uuid) → Acts h (Routes.get_candidate env h id)
  unfolding Routes.get_candidate
  Acts-get_candidate h id = search (services, Acts-as_tenant) depth 12

  Acts-create_job : (h : Headers) (p : JobCreate) → Acts h (Routes.create_job env h p)
  unfolding Routes.create_job
  Acts-create_job h p = search (services, Acts-as_tenant) depth 12

  Acts-list_jobs : (h : Headers) → Acts h (Routes.list_jobs env h)
  unfolding Routes.list_jobs
  Acts-list_jobs h = search (services, Acts-as_tenant) depth 12

  Acts-get_job : (h : Headers) (id : Uuid) → Acts h (Routes.get_job env h id)
  unfolding Routes.get_job
  Acts-get_job h id = search (services, Acts-as_tenant) depth 12

  Acts-rank_candidates :
      (h : Headers) (p : ScreeningRequest) → Acts h (Routes.rank_candidates env h p)
  unfolding Routes.rank_candidates
  Acts-rank_candidates h p =
      Acts-as_tenant h _ (λ t. Behaves-rank_body env t p.job_id p.top_k p.top_n)

  Acts-rank_candidates_by_id :
      (h : Headers) (id : Uuid) (top_k top_n : Option ℤ)
      → Acts h (Routes.rank_candidates_by_id env h id top_k top_n)
  unfolding Routes.rank_candidates_by_id
  Acts-rank_candidates_by_id h id top_k top_n =
      Acts-as_tenant h _ (λ t. Behaves-rank_body env t id top_k top_n)

  Acts-subscribe : (h : Headers) (plan_id : Uuid) → Acts h (Routes.subscribe env h plan_id)
  unfolding Routes.subscribe
  Acts-subscribe h plan_id = search (services, Acts-as_tenant) depth 12

  Acts-tenant_route : (h : Headers) (x : TenantRequest) → Acts h (tenant_route env h x)
  unfolding tenant_route
  Acts-tenant_route h (TenantRequest.create_candidate p) =
      Acts-forget h _ (Acts-create_candidate h p)
  Acts-tenant_route h (TenantRequest.upload_resume c b) = Acts-forget h _ (Acts-upload_resume h c b)
  Acts-tenant_route h TenantRequest.list_candidates = Acts-forget h _ (Acts-list_candidates h)
  Acts-tenant_route h (TenantRequest.get_candidate id) = Acts-forget h _ (Acts-get_candidate h id)
  Acts-tenant_route h (TenantRequest.create_job p) = Acts-forget h _ (Acts-create_job h p)
  Acts-tenant_route h TenantRequest.list_jobs = Acts-forget h _ (Acts-list_jobs h)
  Acts-tenant_route h (TenantRequest.get_job id) = Acts-forget h _ (Acts-get_job h id)
  Acts-tenant_route h (TenantRequest.rank_candidates p) = Acts-forget h _ (Acts-rank_candidates h p)
  Acts-tenant_route h (TenantRequest.rank_candidates_by_id id k n) =
      Acts-forget h _ (Acts-rank_candidates_by_id h id k n)
  Acts-tenant_route h (TenantRequest.subscribe id) = Acts-forget h _ (Acts-subscribe h id)

  -- A request of a tenant commits rows of the tenant that it is authenticated as, or nothing.
  pub tenant_route-ActsFor :
      (h : Headers) (r : TenantRequest) (w : World)
      → constraints_hold w.saved ≡ true
      → ActsFor env h w (tenant_route env h r w).1
  tenant_route-ActsFor h r = (Acts-tenant_route h r).acts
