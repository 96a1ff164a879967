-- ===== src/System/Reads.antt =====
-- What the queries, the tests and the conversions of the routes leave of the tables of
-- app/models/db.py.
use resume_screening_service.Common.{String, Option, none, some, arith}
use resume_screening_service.Errors.{Exn, Result}
use resume_screening_service.Models.{Uuid}
use resume_screening_service.Services.{Env}
use resume_screening_service.Session.{Database, Action, raise, lift, query, or_raise, catch}
use resume_screening_service.Embeddings.Tables.{KeepsTables, keeps_rules}
use resume_screening_service.BillingGuard.{enforce_quota}
use resume_screening_service.Registration.{authenticate_with_password, check_login}
use resume_screening_service.Repositories.{
  get_job_by_id, get_candidate_by_id, list_all_candidates, list_all_jobs,
}
use resume_screening_service.Candidates.{get_candidate}
use resume_screening_service.Jobs.{get_job}

module _ {ℓ} {A : Type ℓ} where
  pub KeepsTables-raise : (e : Exn) → KeepsTables (raise {A = A} e)
  KeepsTables-raise e = record { same = λ w. ground arith }

  pub KeepsTables-lift : (r : Result A) → KeepsTables (lift r)
  KeepsTables-lift r = record { same = λ w. ground arith }

  pub KeepsTables-query : (f : Database → A) → KeepsTables (query f)
  KeepsTables-query f = record { same = λ w. ground arith }

  pub KeepsTables-or_raise : (o : Option A) (e : Exn) → KeepsTables (or_raise o e)
  KeepsTables-or_raise none e = record { same = λ w. ground arith }
  KeepsTables-or_raise (some a) e = record { same = λ w. ground arith }

  pub KeepsTables-catch :
      (m : Action A) (f : Exn → Exn) → KeepsTables m → KeepsTables (catch m (λ e. raise (f e)))
  KeepsTables-catch m f km = record { same = λ w. ground (arith, km.same w) }

pub ruleset read_rules = (
  keeps_rules, KeepsTables-raise, KeepsTables-lift, KeepsTables-query, KeepsTables-or_raise,
  KeepsTables-catch,
)

pub KeepsTables-get_candidate : (t id : Uuid) → KeepsTables (get_candidate t id)
unfolding get_candidate get_candidate_by_id
KeepsTables-get_candidate t id = search (read_rules) depth 9

pub KeepsTables-get_job : (t id : Uuid) → KeepsTables (get_job t id)
unfolding get_job get_job_by_id
KeepsTables-get_job t id = search (read_rules) depth 9

pub KeepsTables-list_all_candidates : (t : Uuid) → KeepsTables (list_all_candidates t)
unfolding list_all_candidates
KeepsTables-list_all_candidates t = search (read_rules) depth 9

pub KeepsTables-list_all_jobs : (t : Uuid) → KeepsTables (list_all_jobs t)
unfolding list_all_jobs
KeepsTables-list_all_jobs t = search (read_rules) depth 9

module _ (env : Env) where
  pub KeepsTables-enforce_quota : (t : Uuid) → KeepsTables (enforce_quota env t)
  unfolding enforce_quota
  KeepsTables-enforce_quota t = record { same = λ w. ground arith }

  pub KeepsTables-authenticate_with_password :
      (email password : String) → KeepsTables (authenticate_with_password env email password)
  unfolding authenticate_with_password check_login
  KeepsTables-authenticate_with_password email password = record { same = λ w. ground arith }
