-- ===== src/System/Operations.antt =====
-- The operations of app/services, app/auth.py and app/routers/admin.py beside the constraints.
use resume_screening_service.Common.{String, Option, none, some, arith}
use resume_screening_service.Errors.{Exn}
use resume_screening_service.Models.{Uuid, Candidate}
use resume_screening_service.Schemas.{CandidateCreate, JobCreate, PlanCreate}
use resume_screening_service.Services.{Call, Env, Bytes, RazorpayResponse}
use resume_screening_service.Session.{perform, draw, new_id}
use resume_screening_service.Embeddings.Tables.{
  KeepsTables-upsert_candidate, KeepsTables-upsert_job, KeepsTables-parse_resume_pdf,
  KeepsTables-upload,
}
use resume_screening_service.Repositories.{add_candidate, add_job}
use resume_screening_service.Auth.{require_raw_key, require_api_key, require_bearer, require_tenant}
use resume_screening_service.Registration.{
  register_with_password, check_login, authenticate_with_password, find_or_add_google,
  register_or_login_with_google,
}
use resume_screening_service.Billing.{
  assign_subscription, create_subscription, apply_event, handle_webhook_event, WebhookEntity,
}
use resume_screening_service.Admin
use resume_screening_service.Candidates.{
  index_and_commit, index_candidate, create_candidate, enqueue_resume_upload, parse_failed,
  store_parsed, parse_and_store, process_found,
}
use resume_screening_service.Jobs.{add_and_index, create_job}
use resume_screening_service.System.Consistent.{
  KeepsConsistent, KeepsConsistent-of_tables, KeepsConsistent-gets, consistent_rules,
}

module _ (env : Env) where
  KeepsConsistent-perform : (c : Call) → KeepsConsistent (perform env c)
  KeepsConsistent-perform c = record { kept = λ w h. ground arith }

  KeepsConsistent-new_id : KeepsConsistent (new_id env)
  KeepsConsistent-new_id = record { kept = λ w h. h }

  KeepsConsistent-draw : KeepsConsistent (draw env)
  KeepsConsistent-draw = record { kept = λ w h. h }

  ruleset calls = (KeepsConsistent-perform, KeepsConsistent-new_id, KeepsConsistent-draw)

  KeepsConsistent-add_candidate : (c : Candidate) → KeepsConsistent (add_candidate c)
  unfolding add_candidate
  KeepsConsistent-add_candidate c = search (consistent_rules) depth 9

  KeepsConsistent-index_candidate :
      (t : Uuid) (c : Candidate) → KeepsConsistent (index_candidate env t c)
  unfolding index_candidate index_and_commit
  KeepsConsistent-index_candidate t c =
      search (consistent_rules, KeepsConsistent-of_tables, KeepsTables-upsert_candidate) depth 9

  pub KeepsConsistent-create_candidate :
      (t : Uuid) (payload : CandidateCreate) → KeepsConsistent (create_candidate env t payload)
  unfolding create_candidate
  KeepsConsistent-create_candidate t payload =
      search
        (consistent_rules, calls, KeepsConsistent-add_candidate, KeepsConsistent-index_candidate)
        depth 9

  KeepsConsistent-require_raw_key : (k : String) → KeepsConsistent (require_raw_key env k)
  unfolding require_raw_key
  KeepsConsistent-require_raw_key k = search (consistent_rules) depth 9

  pub KeepsConsistent-require_tenant :
      (a x : Option String) → KeepsConsistent (require_tenant env a x)
  unfolding require_tenant require_api_key require_bearer
  KeepsConsistent-require_tenant (some a) x = search (consistent_rules) depth 9
  KeepsConsistent-require_tenant none none = search (consistent_rules) depth 9
  KeepsConsistent-require_tenant none (some k) =
      search (consistent_rules, KeepsConsistent-require_raw_key) depth 9

  pub KeepsConsistent-register_with_password :
      (e p : String) → KeepsConsistent (register_with_password env e p)
  unfolding register_with_password
  KeepsConsistent-register_with_password e p = search (consistent_rules, calls) depth 16

  pub KeepsConsistent-authenticate_with_password :
      (e p : String) → KeepsConsistent (authenticate_with_password env e p)
  unfolding authenticate_with_password check_login
  KeepsConsistent-authenticate_with_password e p = record { kept = λ w h. ground arith }

  KeepsConsistent-find_or_add_google : (s e : String) → KeepsConsistent (find_or_add_google env s e)
  unfolding find_or_add_google
  KeepsConsistent-find_or_add_google s e = record { kept = λ w h. ground arith }

  pub KeepsConsistent-register_or_login_with_google :
      (token : String) → KeepsConsistent (register_or_login_with_google env token)
  unfolding register_or_login_with_google
  KeepsConsistent-register_or_login_with_google token =
      search (consistent_rules, KeepsConsistent-find_or_add_google) depth 9

  KeepsConsistent-assign_subscription :
      (t p : Uuid) (r : RazorpayResponse) → KeepsConsistent (assign_subscription env t p r)
  unfolding assign_subscription
  KeepsConsistent-assign_subscription t p r = record { kept = λ w h. ground arith }

  pub KeepsConsistent-create_subscription :
      (t p : Uuid) → KeepsConsistent (create_subscription env t p)
  unfolding create_subscription
  KeepsConsistent-create_subscription t p =
      search (consistent_rules, calls, KeepsConsistent-gets, KeepsConsistent-assign_subscription)
        depth 12

  pub KeepsConsistent-enqueue_resume_upload :
      (t : Uuid) (b : Bytes) → KeepsConsistent (enqueue_resume_upload env t b)
  unfolding enqueue_resume_upload
  KeepsConsistent-enqueue_resume_upload t b =
      search
        (
          consistent_rules, calls, KeepsConsistent-add_candidate, KeepsConsistent-of_tables,
          KeepsTables-upload,
        )
        depth 12

  KeepsConsistent-parse_failed : (c : Candidate) (e : Exn) → KeepsConsistent (parse_failed env c e)
  unfolding parse_failed
  KeepsConsistent-parse_failed c e = search (consistent_rules) depth 9

  KeepsConsistent-parse_and_store :
      (t : Uuid) (c : Candidate) (b : Bytes) → KeepsConsistent (parse_and_store env t c b)
  unfolding parse_and_store store_parsed
  KeepsConsistent-parse_and_store t c b =
      search
        (
          consistent_rules, KeepsConsistent-parse_failed, KeepsConsistent-index_candidate,
          KeepsConsistent-of_tables, KeepsTables-parse_resume_pdf,
        )
        depth 12

  pub KeepsConsistent-process_found :
      (t : Uuid) (c : Candidate) (b : Bytes) → KeepsConsistent (process_found env t c b)
  unfolding process_found
  KeepsConsistent-process_found t c b =
      search (consistent_rules, KeepsConsistent-parse_and_store) depth 12

  pub KeepsConsistent-create_job :
      (t : Uuid) (payload : JobCreate) → KeepsConsistent (create_job env t payload)
  unfolding create_job add_and_index add_job
  KeepsConsistent-create_job t payload =
      search (consistent_rules, calls, KeepsConsistent-of_tables, KeepsTables-upsert_job) depth 16

  pub KeepsConsistent-create_tenant :
      (name : String) → KeepsConsistent (Admin.create_tenant env name)
  unfolding Admin.create_tenant
  KeepsConsistent-create_tenant name = search (consistent_rules, calls) depth 12

  pub KeepsConsistent-create_api_key : (t : Uuid) → KeepsConsistent (Admin.create_api_key env t)
  unfolding Admin.create_api_key
  KeepsConsistent-create_api_key t = search (consistent_rules, calls) depth 16

  pub KeepsConsistent-revoke_api_key : (k : Uuid) → KeepsConsistent (Admin.revoke_api_key env k)
  unfolding Admin.revoke_api_key
  KeepsConsistent-revoke_api_key k = search (consistent_rules) depth 12

  pub KeepsConsistent-create_plan : (p : PlanCreate) → KeepsConsistent (Admin.create_plan env p)
  unfolding Admin.create_plan
  KeepsConsistent-create_plan p = search (consistent_rules, calls) depth 12

pub KeepsConsistent-handle_webhook_event :
    (event : String) (entity : Option WebhookEntity)
    → KeepsConsistent (handle_webhook_event event entity)
unfolding handle_webhook_event apply_event
KeepsConsistent-handle_webhook_event event entity = record { kept = λ w h. ground arith }
