-- ===== src/Jobs.antt =====
-- Jobs: app/services/job_service.py.
pub mod Create
use resume_screening_service.Common.{none, some, List, [], ◌∷◌, put, option_or}
use resume_screening_service.Errors.{Exn, resource_not_found, vector_indexing}
use resume_screening_service.Models.{Uuid, Job, job_row}
use resume_screening_service.Schemas.{JobCreate}
use resume_screening_service.Services.{Env}
use resume_screening_service.Session.{
  Action, pure, raise, catch, or_raise, update, commit, rollback, new_id, ◌>>=◌, ◌>>◌,
}
use resume_screening_service.Repositories.{add_job, get_job_by_id, list_all_jobs}
use resume_screening_service.Embeddings.{upsert_job}
use resume_screening_service.EmbedText.{build_job_embed_text}

abbrev pub job_not_found : Exn
job_not_found = resource_not_found "Job not found"

abbrev pub not_indexed : Exn
not_indexed = vector_indexing "Job could not be indexed. Check Ollama and Pinecone configuration."

module _ (env : Env) where
  open env use {now, show_uuid}

  -- the body of the `try`; the id is drawn when the row is flushed
  unfoldable pub add_and_index : Uuid → JobCreate → Action Job
  add_and_index tenant_id payload = do
    id ← new_id env
    job ← add_job (record {
      id = id;
      tenant_id = tenant_id;
      title = payload.title;
      company = payload.company;
      description = payload.description;
      required_skills = payload.required_skills;
      preferred_skills = payload.preferred_skills;
      pinecone_id = none;
      created_at = now;
    })
    vector_id ←
        upsert_job env (show_uuid job.id) (build_job_embed_text job)
          (("title", job.title) ∷ ("company", option_or job.company "") ∷ []) (show_uuid tenant_id)
    let indexed = record job { pinecone_id = some vector_id }
    update (λ db. record db { jobs = put indexed db.jobs })
    commit
    pure indexed

  unfoldable pub create_job : Uuid → JobCreate → Action Job
  unfolding add_and_index
  create_job tenant_id payload =
      catch (add_and_index tenant_id payload) (λ e. do rollback; raise not_indexed)

abbrev pub list_jobs : Uuid → Action (List Job)
list_jobs = list_all_jobs

unfoldable pub get_job : Uuid → Uuid → Action Job
get_job tenant_id job_id = do or_raise (← get_job_by_id tenant_id job_id) job_not_found
