-- ===== src/Jobs/Create.antt =====
-- `create_job` of app/services/job_service.py, by outcome.
use resume_screening_service.Common.{
  String, ◌<>◌, ◌≡◌, ◌∷◌, List, [], refl, sym, subst, true, false, some, none, suc, arith, inl, inr,
  option_or, put, Bool-cases,
}
use resume_screening_service.Errors.{integrity_error, Result, ok, raised, Result-cases}
use resume_screening_service.Models.{Uuid, Job, job_row}
use resume_screening_service.Schemas.{JobCreate}
use resume_screening_service.Services.{Env}
use resume_screening_service.Session.{
  World, constraints_hold, catch, raise, rollback, ◌>>◌, commit, flush, Action, pure, update, ◌>>=◌,
}
use resume_screening_service.Session.Runs.{
  bind_of_ok, bind_of_raised, flush_of_kept, flush_of_broken,
}
use resume_screening_service.Repositories.{add_job}
use resume_screening_service.Embeddings.{upsert_job}
use resume_screening_service.Embeddings.Tables.{KeepsTables-upsert_job}
use resume_screening_service.EmbedText.{build_job_embed_text}
use resume_screening_service.Jobs.{add_and_index, create_job, not_indexed}

module _ (env : Env) where
  -- the row of a job, by its id
  abbrev pub row_of : Uuid → JobCreate → Uuid → Job
  row_of t payload id = record {
    id = id;
    tenant_id = t;
    title = payload.title;
    company = payload.company;
    description = payload.description;
    required_skills = payload.required_skills;
    preferred_skills = payload.preferred_skills;
    pinecone_id = none;
    created_at = env.now;
  }

  -- What a creation leaves, by how it ends: the job with the id of its vector is committed in
  -- front of the others, or the session is back at what was committed.
  abbrev pub Created : Uuid → JobCreate → World → Result Job × World → Type 0
  Created t payload w (ok job, w') =
      (job ≡ record (row_of t payload (env.uuid4 w.draws)) {
        pinecone_id = some ("job-" <> env.show_uuid (env.uuid4 w.draws));
      })
      × (w'.db ≡ record w.db { jobs = job ∷ w.db.jobs })
      × (w'.saved ≡ w'.db)
  Created t payload w (raised e, w') = (e ≡ not_indexed) × (w'.db ≡ w.saved) × (w'.saved ≡ w.saved)

  upsert_job-returns :
      (id text : String) (metadata : List (String × String)) (namespace : String) (w : World)
      (v : String)
      → (upsert_job env id text metadata namespace w).0 ≡ ok v
      → v ≡ "job-" <> id
  unfolding upsert_job
  upsert_job-returns id text metadata namespace w v h = ground arith

  -- the end of the `try`
  abbrev close : Job → String → Action Job
  close job v =
      let indexed = record job { pinecone_id = some v } in
      update (λ db. record db { jobs = put indexed db.jobs }) >>= λ x. commit >>= λ y. pure indexed

  -- the world with the row in the session
  abbrev with_job : Job → World → World
  with_job row w = record w { db = record w.db { jobs = row ∷ w.db.jobs }; draws = suc w.draws }

  abbrev index_job : Uuid → Job → Action Job
  index_job t row =
      upsert_job env (env.show_uuid row.id) (build_job_embed_text row)
        (("title", row.title) ∷ ("company", option_or row.company "") ∷ []) (env.show_uuid t)
      >>= close row

  add_and_index_started :
      (t : Uuid) (payload : JobCreate) (w : World)
      → let row = row_of t payload (env.uuid4 w.draws) in
        constraints_hold (with_job row w).db ≡ true
        → add_and_index env t payload w ≡ index_job t row (with_job row w)
  unfolding add_and_index add_job
  add_and_index_started t payload w kept =
      let row = row_of t payload (env.uuid4 w.draws) in
      let w1 = with_job row w in
      bind_of_ok (flush >>= λ done. pure row) (index_job t) w1 w1 row
        (bind_of_ok flush (λ done. pure row) w1 w1 tt (flush_of_kept w1 kept))

  add_and_index_refused :
      (t : Uuid) (payload : JobCreate) (w : World)
      → let row = row_of t payload (env.uuid4 w.draws) in
        constraints_hold (with_job row w).db ≡ false
        → add_and_index env t payload w
          ≡ (raised integrity_error, record (with_job row w) { db = w.saved })
  unfolding add_and_index add_job
  add_and_index_refused t payload w broken =
      let row = row_of t payload (env.uuid4 w.draws) in
      let w1 = with_job row w in
      let w2 = record w1 { db = w.saved } in
      bind_of_raised (flush >>= λ done. pure row) (index_job t) w1 w2 integrity_error
        (bind_of_raised flush (λ done. pure row) w1 w2 integrity_error (flush_of_broken w1 broken))

  -- the `except` of `create_job`
  abbrev undo : Result Job × World → Result Job × World
  undo o = catch (λ w. o) (λ e. rollback >> raise not_indexed) o.1

  index_job-Created :
      (t : Uuid) (payload : JobCreate) (w : World)
      → let row = row_of t payload (env.uuid4 w.draws) in
        Created t payload w (undo (index_job t row (with_job row w)))
  unfolding put
  index_job-Created t payload w =
      let id = env.uuid4 w.draws in
      let row = row_of t payload id in
      let w1 = with_job row w in
      let text = build_job_embed_text row in
      let metadata = ("title", row.title) ∷ ("company", option_or row.company "") ∷ [] in
      let vector_id = env.show_uuid id in
      let namespace = env.show_uuid t in
      let kept = (KeepsTables-upsert_job env vector_id text metadata namespace).same w1 in
      elim (Result-cases (upsert_job env vector_id text metadata namespace w1).0) [
        | inr (e, failure) ↦ ground arith
        | inl (v, done) ↦
            let named = upsert_job-returns vector_id text metadata namespace w1 v done in
            ground arith
      ]

  -- A creation that returns has committed the job in front of the others, with the id of its
  -- vector; one that raises, whatever failed, raises a VectorIndexingError, and leaves the session
  -- at what was committed before.
  pub create_job-Created :
      (t : Uuid) (payload : JobCreate) (w : World)
      → Created t payload w (create_job env t payload w)
  unfolding create_job
  create_job-Created t payload w =
      let row = row_of t payload (env.uuid4 w.draws) in
      elim (Bool-cases (constraints_hold (with_job row w).db)) [
        | inl held ↦
            subst (λ o. Created t payload w (undo o)) (sym (add_and_index_started t payload w held))
              (index_job-Created t payload w)
        | inr broken ↦
            subst (λ o. Created t payload w (undo o))
              (sym (add_and_index_refused t payload w broken)) (refl, refl, refl)
      ]
