-- ===== src/System/Screening.antt =====
-- The commits of app/services/candidate_service.py and job_service.py.
use resume_screening_service.Common.{
  String, ◌<>◌, ◌≡◌, ap, sym, subst, put, get-put_self, Option-cases, find, find-Memᴰ, find-holds,
  get_of_Memᴰ, eq_of_==, nat_eq, ◌==◌, ◌&&◌, arith, ◌∙◌, refl, true, some, ◌∷◌, inl, inr, get, ⊤,
  Bool-cases,
}
use resume_screening_service.Errors.{Result, ok, raised, resume_content}
use resume_screening_service.Models.{
  Uuid, Candidate, Job, pending, processing, processed, failed, candidate_row, job_row,
}
use resume_screening_service.Schemas.{CandidateCreate, JobCreate}
use resume_screening_service.Services.{Bytes, Env}
use resume_screening_service.Session.{World, Database, constraints_hold}
use resume_screening_service.Candidates.{
  create_candidate, enqueue_resume_upload, placeholder, process_found, process_pending_candidate,
}
use resume_screening_service.Candidates.Create
use resume_screening_service.Candidates.Create.{create_candidate-Created}
use resume_screening_service.Candidates.Enqueue.{
  Enqueued, enqueue_started, enqueue_refused, upload-Enqueued,
}
use resume_screening_service.Candidates.Process.{
  Processed, process_found-Processed, with_candidate_twice,
}
use resume_screening_service.Repositories.{get_candidate_by_id}
use resume_screening_service.Session.Laws.{distinct_candidates, constraints_hold-put_candidate}
use resume_screening_service.Candidates.Index.{with_candidate}
use resume_screening_service.Jobs.{create_job}
use resume_screening_service.Jobs.Create as JobCreation
use resume_screening_service.Jobs.Create.{create_job-Created}
use resume_screening_service.System.Moves.{
  Move, Moves, Turn, IsIndexed, HasOwnVector, Moves-of_same, Moves-of_one,
}
use resume_screening_service.Routes.Closed.{opened}
use resume_screening_service.System.Operations.{
  KeepsConsistent-create_candidate, KeepsConsistent-create_job, KeepsConsistent-process_found,
}

-- A row that is not processed needs neither a name nor a vector.
IsIndexed-of_unprocessed :
    {show : Uuid → String} {c : Candidate} → ¬ (c.status ≡ processed) → IsIndexed show c
IsIndexed-of_unprocessed n = record { vector = λ e. absurd (n e); named = λ e. absurd (n e) }

module _ (env : Env) (t : Uuid) (w : World) (h : constraints_hold w.saved ≡ true) where
  pub Moves-create_candidate :
      (payload : CandidateCreate)
      → Moves env.show_uuid t w.saved (create_candidate env t payload (opened w)).1.saved
  Moves-create_candidate payload =
      pick (create_candidate env t payload (opened w))
        (create_candidate-Created env t payload (opened w))
        ((KeepsConsistent-create_candidate env t payload).kept (opened w) h)
    where
      pick :
          (o : Result Candidate × World)
          → Create.Created env t payload (opened w) o
          → constraints_hold o.1.saved ≡ true
          → Moves env.show_uuid t w.saved o.1.saved
      pick (raised e, w') (_, _, same) kept = Moves-of_same env.show_uuid t w.saved w'.saved same
      pick (ok c, w') (is_row, db, saved) kept =
          Moves-of_one env.show_uuid t w.saved w'.saved
            (Move.candidate_added c (ap (λ x. x.tenant_id) is_row) (inr (ap (λ x. x.status) is_row))
              (record {
                vector = λ _.
                    ap (λ x. x.pinecone_id) is_row
                    ∙ ap (λ i. some ("candidate-" <> env.show_uuid i))
                        (sym (ap (λ x. x.id) is_row));
                named = λ _. (payload.full_name, ap (λ x. x.full_name) is_row);
              })
              (inr (
                ap (λ x. x.pinecone_id) is_row
                ∙ ap (λ i. some ("candidate-" <> env.show_uuid i)) (sym (ap (λ x. x.id) is_row))))
              (saved ∙ db))
            kept

  pub Moves-create_job :
      (payload : JobCreate)
      → Moves env.show_uuid t w.saved (create_job env t payload (opened w)).1.saved
  Moves-create_job payload =
      pick (create_job env t payload (opened w)) (create_job-Created env t payload (opened w))
        ((KeepsConsistent-create_job env t payload).kept (opened w) h)
    where
      pick :
          (o : Result Job × World)
          → JobCreation.Created env t payload (opened w) o
          → constraints_hold o.1.saved ≡ true
          → Moves env.show_uuid t w.saved o.1.saved
      pick (raised e, w') (_, _, same) kept = Moves-of_same env.show_uuid t w.saved w'.saved same
      pick (ok j, w') (is_row, db, saved) kept =
          Moves-of_one env.show_uuid t w.saved w'.saved
            (Move.job_added j (ap (λ x. x.tenant_id) is_row)
              (ap (λ x. x.pinecone_id) is_row
                ∙ ap (λ i. some ("job-" <> env.show_uuid i)) (sym (ap (λ x. x.id) is_row)))
              (saved ∙ db))
            kept

  -- the pending row, however the upload ends
  Moves-of_Enqueued :
      (file_bytes : Bytes) (o : Result Candidate × World)
      → let c = placeholder env (env.uuid4 w.draws) t in
        constraints_hold (record w.saved { candidates = c ∷ w.saved.candidates }) ≡ true
        → Enqueued env c file_bytes (opened w) o
        → Moves env.show_uuid t w.saved o.1.saved
  Moves-of_Enqueued file_bytes o kept done =
      let c = placeholder env (env.uuid4 w.draws) t in
      let db : Database = record w.saved { candidates = c ∷ w.saved.candidates } in
      let added : Moves env.show_uuid t w.saved db =
        Moves-of_one env.show_uuid t w.saved db
          (Move.candidate_added c refl (inl refl)
            (IsIndexed-of_unprocessed (λ (e : pending ≡ processed). cc)) (inl refl) refl)
          kept in
      pick o done added
    where
      pick :
          (o' : Result Candidate × World)
          → Enqueued env (placeholder env (env.uuid4 w.draws) t) file_bytes (opened w) o'
          → Moves env.show_uuid t w.saved (record w.saved {
            candidates = placeholder env (env.uuid4 w.draws) t ∷ w.saved.candidates;
          })
          → Moves env.show_uuid t w.saved o'.1.saved
      pick (ok x, w') (_, saved, _) m = subst (Moves env.show_uuid t w.saved) (sym saved) m
      pick (raised e, w') saved m = subst (Moves env.show_uuid t w.saved) (sym saved) m

  pub Moves-enqueue_resume_upload :
      (file_bytes : Bytes)
      → Moves env.show_uuid t w.saved (enqueue_resume_upload env t file_bytes (opened w)).1.saved
  Moves-enqueue_resume_upload file_bytes =
      let c = placeholder env (env.uuid4 w.draws) t in
      let db : Database = record w.saved { candidates = c ∷ w.saved.candidates } in
      elim (Bool-cases (constraints_hold db)) [
        | inl kept ↦
            subst (λ o. Moves env.show_uuid t w.saved o.1.saved)
              (sym (enqueue_started env t file_bytes (opened w) kept))
              (Moves-of_Enqueued file_bytes _ kept (upload-Enqueued env c file_bytes (opened w)))
        | inr broken ↦
            Moves-of_same env.show_uuid t w.saved _
              (ap (λ o. o.1.saved) (enqueue_refused env t file_bytes (opened w) broken))
      ]

  -- a row that is being processed, and its end
  Moves-started :
      (c : Candidate)
      → get c.id w.saved.candidates ≡ some c
      → c.tenant_id ≡ t
      → Moves env.show_uuid t w.saved (with_candidate (record c { status = processing }) w.saved)
  Moves-started c found own =
      let started = record c { status = processing } in
      Moves-of_one env.show_uuid t w.saved (with_candidate started w.saved)
        (Move.candidate_changed started c found own own refl Turn.start
          (IsIndexed-of_unprocessed (λ (e : processing ≡ processed). cc)) (λ v. v) refl)
        (constraints_hold-put_candidate w.saved started c h found refl refl)

  Moves-ended :
      (c done : Candidate) (db : Database)
      → get c.id w.saved.candidates ≡ some c
      → c.tenant_id ≡ t
      → done.id ≡ c.id
      → done.tenant_id ≡ c.tenant_id
      → done.created_at ≡ c.created_at
      → Turn processing done.status
      → IsIndexed env.show_uuid done
      → (HasOwnVector env.show_uuid c → HasOwnVector env.show_uuid done)
      → db ≡ with_candidate done w.saved
      → constraints_hold db ≡ true
      → Moves env.show_uuid t w.saved db
  Moves-ended c done db found own id tenant created turn indexed named saved kept =
      let started = record c { status = processing } in
      let there = get-put_self ⦃r = candidate_row⦄ started c w.saved.candidates found in
      Moves.next (Moves-started c found own)
        (Move.candidate_changed done started
          (ap (λ i. get i (put started w.saved.candidates)) id ∙ there) own (tenant ∙ own) created
          turn indexed named (saved ∙ sym (with_candidate_twice env done started w.saved id)))
        kept

  pub Moves-process_found :
      (c : Candidate) (file_bytes : Bytes)
      → get c.id w.saved.candidates ≡ some c
      → c.tenant_id ≡ t
      → Moves env.show_uuid t w.saved (process_found env t c file_bytes (opened w)).1.saved
  Moves-process_found c file_bytes found own =
      pick (process_found env t c file_bytes (opened w))
        (process_found-Processed env t c file_bytes (opened w) h found)
        ((KeepsConsistent-process_found env t c file_bytes).kept (opened w) h)
    where
      pick :
          (o : Result ⊤ × World)
          → Processed env c file_bytes w.saved o
          → constraints_hold o.1.saved ≡ true
          → Moves env.show_uuid t w.saved o.1.saved
      pick (ok _, w') (done, f, e) kept =
          let vector : done.pinecone_id ≡ some ("candidate-" <> env.show_uuid done.id) =
            f.vector ∙ ap (λ i. some ("candidate-" <> env.show_uuid i)) (sym f.id) in
          Moves-ended c done w'.saved found own f.id f.tenant f.created
            (subst (Turn processing) (sym f.status) Turn.finish)
            (record { vector = λ _. vector; named = λ _. (f.parsed.full_name, f.full_name) })
            (λ _. inr vector) e kept
      pick (raised (resume_content _), w') e kept =
          Moves-ended c (record c { status = failed }) w'.saved found own refl refl refl Turn.fail
            (IsIndexed-of_unprocessed (λ (e : failed ≡ processed). cc)) (λ v. v) e kept
      pick (raised x, w') e kept =
          subst (Moves env.show_uuid t w.saved) (sym e) (Moves-started c found own)

  pub Moves-process_pending_candidate :
      (candidate_id : Uuid) (file_bytes : Bytes)
      → Moves env.show_uuid t w.saved
          (process_pending_candidate env t candidate_id file_bytes (opened w)).1.saved
  unfolding process_pending_candidate get_candidate_by_id
  Moves-process_pending_candidate candidate_id file_bytes =
      let wanted = λ (c : Candidate). c.id == candidate_id && c.tenant_id == t in
      elim (Option-cases (find wanted w.saved.candidates)) [
        | inl missing ↦ rw missing Moves.here
        | inr (c, found) ↦
            let stored = find-Memᴰ wanted w.saved.candidates c found in
            let matched = find-holds wanted w.saved.candidates c found in
            let by_id =
              get_of_Memᴰ ⦃r = candidate_row⦄ c w.saved.candidates (distinct_candidates w.saved h)
                stored in
            let own : c.tenant_id ≡ t = ground (arith, eq_of_== ⦃e = nat_eq⦄ c.tenant_id t) in
            rw found (Moves-process_found c file_bytes by_id own)
      ]
