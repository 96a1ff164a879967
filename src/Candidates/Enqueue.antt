-- ===== src/Candidates/Enqueue.antt =====
-- `enqueue_resume_upload` of app/services/candidate_service.py: the row, the object and the
-- message.
use resume_screening_service.Common.{
  ◌≡◌, ◌∷◌, suc, sym, subst, ◌∙◌, refl, ap, Bool-cases, inl, inr, false, true, none, arith, get,
}
use resume_screening_service.Errors.{integrity_error, Result, ok, raised}
use resume_screening_service.Models.{Uuid, Candidate, candidate_row, tenant_row}
use resume_screening_service.Services.{Bytes, put_object, send_message, Env}
use resume_screening_service.Session.{
  World, Database, constraints_hold, refers, Action, pure, flush, commit, ◌>>=◌,
}
use resume_screening_service.Session.Runs.{
  bind_of_ok, commit_of_kept, flush_of_kept, bind_of_raised, flush_of_broken,
}
use resume_screening_service.Session.Inserts.{constraints_hold-add_candidate}
use resume_screening_service.Repositories.{add_candidate}
use resume_screening_service.Ingestion.{resume_key, resume_uploaded, upload_resume_and_enqueue}
use resume_screening_service.Candidates.{placeholder, enqueue_resume_upload}

module _ (env : Env) where
  -- The pending row `c` is committed in front of the others, however the upload ends. If it
  -- returns, it returns the row, after the object and then the message with its id were sent.
  abbrev pub Enqueued : Candidate → Bytes → World → Result Candidate × World → Type 0
  Enqueued c file_bytes w (ok c', w') =
      (c' ≡ c)
      × (w'.saved ≡ record w.db { candidates = c ∷ w.db.candidates })
      × (w'.calls
          ≡ send_message env.settings.sqs_queue_url (resume_uploaded env c.id c.tenant_id)
            ∷ put_object env.settings.s3_bucket_name (resume_key env c.id) file_bytes
            ∷ w.calls)
  Enqueued c file_bytes w (raised e, w') =
      w'.saved ≡ record w.db { candidates = c ∷ w.db.candidates }

  -- the world with the row committed
  abbrev pub with_row : Candidate → World → World
  with_row c w =
      let db = record w.db { candidates = c ∷ w.db.candidates } in
      record w { db = db; saved = db; draws = suc w.draws }

  pub enqueue_started :
      (tenant_id : Uuid) (file_bytes : Bytes) (w : World)
      → let c = placeholder env (env.uuid4 w.draws) tenant_id in
        constraints_hold (record w.db { candidates = c ∷ w.db.candidates }) ≡ true
        → enqueue_resume_upload env tenant_id file_bytes w
          ≡ (upload_resume_and_enqueue env c.id tenant_id file_bytes >>= λ done. pure c)
              (with_row c w)
  unfolding enqueue_resume_upload add_candidate
  enqueue_started tenant_id file_bytes w kept =
      let c = placeholder env (env.uuid4 w.draws) tenant_id in
      let db : Database = record w.db { candidates = c ∷ w.db.candidates } in
      let drawn : World = record w { db = db; draws = suc w.draws } in
      let upload = upload_resume_and_enqueue env c.id tenant_id file_bytes >>= λ done. pure c in
      bind_of_ok (flush >>= λ done. pure c)
        (λ x. commit >>= λ done.
          upload_resume_and_enqueue env x.id tenant_id file_bytes >>= λ sent. pure x)
        drawn drawn c (bind_of_ok flush (λ done. pure c) drawn drawn tt (flush_of_kept drawn kept))
      ∙ bind_of_ok commit (λ done. upload) drawn (with_row c w) tt (commit_of_kept drawn kept)

  pub upload-Enqueued :
      (c : Candidate) (file_bytes : Bytes) (w : World)
      → Enqueued c file_bytes w (
          (upload_resume_and_enqueue env c.id c.tenant_id file_bytes >>= λ done. pure c)
            (with_row c w))
  unfolding upload_resume_and_enqueue
  upload-Enqueued c file_bytes w = ground arith

  -- On consistent tables with the tenant, and for a new id, the pending row is committed before
  -- the object and the message are sent, so that it stays also if one of these fails; and the
  -- message that an upload leaves names the row that it returns.
  pub enqueue_resume_upload-Enqueued :
      (tenant_id : Uuid) (file_bytes : Bytes) (w : World)
      → constraints_hold w.db ≡ true
      → get (env.uuid4 w.draws) w.db.candidates ≡ none
      → refers w.db.tenants tenant_id ≡ true
      → Enqueued
          (placeholder env (env.uuid4 w.draws) tenant_id)
          file_bytes
          w
          (enqueue_resume_upload env tenant_id file_bytes w)
  enqueue_resume_upload-Enqueued tenant_id file_bytes w h fresh owned =
      let c = placeholder env (env.uuid4 w.draws) tenant_id in
      let kept = constraints_hold-add_candidate w.db c h fresh owned refl in
      subst (Enqueued c file_bytes w) (sym (enqueue_started tenant_id file_bytes w kept))
        (upload-Enqueued c file_bytes w)

  pub enqueue_refused :
      (tenant_id : Uuid) (file_bytes : Bytes) (w : World)
      → let c = placeholder env (env.uuid4 w.draws) tenant_id in
        constraints_hold (with_row c w).db ≡ false
        → enqueue_resume_upload env tenant_id file_bytes w
          ≡ (raised integrity_error, record (with_row c w) { db = w.saved; saved = w.saved })
  unfolding enqueue_resume_upload add_candidate
  enqueue_refused tenant_id file_bytes w broken =
      let c = placeholder env (env.uuid4 w.draws) tenant_id in
      let db : Database = record w.db { candidates = c ∷ w.db.candidates } in
      let drawn : World = record w { db = db; draws = suc w.draws } in
      let back : World = record drawn { db = w.saved } in
      let rest : Candidate → Action Candidate = λ x. commit >>= λ done.
      upload_resume_and_enqueue env x.id tenant_id file_bytes >>= λ sent. pure x in
      bind_of_raised (flush >>= λ done. pure c) rest drawn back integrity_error (
        bind_of_raised flush (λ done. pure c) drawn back integrity_error
          (flush_of_broken drawn broken))

  -- The row that an upload returns, on any tables, is the pending row of the tenant,
  -- and is committed in front of the others.
  pub enqueue_resume_upload-returns :
      (tenant_id : Uuid) (file_bytes : Bytes) (w w' : World) (c : Candidate)
      → enqueue_resume_upload env tenant_id file_bytes w ≡ (ok c, w')
      → (c ≡ placeholder env (env.uuid4 w.draws) tenant_id)
        × (w'.saved ≡ record w.db { candidates = c ∷ w.db.candidates })
  enqueue_resume_upload-returns tenant_id file_bytes w w' c h =
      let row = placeholder env (env.uuid4 w.draws) tenant_id in
      elim (Bool-cases (constraints_hold (with_row row w).db)) [
        | inl kept ↦
            let (is_row, saved, sent) =
              subst (Enqueued row file_bytes w)
                (sym (enqueue_started tenant_id file_bytes w kept) ∙ h)
                (upload-Enqueued row file_bytes w) in
            (
              is_row,
              saved ∙ ap (λ x. record w.db { candidates = x ∷ w.db.candidates }) (sym is_row),
            )
        | inr broken ↦
            absurd
              (cc (ap (λ o. o.0) (enqueue_refused tenant_id file_bytes w broken), ap (λ o. o.0) h))
      ]
