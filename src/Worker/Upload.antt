-- ===== src/Worker/Upload.antt =====
-- `enqueue_resume_upload` of app/services/candidate_service.py, then `run` of app/worker.py.
use resume_screening_service.Common.{
  ◌≡◌, ◌∷◌, refl, sym, ap, subst, ◌∙◌, true, none, some, get, ==-refl, nat_eq, List,
}
use resume_screening_service.Errors.{ok}
use resume_screening_service.Models.{Uuid, Candidate, candidate_row, tenant_row}
use resume_screening_service.Services.{Bytes, Env}
use resume_screening_service.Session.{World, constraints_hold, refers}
use resume_screening_service.Session.Inserts.{constraints_hold-add_candidate}
use resume_screening_service.Ingestion.{resume_uploaded}
use resume_screening_service.Candidates.{placeholder, enqueue_resume_upload}
use resume_screening_service.Candidates.Enqueue.{Enqueued, enqueue_resume_upload-Enqueued}
use resume_screening_service.Worker.{Message, handle_message}
use resume_screening_service.Worker.Process.{QueueLaws}
use resume_screening_service.Worker.Settles.{Settles, handle_message-Settles}

get-head : (c : Candidate) (cs : List Candidate) → get c.id (c ∷ cs) ≡ some c
unfolding get
get-head c cs = rw (==-refl ⦃e = nat_eq⦄ c.id) refl

-- On consistent tables with the tenant, and for a new id: when an upload has returned a row, and
-- the worker, on the tables that the upload committed, handles a message with the body that the
-- upload sent, the message settles for that row: it is deleted as a success only with the row
-- committed as processed, and as a content error only with the row committed as failed; in every
-- other case it is counted as an error, and the worker goes on, or the worker stops because the
-- deletion after a bad file raises.
pub handle_message-enqueue_resume_upload :
    (env : Env) (laws : QueueLaws env) (tenant_id : Uuid) (file_bytes : Bytes) (w w' worker : World)
    (c : Candidate) (m : Message)
    → constraints_hold w.db ≡ true
    → get (env.uuid4 w.draws) w.db.candidates ≡ none
    → refers w.db.tenants tenant_id ≡ true
    → enqueue_resume_upload env tenant_id file_bytes w ≡ (ok c, w')
    → worker.saved ≡ w'.saved
    → m.body ≡ resume_uploaded env c.id tenant_id
    → Settles env c m (handle_message env m worker)
handle_message-enqueue_resume_upload env laws tenant_id file_bytes w w' worker c m h fresh owned run
      same body =
    let row = placeholder env (env.uuid4 w.draws) tenant_id in
    let (is_row, saved, sent) =
      subst (Enqueued env row file_bytes w) run
        (enqueue_resume_upload-Enqueued env tenant_id file_bytes w h fresh owned) in
    let stored = same ∙ saved in
    let kept = constraints_hold-add_candidate w.db row h fresh owned refl in
    let consistent = ap constraints_hold stored ∙ kept in
    let there : get row.id worker.saved.candidates ≡ some row =
      ap (λ db. get row.id db.candidates) stored ∙ get-head row w.db.candidates in
    subst (λ x. Settles env x m (handle_message env m worker)) (sym is_row)
      (handle_message-Settles env row m laws worker consistent there
        (body ∙ ap (λ x. resume_uploaded env x.id tenant_id) is_row))
