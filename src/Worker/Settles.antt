-- ===== src/Worker/Settles.antt =====
-- `run` of app/worker.py on the message of an upload: the message beside the status of the row.
use resume_screening_service.Common.{
  String, ◌≡◌, ◌⊎◌, inl, inr, refl, sym, ap, subst, ◌∷◌, List, true, false, some, ⊤, get,
}
use resume_screening_service.Errors.{
  Exn, resume_content, resume_parser_unavailable, vector_indexing, Result, ok, raised,
}
use resume_screening_service.Models.{Candidate, processed, failed, candidate_row}
use resume_screening_service.Services.{Call, delete_message, count_outcome, Env}
use resume_screening_service.Session.{World, Action, constraints_hold, ◌>>=◌}
use resume_screening_service.Session.Runs.{bind_of_ok}
use resume_screening_service.Ingestion.{resume_uploaded}
use resume_screening_service.Worker.{
  Message, loads, count, delete, process_message, attempt, on_error, handle_message,
}
use resume_screening_service.Worker.Process.{
  is_content, QueueLaws, status_of, Handles, fields, perform_then, process_message-Handles,
}

module _ (env : Env) (c : Candidate) (m : Message) where
  abbrev pub deletion : Call
  deletion = delete_message env.settings.sqs_queue_url m.receipt_handle

  -- How the handling of the message ends, with the committed status of the row and the last calls.
  pub data Settles : Result ⊤ × World → Type 0 where
    -- the row is processed, and the message is deleted
    done :
        {w : World} (earlier : List Call)
        → status_of c.id w.saved ≡ some processed
        → w.calls ≡ count_outcome "success" ∷ deletion ∷ earlier
        → Settles (ok tt, w)
    -- the file is bad, the row is failed, and the message is deleted
    dropped :
        {w : World} (earlier : List Call)
        → status_of c.id w.saved ≡ some failed
        → w.calls ≡ count_outcome "content_error" ∷ deletion ∷ earlier
        → Settles (ok tt, w)
    -- anything else is counted as an error, and the worker goes on
    retried :
        {w : World} (outcome : String) (earlier : List Call)
        → (outcome ≡ "transient_error") ⊎ (outcome ≡ "unexpected_error")
        → w.calls ≡ count_outcome outcome ∷ earlier
        → Settles (ok tt, w)
    -- the file is bad, the row is failed, and the deletion of the message raises
    stopped :
        {w : World} {e : Exn} (earlier : List Call)
        → status_of c.id w.saved ≡ some failed
        → w.calls ≡ deletion ∷ earlier
        → Settles (raised e, w)

  -- what the `try` leaves
  abbrev pub Attempts : Result ⊤ × World → Type 0
  Attempts (ok _, w) =
      (status_of c.id w.saved ≡ some processed)
      × (earlier : List Call) × (w.calls ≡ count_outcome "success" ∷ deletion ∷ earlier)
  Attempts (raised (resume_content _), w) = status_of c.id w.saved ≡ some failed
  Attempts (raised _, w) = ⊤

  Attempts-of_foreign : (e : Exn) (w : World) → is_content e ≡ false → Attempts (raised e, w)
  Attempts-of_foreign (resume_content _) w h = absurd (cc)
  Attempts-of_foreign _ w h = tt

  Attempts-of_raised :
      (e : Exn) (w : World) → Handles {A = ⊤} c.id (raised e, w) → Attempts (raised e, w)
  Attempts-of_raised (resume_content _) w h = h
  Attempts-of_raised _ w h = tt

  pub attempt-Attempts :
      (laws : QueueLaws env) (w : World)
      → constraints_hold w.saved ≡ true
      → get c.id w.saved.candidates ≡ some c
      → m.body ≡ resume_uploaded env c.id c.tenant_id
      → Attempts (attempt env m w)
  unfolding attempt resume_uploaded
  attempt-Attempts laws w h found body =
      let rest : List (String × String) → Action ⊤ =
        λ d. process_message env d >>= λ x. (delete env m >>= λ y. count "success") in
      subst Attempts
        (sym (
          bind_of_ok (λ v. (loads m.body, v)) rest w w (fields env laws c)
            (ap (λ b. (loads b, w)) body)))
        (pick (process_message env (fields env laws c) w)
          (process_message-Handles env laws c w h found))
    where
      pick :
          (o : Result ⊤ × World)
          → Handles c.id o
          → Attempts (elim o.0 as (λ _. Result ⊤ × World) [
            | ok x ↦ (delete env m >>= λ y. count "success") o.1
            | raised e ↦ (raised e, o.1)
          ])
      pick (ok x, w1) status =
          perform_then env laws c Attempts deletion (count "success") w1
            (λ e foreign. Attempts-of_foreign e _ foreign) (status, w1.calls, refl)
      pick (raised e, w1) status = Attempts-of_raised e w1 status

  -- the `except` branches
  on_error-Settles :
      (laws : QueueLaws env) (e : Exn) (w : World)
      → Attempts (raised e, w)
      → Settles (on_error env m e w)
  unfolding on_error
  on_error-Settles laws (resume_content _) w status =
      perform_then env laws c Settles deletion (count "content_error") w
        (λ e foreign. Settles.stopped w.calls status refl) (Settles.dropped w.calls status refl)
  on_error-Settles laws (resume_parser_unavailable _) w status =
      Settles.retried "transient_error" w.calls (inl refl) refl
  on_error-Settles laws (vector_indexing _) w status =
      Settles.retried "transient_error" w.calls (inl refl) refl
  on_error-Settles laws _ w status = Settles.retried "unexpected_error" w.calls (inr refl) refl

  -- The message that an upload of a stored candidate sent, handled on consistent tables: it is
  -- deleted as a success only when the row is committed as processed, and as a content error only
  -- when the row is committed as failed; in every other case it is counted as an error, and
  -- the worker goes on. The worker stops only when, after a bad file, the deletion raises.
  pub handle_message-Settles :
      (laws : QueueLaws env) (w : World)
      → constraints_hold w.saved ≡ true
      → get c.id w.saved.candidates ≡ some c
      → m.body ≡ resume_uploaded env c.id c.tenant_id
      → Settles (handle_message env m w)
  unfolding handle_message
  handle_message-Settles laws w h found body =
      pick (attempt env m w) (attempt-Attempts laws w h found body)
    where
      pick :
          (o : Result ⊤ × World)
          → Attempts o
          → Settles (elim o.0 as (λ _. Result ⊤ × World) [
            | ok x ↦ (ok x, o.1)
            | raised e ↦ on_error env m e o.1
          ])
      pick (ok _, w1) (status, earlier, calls) = Settles.done earlier status calls
      pick (raised e, w1) status = on_error-Settles laws e w1 status
