-- ===== src/Worker/Delivers.antt =====
-- The message of an upload is handled to its end when no service fails (app/worker.py).
use resume_screening_service.Common.{
  String, ◌≡◌, refl, ap, ◌∙◌, true, some, List, ◌∷◌, ⊤, truthy, get,
}
use resume_screening_service.Errors.{Result, ok, raised}
use resume_screening_service.Models.{Candidate, processed, candidate_row}
use resume_screening_service.Services.{Call, Bytes, get_object, update_item, count_outcome, Env}
use resume_screening_service.Session.{World, Action, constraints_hold, perform, ◌>>=◌}
use resume_screening_service.Session.Runs.{bind_of_ok}
use resume_screening_service.ResumeParser.{extract_text_from_pdf}
use resume_screening_service.Ingestion.{resume_key, resume_uploaded}
use resume_screening_service.Worker.{
  Message, loads, field, count, delete, mark_status, process_message, attempt, on_error,
  handle_message,
}
use resume_screening_service.Worker.Process.{
  QueueLaws, status_of, called, fields, session_part, process_found_in_session,
}
use resume_screening_service.Worker.Settles.{deletion, Attempts, attempt-Attempts}
use resume_screening_service.Worker.Reliable.{IsReliable}
use resume_screening_service.Worker.Completes.{HasFreeVector, process_found-returns}

-- an action that returns nothing
returned : (o : Result ⊤ × World) → o.0 ≡ ok tt → o ≡ (ok tt, o.1)
returned o e = ap (λ (r : Result ⊤). (r, o.1)) e

module _ (env : Env) (reliable : IsReliable env) (laws : QueueLaws env) (c : Candidate) where
  performed : (call : Call) (w : World) → perform env call w ≡ (ok tt, called env laws c call w)
  performed call w = rw (perform, reliable.answers w.calls call) refl

  -- the file of the candidate, as the worker reads it
  abbrev pub file_of : World → Bytes
  file_of w = env.services.stored_object w.calls env.settings.s3_bucket_name (resume_key env c.id)

  -- What the message needs: consistent tables with the row, whose vector no other row has, and a
  -- file with text.
  pub record CanProcess (w : World) : Type 0 where
    pub consistent : constraints_hold w.saved ≡ true
    pub stored : get c.id w.saved.candidates ≡ some c
    pub free_vector : HasFreeVector env reliable c w.saved
    pub text : String
    pub readable : extract_text_from_pdf env (file_of w) ≡ ok text
    pub given : truthy text ≡ true

  process_message-returns :
      (w : World) → CanProcess w → (process_message env (fields env laws c) w).0 ≡ ok tt
  unfolding process_message field
  process_message-returns w can =
      let call = get_object env.settings.s3_bucket_name (resume_key env c.id) in
      let file_bytes = file_of w in
      let w1 = called env laws c call w in
      let w2 : World = record w1 { db = w1.saved } in
      let part = session_part env laws c file_bytes in
      let mark = mark_status env (env.show_uuid c.id) "ai-processed" in
      let done : (part w1).0 ≡ ok tt =
        ap (λ (o : Result ⊤ × World). o.0)
          (process_found_in_session env laws c file_bytes w2 can.stored)
        ∙ process_found-returns env reliable c file_bytes can.text w2 can.consistent can.stored
            can.free_vector can.readable can.given in
      ap (λ (o : Result ⊤ × World). o.0)
        (bind_of_ok (perform env call) (λ x. part >>= λ y. mark) w w1 tt (performed call w)
          ∙ bind_of_ok part (λ y. mark) w1 (part w1).1 tt (returned (part w1) done)
          ∙ performed
              (update_item env.settings.dynamodb_table_name (env.show_uuid c.id) "ai-processed")
              (part w1).1)

  attempt-returns :
      (m : Message) (w : World)
      → CanProcess w
      → m.body ≡ resume_uploaded env c.id c.tenant_id
      → (attempt env m w).0 ≡ ok tt
  unfolding attempt resume_uploaded
  attempt-returns m w can body =
      let d = fields env laws c in
      let rest : List (String × String) → Action ⊤ =
        λ x. process_message env x >>= λ y. (delete env m >>= λ z. count "success") in
      let o = process_message env d w in
      ap (λ (p : Result ⊤ × World). p.0)
        (bind_of_ok (λ v. (loads m.body, v)) rest w w d (ap (λ b. (loads b, w)) body)
          ∙ bind_of_ok (process_message env d) (λ y. (delete env m >>= λ z. count "success")) w o.1
              tt (returned o (process_message-returns w can))
          ∙ bind_of_ok (delete env m) (λ z. count "success") o.1
              (called env laws c (deletion env c m) o.1) tt (performed (deletion env c m) o.1))

  -- When no service fails, the message that an upload of a stored candidate sent is handled to its
  -- end, if its file has text and no other row has the id of its vector: the row is committed as
  -- processed, and then the message is deleted and counted as a success.
  pub handle_message-completes :
      (m : Message) (w : World)
      → CanProcess w
      → m.body ≡ resume_uploaded env c.id c.tenant_id
      → let (result, w') = handle_message env m w in
        (result ≡ ok tt)
        × (status_of c.id w'.saved ≡ some processed)
        × (earlier : List Call) × (w'.calls ≡ count_outcome "success" ∷ deletion env c m ∷ earlier)
  unfolding handle_message
  handle_message-completes m w can body =
      pick (attempt env m w) (attempt-returns m w can body)
        (attempt-Attempts env c m laws w can.consistent can.stored body)
    where
      pick :
          (o : Result ⊤ × World)
          → o.0 ≡ ok tt
          → Attempts env c m o
          → let (result, w') = elim o.0 as (λ _. Result ⊤ × World) [
            | ok x ↦ (ok x, o.1)
            | raised e ↦ on_error env m e o.1
          ] in
            (result ≡ ok tt)
            × (status_of c.id w'.saved ≡ some processed)
            × (earlier : List Call) × (w'.calls
                ≡ count_outcome "success" ∷ deletion env c m ∷ earlier)
      pick (ok _, w') e (status, earlier, calls) = (refl, status, earlier, calls)
      pick (raised x, w') e h = absurd (cc)
