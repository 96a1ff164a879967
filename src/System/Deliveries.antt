-- ===== src/System/Deliveries.antt =====
-- The messages of app/worker.py beside the contract of the tables.
use resume_screening_service.Common.{String, List, refl}
use resume_screening_service.Errors.{
  Exn, resume_content, resume_parser_unavailable, vector_indexing,
}
use resume_screening_service.Models.{Uuid}
use resume_screening_service.Services.{Bytes, Env}
use resume_screening_service.Embeddings.Tables.{KeepsTables, KeepsTables-perform}
use resume_screening_service.Candidates.{process_pending_candidate}
use resume_screening_service.Worker.{
  Message, count, process_in_session, process_message, attempt, on_error, handle_message,
}
use resume_screening_service.System.Reads.{read_rules}
use resume_screening_service.System.Screening.{Moves-process_pending_candidate}
use resume_screening_service.System.Serves.{
  Serves, Serves-after_reads, Serves-then_reads, Serves-catch,
}
use resume_screening_service.System.Starts.{Starts, Starts-after_or_raise, Serves-in_session}

KeepsTables-count : (outcome : String) → KeepsTables (count outcome)
KeepsTables-count outcome = record { same = λ w. (refl, refl) }

module _ (env : Env) where
  Starts-process_pending_candidate :
      (t c : Uuid) (file_bytes : Bytes) → Starts env (process_pending_candidate env t c file_bytes)
  Starts-process_pending_candidate t c file_bytes = record {
    serves = record { moves = λ w h. (t, Moves-process_pending_candidate env t w h c file_bytes) };
  }

  Starts-process_in_session :
      (tenant_id candidate_id : String) (file_bytes : Bytes)
      → Starts env (process_in_session env tenant_id candidate_id file_bytes)
  Starts-process_in_session tenant_id candidate_id file_bytes =
      search (Starts-after_or_raise, Starts-process_pending_candidate) depth 9

  Serves-process_message : (body : List (String × String)) → Serves env (process_message env body)
  unfolding process_message
  Serves-process_message body =
      search
        (
          read_rules, KeepsTables-perform, Serves-after_reads, Serves-then_reads, Serves-in_session,
          Starts-process_in_session,
        )
        depth 20

  Serves-attempt : (m : Message) → Serves env (attempt env m)
  unfolding attempt
  Serves-attempt m =
      search
        (
          read_rules, KeepsTables-perform, KeepsTables-count, Serves-after_reads, Serves-then_reads,
          Serves-process_message,
        )
        depth 16

  KeepsTables-on_error : (m : Message) (e : Exn) → KeepsTables (on_error env m e)
  unfolding on_error
  KeepsTables-on_error m (resume_content _) =
      search (read_rules, KeepsTables-perform, KeepsTables-count) depth 9
  KeepsTables-on_error m (resume_parser_unavailable _) = search (KeepsTables-count)
  KeepsTables-on_error m (vector_indexing _) = search (KeepsTables-count)
  KeepsTables-on_error m _ = search (KeepsTables-count)

  pub Serves-handle_message : (m : Message) → Serves env (handle_message env m)
  unfolding handle_message
  Serves-handle_message m = search (Serves-catch, Serves-attempt, KeepsTables-on_error) depth 9
