-- ===== src/Worker.antt =====
-- The consumer of the queue: app/worker.py.
pub mod Process
pub mod Settles
pub mod Upload
pub mod Batches
pub mod Reliable
pub mod Completes
pub mod Delivers
use resume_screening_service.Common.{
  String, Option, none, some, List, [], ◌∷◌, ⊤, not, truthy, ◌==◌, string_eq, if◌then◌else◌,
}
use resume_screening_service.Errors.{
  Exn, json_error, key_error, runtime_error, resume_content, resume_parser_unavailable,
  vector_indexing, Result, ok, raised,
}
use resume_screening_service.Services.{
  Bytes, MessageBody, malformed, object, get_object, delete_message, update_item, count_outcome,
  Env,
}
use resume_screening_service.Session.{
  Action, pure, raise_if, gets, catch, or_raise, perform, in_session, ◌>>=◌, ◌>>◌,
}
use resume_screening_service.Ranking.{bad_uuid}
use resume_screening_service.Candidates.{process_pending_candidate}

-- An item of `response["Messages"]`.
pub record Message : Type 0 where
  pub receipt_handle : String
  pub body : MessageBody

-- `body[key]`
unfoldable pub field : String → List (String × String) → Option String
field key [] = none
field key ((k, v) ∷ d) = if k == key then some v else field key d

-- `json.loads(message["Body"])`
abbrev pub loads : MessageBody → Result (List (String × String))
loads malformed = raised (json_error "Expecting value")
loads (object d) = ok d

-- an increment of a counter of this process, which cannot fail
abbrev pub count : String → Action ⊤
count outcome w = (ok tt, record w { calls = count_outcome outcome ∷ w.calls })

module _ (env : Env) where
  open env use {settings, services, parse_uuid}

  -- `_mark_status`
  abbrev pub mark_status : String → String → Action ⊤
  mark_status candidate_id status =
      perform env (update_item settings.dynamodb_table_name candidate_id status)

  -- the `try` of `_process_message`, in the session
  abbrev pub process_in_session : String → String → Bytes → Action ⊤
  process_in_session tenant_id candidate_id file_bytes = do
    tenant ← or_raise (parse_uuid tenant_id) bad_uuid
    candidate ← or_raise (parse_uuid candidate_id) bad_uuid
    process_pending_candidate env tenant candidate file_bytes

  -- `_process_message`
  unfoldable pub process_message : List (String × String) → Action ⊤
  unfolding field
  process_message body = do
    candidate_id ← or_raise (field "candidate_id" body) key_error
    tenant_id ← or_raise (field "tenant_id" body) key_error
    bucket ← or_raise (field "s3_bucket" body) key_error
    key ← or_raise (field "s3_key" body) key_error
    before ← gets (λ w. w.calls)
    perform env (get_object bucket key)
    let file_bytes = services.stored_object before bucket key
    in_session (process_in_session tenant_id candidate_id file_bytes)
    mark_status candidate_id "ai-processed"

  abbrev pub delete : Message → Action ⊤
  delete m = perform env (delete_message settings.sqs_queue_url m.receipt_handle)

  -- the body of the `try` of `run`
  unfoldable pub attempt : Message → Action ⊤
  unfolding process_message
  attempt m = do body ← (λ w. (loads m.body, w)); process_message body; delete m; count "success"

  -- the `except` branches of `run`
  unfoldable pub on_error : Message → Exn → Action ⊤
  on_error m (resume_content _) = do delete m; count "content_error"
  on_error m (resume_parser_unavailable _) = count "transient_error"
  on_error m (vector_indexing _) = count "transient_error"
  on_error m _ = count "unexpected_error"

  unfoldable pub handle_message : Message → Action ⊤
  unfolding attempt on_error
  handle_message m = catch (attempt m) (on_error m)

  -- the `for` over the messages of one `receive_message`
  unfoldable pub handle_batch : List Message → Action ⊤
  handle_batch [] = pure tt
  handle_batch (m ∷ ms) = do handle_message m; handle_batch ms

  -- `run` over the batches that the queue gives in its first rounds; a `receive_message` that
  -- fails ends the run with its exception
  unfoldable pub rounds : List (Result (List Message)) → Action ⊤
  rounds [] = pure tt
  rounds (r ∷ rs) = do batch ← (λ w. (r, w)); handle_batch batch; rounds rs

  unfoldable pub run : List (Result (List Message)) → Action ⊤
  run received = do raise_if (not (truthy settings.sqs_queue_url)) runtime_error; rounds received
