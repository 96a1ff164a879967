-- ===== src/Candidates.antt =====
-- The life of a candidate: app/services/candidate_service.py.
pub mod Index
pub mod Filled
pub mod Process
pub mod Enqueue
pub mod Create
use resume_screening_service.Common.{
  String, none, some, List, [], ◌∷◌, ⊤, map, put, option_or, option_truthy, if◌then◌else◌,
}
use resume_screening_service.Errors.{
  Exn, resource_not_found, resume_content, resume_parser_unavailable, vector_indexing, value_error,
  json_error, validation_error, is_value_error,
}
use resume_screening_service.Models.{
  Uuid, Candidate, pending, processing, processed, failed, candidate_row,
}
use resume_screening_service.Schemas.{
  CandidateCreate, ParsedResume, dump_experience, dump_education,
}
use resume_screening_service.Services.{Bytes, Env}
use resume_screening_service.Session.{
  Action, pure, raise, catch, or_raise, update, commit, rollback, new_id, ◌>>=◌, ◌>>◌,
}
use resume_screening_service.Repositories.{add_candidate, get_candidate_by_id, list_all_candidates}
use resume_screening_service.Embeddings.{upsert_candidate}
use resume_screening_service.EmbedText.{build_candidate_embed_text}
use resume_screening_service.ResumeParser.{parse_resume_pdf}
use resume_screening_service.Ingestion.{upload_resume_and_enqueue}

abbrev pub candidate_not_found : Exn
candidate_not_found = resource_not_found "Candidate not found"

abbrev pub parser_unavailable : Exn
parser_unavailable =
    resume_parser_unavailable
      "Resume parser is unavailable. Confirm Ollama is running and OLLAMA_LLM_MODEL is installed."

abbrev pub not_indexed : Exn
not_indexed =
    vector_indexing "Candidate could not be indexed. Check Ollama and Pinecone configuration."

-- the text of a `ValueError`
abbrev pub exn_text : Exn → String
exn_text (value_error text) = text
exn_text (json_error text) = text
exn_text (validation_error text) = text
exn_text _ = ""

-- the attributes that a parsed resume gives a candidate
abbrev pub with_parsed : Candidate → ParsedResume → String → Candidate
with_parsed c parsed raw_text = record c {
  full_name = some parsed.full_name;
  email = if option_truthy parsed.email then parsed.email else none;
  phone = parsed.phone;
  summary = parsed.summary;
  skills = parsed.skills;
  experience = map dump_experience parsed.experience;
  education = map dump_education parsed.education;
  raw_text = some raw_text;
  status = processed;
}

-- a change of the attributes of a candidate of the session
abbrev pub assign : Candidate → Action ⊤
assign c = update (λ db. record db { candidates = put c db.candidates })

abbrev pub name_metadata : Candidate → List (String × String)
name_metadata c = ("full_name", option_or c.full_name "") ∷ []

module _ (env : Env) where
  open env use {now, show_uuid}

  -- the body of the `try` of `_index_candidate`
  unfoldable pub index_and_commit : Uuid → Candidate → Action Candidate
  index_and_commit tenant_id candidate = do
    vector_id ←
        upsert_candidate env (show_uuid candidate.id) (build_candidate_embed_text candidate)
          (name_metadata candidate) (show_uuid tenant_id)
    let indexed = record candidate { pinecone_id = some vector_id }
    assign indexed
    commit
    pure indexed

  -- `_index_candidate`
  unfoldable pub index_candidate : Uuid → Candidate → Action Candidate
  unfolding index_and_commit
  index_candidate tenant_id candidate =
      catch (index_and_commit tenant_id candidate) (λ e. do rollback; raise not_indexed)

  unfoldable pub create_candidate : Uuid → CandidateCreate → Action Candidate
  unfolding index_candidate
  create_candidate tenant_id payload = do
    id ← new_id env
    candidate ← add_candidate (record {
      id = id;
      tenant_id = tenant_id;
      full_name = some payload.full_name;
      email = payload.email;
      phone = payload.phone;
      summary = payload.summary;
      skills = payload.skills;
      experience = map dump_experience payload.experience;
      education = map dump_education payload.education;
      raw_text = payload.raw_text;
      pinecone_id = none;
      status = processed;
      created_at = now;
    })
    index_candidate tenant_id candidate

  -- the placeholder row of an upload
  abbrev pub placeholder : Uuid → Uuid → Candidate
  placeholder id tenant_id = record {
    id = id;
    tenant_id = tenant_id;
    full_name = none;
    email = none;
    phone = none;
    summary = none;
    skills = [];
    experience = [];
    education = [];
    raw_text = none;
    pinecone_id = none;
    status = pending;
    created_at = now;
  }

  unfoldable pub enqueue_resume_upload : Uuid → Bytes → Action Candidate
  enqueue_resume_upload tenant_id file_bytes = do
    id ← new_id env
    candidate ← add_candidate (placeholder id tenant_id)
    commit
    upload_resume_and_enqueue env candidate.id tenant_id file_bytes
    pure candidate

  -- `except ValueError` … `except Exception`
  unfoldable pub parse_failed : Candidate → Exn → Action (ParsedResume × String)
  parse_failed candidate e =
      if is_value_error e
      then (do
        assign (record candidate { status = failed })
        commit
        raise (resume_content (exn_text e)))
      else raise parser_unavailable

  -- the end: the attributes that were parsed, and the index
  unfoldable pub store_parsed : Uuid → Candidate → Action ⊤
  store_parsed tenant_id done = do assign done; index_candidate tenant_id done; pure tt

  -- from the `try` on, for the candidate that is being processed
  unfoldable pub parse_and_store : Uuid → Candidate → Bytes → Action ⊤
  unfolding parse_failed store_parsed
  parse_and_store tenant_id started file_bytes = do
    (parsed, raw_text) ← catch (parse_resume_pdf env file_bytes) (parse_failed started)
    store_parsed tenant_id (with_parsed started parsed raw_text)

  -- from the query on, for the candidate that it found
  unfoldable pub process_found : Uuid → Candidate → Bytes → Action ⊤
  unfolding parse_and_store
  process_found tenant_id candidate file_bytes = do
    let started = record candidate { status = processing }
    assign started
    commit
    parse_and_store tenant_id started file_bytes

  unfoldable pub process_pending_candidate : Uuid → Uuid → Bytes → Action ⊤
  unfolding process_found
  process_pending_candidate tenant_id candidate_id file_bytes = do
    candidate ← or_raise (← get_candidate_by_id tenant_id candidate_id) candidate_not_found
    process_found tenant_id candidate file_bytes

abbrev pub list_candidates : Uuid → Action (List Candidate)
list_candidates = list_all_candidates

unfoldable pub get_candidate : Uuid → Uuid → Action Candidate
get_candidate tenant_id candidate_id = do
  or_raise (← get_candidate_by_id tenant_id candidate_id) candidate_not_found
