-- ===== src/Tests/Pipeline.antt =====
-- The theorems on the candidates' pipeline, at the sample server.
use resume_screening_service.Common.{
  some, none, ◌∷◌, [], ◌≡◌, refl, get, put, find, distinct, contains, every, strip, join,
}
use resume_screening_service.Errors.{ok}
use resume_screening_service.EmbedText.{
  build_candidate_embed_text, experience_parts, education_parts,
}
use resume_screening_service.ResumeParser.{
  parse_resume_pdf, parse_resume_text, extract_text_from_pdf,
}
use resume_screening_service.Embeddings.{
  upsert_candidate, index, fill_index, ensure_index, make_index, client, make_client, embed_text,
}
use resume_screening_service.Session.{
  constraints_hold, tenants_hold, api_keys_hold, candidates_hold, jobs_hold, plans_hold,
  subscriptions_hold, match_results_hold,
}
use resume_screening_service.Models.{candidate_row}
use resume_screening_service.Schemas.{CandidateCreate}
use resume_screening_service.Candidates.Create.{Created, create_candidate-Created}
use resume_screening_service.Candidates.{
  create_candidate, process_found, parse_and_store, store_parsed, index_candidate, index_and_commit,
}
use resume_screening_service.Candidates.Process.{Processed, process_found-Processed}
use resume_screening_service.Tests.Sample.{
  sample_env, sample_db, sample_world, sample_db_holds, uploaded, strokes,
}

process_found-Processed_example :
    Processed sample_env uploaded
      (37 ∷ [])
      sample_db
      (process_found sample_env 1 uploaded (37 ∷ []) sample_world)
unfolding get
process_found-Processed_example =
    process_found-Processed sample_env 1 uploaded (37 ∷ []) sample_world sample_db_holds refl

-- that processing returns
uploaded_is_processed : (process_found sample_env 1 uploaded (37 ∷ []) sample_world).0 ≡ ok tt
unfolding process_found parse_and_store store_parsed index_candidate index_and_commit
    parse_resume_pdf parse_resume_text extract_text_from_pdf upsert_candidate index fill_index
    ensure_index make_index client make_client embed_text get put find constraints_hold tenants_hold
    api_keys_hold candidates_hold jobs_hold plans_hold subscriptions_hold match_results_hold
    distinct contains every strip join build_candidate_embed_text experience_parts education_parts
    strokes
uploaded_is_processed = refl

abbrev grace : CandidateCreate
grace = record {
  full_name = "Grace";
  email = none;
  phone = none;
  summary = some "Engineer";
  skills = "cobol" ∷ [];
  experience = [];
  education = [];
  raw_text = none;
}

create_candidate-Created_example :
    Created sample_env 1 grace sample_world (create_candidate sample_env 1 grace sample_world)
create_candidate-Created_example = create_candidate-Created sample_env 1 grace sample_world
