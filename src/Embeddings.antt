-- ===== src/Embeddings.antt =====
-- The vector store: `class VectorStore` of app/services/embeddings.py. The client and the index
-- are made on first use; `Pinecone(...)` only builds an object, and `client.Index(...)` is a call,
-- which looks up where the index is.
pub mod Tables
use resume_screening_service.Common.{
  String, ◌<>◌, true, Option, none, some, List, [], ◌∷◌, ◌++◌, map, ⊤, not, truthy, length,
  contains, string_eq, if◌then◌else◌,
}
use resume_screening_service.Common.Int.{ℤ, pos}
use resume_screening_service.Errors.{runtime_error, ok}
use resume_screening_service.Models.{Float}
use resume_screening_service.Services.{
  Match, embed_query, list_indexes, create_index, open_index, upsert, query as query_index, Env,
}
use resume_screening_service.Session.{Action, pure, gets, raise_if, perform, ◌>>=◌, ◌>>◌}

-- An item of what `query_similar_candidates` returns, as far as it is read.
pub record VectorMatch : Type 0 where
  pub candidate_id : Option String
  pub vector_score : Float

-- `match.get("score", 0.0)`
abbrev pub to_vector_match : Match → VectorMatch
to_vector_match m = record {
  candidate_id = m.candidate_id;
  vector_score = elim m.score [ none ↦ pos 0 | some score ↦ score ];
}

module _ (env : Env) where
  open env use {settings, services}

  unfoldable pub make_client : Action ⊤
  make_client = do
    raise_if (not (truthy settings.pinecone_api_key)) runtime_error
    λ w. (ok tt, record w { client_ready = true })

  unfoldable pub client : Action ⊤
  unfolding make_client
  client = do if (← gets (λ w. w.client_ready)) then pure tt else make_client

  unfoldable pub embed_text : String → Action (List Float)
  embed_text text = do perform env (embed_query text); pure (services.embedding text)

  -- the index is made with the dimension of a sample
  unfoldable pub make_index : Action ⊤
  unfolding client embed_text
  make_index = do
    sample ← embed_text "dimension probe"
    client
    perform env (create_index settings.pinecone_index_name (length sample))

  unfoldable pub ensure_index : Action ⊤
  unfolding client make_index
  ensure_index = do
    client
    before ← gets (λ w. w.calls)
    perform env list_indexes
    let existing = contains settings.pinecone_index_name (services.indexes before)
    if existing then pure tt else make_index

  unfoldable pub fill_index : Action ⊤
  unfolding client ensure_index
  fill_index = do
    ensure_index
    client
    perform env (open_index settings.pinecone_index_name)
    λ w. (ok tt, record w { index_ready = true })

  unfoldable pub index : Action ⊤
  unfolding fill_index
  index = do if (← gets (λ w. w.index_ready)) then pure tt else fill_index

  -- the end of both `upsert_…` methods
  abbrev pub upsert_vector : String → String → List (String × String) → String → Action String
  upsert_vector vector_id text metadata namespace = do
    vector ← embed_text text
    index
    perform env
        (upsert (record { id = vector_id; embedding = vector; metadata = metadata }) namespace)
    pure vector_id

  unfoldable pub upsert_candidate :
      String → String → List (String × String) → String → Action String
  unfolding index embed_text
  upsert_candidate candidate_id text metadata namespace =
      upsert_vector ("candidate-" <> candidate_id) text
        (metadata ++ ("type", "candidate") ∷ ("candidate_id", candidate_id) ∷ []) namespace

  unfoldable pub upsert_job : String → String → List (String × String) → String → Action String
  unfolding index embed_text
  upsert_job job_id text metadata namespace =
      upsert_vector ("job-" <> job_id) text (metadata ++ ("type", "job") ∷ ("job_id", job_id) ∷ [])
        namespace

  -- The filter on the type of the vectors is part of every query.
  unfoldable pub query_similar_candidates : String → String → ℤ → Action (List VectorMatch)
  unfolding index embed_text
  query_similar_candidates job_text namespace top_k = do
    query_vector ← embed_text job_text
    index
    before ← gets (λ w. w.calls)
    perform env (query_index query_vector top_k namespace)
    pure (map to_vector_match (services.matches before query_vector top_k namespace))
