-- ===== src/Candidates/Index.antt =====
-- `_index_candidate` of app/services/candidate_service.py, by outcome.
use resume_screening_service.Common.{String, ◌<>◌, ◌≡◌, some, List, arith, put, inl, inr}
use resume_screening_service.Errors.{Result, ok, raised, Result-cases}
use resume_screening_service.Models.{Uuid, Candidate, candidate_row}
use resume_screening_service.Services.{Env}
use resume_screening_service.Session.{World, Database}
use resume_screening_service.Embeddings.{upsert_candidate}
use resume_screening_service.Embeddings.Tables.{KeepsTables-upsert_candidate}
use resume_screening_service.EmbedText.{build_candidate_embed_text}
use resume_screening_service.Candidates.{name_metadata, not_indexed, index_candidate}

abbrev pub vector_of : Env → Candidate → String
vector_of env c = "candidate-" <> env.show_uuid c.id

-- the tables with a candidate changed
abbrev pub with_candidate : Candidate → Database → Database
with_candidate c db = record db { candidates = put c db.candidates }

module _ (env : Env) where
  pub upsert_candidate-returns :
      (id text : String) (metadata : List (String × String)) (namespace : String) (w : World)
      (v : String)
      → (upsert_candidate env id text metadata namespace w).0 ≡ ok v
      → v ≡ "candidate-" <> id
  unfolding upsert_candidate
  upsert_candidate-returns id text metadata namespace w v h = ground arith

  -- What indexing leaves, by how it ends.
  abbrev pub Indexed : Candidate → World → Result Candidate × World → Type 0
  Indexed c w (ok c', w') =
      (c' ≡ record c { pinecone_id = some (vector_of env c) })
      × (w'.db ≡ with_candidate c' w.db)
      × (w'.saved ≡ w'.db)
  Indexed c w (raised e, w') = (e ≡ not_indexed) × (w'.db ≡ w.saved) × (w'.saved ≡ w.saved)

  -- The vector's id is stored and all is committed, or the session is back at what was committed.
  pub index_candidate-Indexed :
      (tenant_id : Uuid) (c : Candidate) (w : World)
      → Indexed c w (index_candidate env tenant_id c w)
  unfolding index_candidate
  index_candidate-Indexed tenant_id c w =
      let id = env.show_uuid c.id in
      let text = build_candidate_embed_text c in
      let metadata = name_metadata c in
      let namespace = env.show_uuid tenant_id in
      let kept = (KeepsTables-upsert_candidate env id text metadata namespace).same w in
      elim (Result-cases (upsert_candidate env id text metadata namespace w).0) [
        | inl (v, done) ↦
            let named = upsert_candidate-returns id text metadata namespace w v done in ground arith
        | inr (e, broken) ↦ ground arith
      ]
