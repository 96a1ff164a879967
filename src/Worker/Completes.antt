-- ===== src/Worker/Completes.antt =====
-- A message of an upload is processed when no service fails (app/worker.py, app/services).
use resume_screening_service.Common.{
  String, ◌≡◌, refl, ap, ◌∙◌, true, false, none, some, ⊤, inl, inr, ◌⊎◌, sym, truthy, arith, get,
  contains, values, string_eq,
}
use resume_screening_service.Errors.{Result, ok}
use resume_screening_service.Models.{Uuid, Candidate, processing, candidate_row}
use resume_screening_service.Schemas.{ParsedResume}
use resume_screening_service.Services.{Bytes, Env}
use resume_screening_service.Session.{World, Database, constraints_hold}
use resume_screening_service.Session.Laws.{
  constraints_hold-put_candidate, constraints_hold-put_vector,
}
use resume_screening_service.Embeddings.Tables.{
  KeepsTables-upsert_candidate, KeepsTables-parse_resume_pdf,
}
use resume_screening_service.EmbedText.{build_candidate_embed_text}
use resume_screening_service.ResumeParser.{extract_text_from_pdf, parse_resume_pdf}
use resume_screening_service.Candidates.{
  name_metadata, with_parsed, index_and_commit, index_candidate, store_parsed, parse_and_store,
  process_found,
}
use resume_screening_service.Candidates.Index.{vector_of, with_candidate, upsert_candidate-returns}
use resume_screening_service.Candidates.Process.{
  with_candidate_twice, parse_and_store_of_parsed, process_found_of_started,
}
use resume_screening_service.Worker.Reliable.{
  IsReliable, Returns-upsert_candidate, parse_resume_pdf-returns,
}

module _ (env : Env) (reliable : IsReliable env) where
  -- the row with the id of its vector
  abbrev pub indexed : Candidate → Candidate
  indexed c = record c { pinecone_id = some (vector_of env c) }

  index_candidate-returns :
      (t : Uuid) (c : Candidate) (w : World)
      → constraints_hold (with_candidate (indexed c) w.db) ≡ true
      → (index_candidate env t c w).0 ≡ ok (indexed c)
  unfolding index_candidate index_and_commit
  index_candidate-returns t c w kept =
      let id = env.show_uuid c.id in
      let text = build_candidate_embed_text c in
      let up = Returns-upsert_candidate env reliable id text (name_metadata c) (env.show_uuid t) in
      let done = up.returned w in
      let named =
        upsert_candidate-returns env id text (name_metadata c) (env.show_uuid t) w (up.value w)
          done in
      let same =
        (KeepsTables-upsert_candidate env id text (name_metadata c) (env.show_uuid t)).same w in
      ground arith

  store_parsed-returns :
      (t : Uuid) (c : Candidate) (w : World)
      → constraints_hold (with_candidate (indexed c) w.db) ≡ true
      → (store_parsed env t c w).0 ≡ ok tt
  unfolding store_parsed
  store_parsed-returns t c w kept =
      let mid : World = record w { db = with_candidate c w.db } in
      let again = ap constraints_hold (with_candidate_twice env (indexed c) c w.db refl) ∙ kept in
      let done = index_candidate-returns t c mid again in ground arith

  parse_and_store-returns :
      (t : Uuid) (c : Candidate) (file_bytes : Bytes) (text : String) (w : World)
      → extract_text_from_pdf env file_bytes ≡ ok text
      → truthy text ≡ true
      → constraints_hold
          (with_candidate (indexed (with_parsed c (env.services.parsed text) text)) w.db)
        ≡ true
      → (parse_and_store env t c file_bytes w).0 ≡ ok tt
  parse_and_store-returns t c file_bytes text w read given kept =
      let parsed = env.services.parsed text in
      let w1 = (parse_resume_pdf env file_bytes w).1 in
      let same = (KeepsTables-parse_resume_pdf env file_bytes).same w in
      ap (λ (o : Result ⊤ × World). o.0)
        (parse_and_store_of_parsed env t c file_bytes w parsed text
          (parse_resume_pdf-returns env reliable file_bytes text w read given))
      ∙ store_parsed-returns t (with_parsed c parsed text) w1 (
          ap (λ db. constraints_hold (with_candidate (indexed (with_parsed c parsed text)) db))
            same.0
          ∙ kept)

  -- the row has its vector, or the id of its vector is new
  abbrev pub HasFreeVector : Candidate → Database → Type 0
  HasFreeVector c db =
      (c.pinecone_id ≡ some (vector_of env c))
      ⊎ ((c.pinecone_id ≡ none)
          × (contains (vector_of env c) (values (λ (x : Candidate). x.pinecone_id) db.candidates)
              ≡ false))

  process_found-last :
      (c : Candidate) (parsed : ParsedResume) (text : String) (db : Database)
      → constraints_hold db ≡ true
      → get c.id db.candidates ≡ some c
      → HasFreeVector c db
      → constraints_hold
          (with_candidate (indexed (with_parsed (record c { status = processing }) parsed text)) db)
        ≡ true
  process_found-last c parsed text db h found (inl own) =
      constraints_hold-put_candidate db
        (indexed (with_parsed (record c { status = processing }) parsed text)) c h found (sym own)
        refl
  process_found-last c parsed text db h found (inr (unindexed, new)) =
      constraints_hold-put_vector db
        (indexed (with_parsed (record c { status = processing }) parsed text)) c (vector_of env c) h
        found unindexed refl new refl

  pub process_found-returns :
      (c : Candidate) (file_bytes : Bytes) (text : String) (w : World)
      → constraints_hold w.db ≡ true
      → get c.id w.db.candidates ≡ some c
      → HasFreeVector c w.db
      → extract_text_from_pdf env file_bytes ≡ ok text
      → truthy text ≡ true
      → (process_found env c.tenant_id c file_bytes w).0 ≡ ok tt
  process_found-returns c file_bytes text w h found vector read given =
      let started = record c { status = processing } in
      let parsed = env.services.parsed text in
      let final = indexed (with_parsed started parsed text) in
      let db = with_candidate started w.db in
      let kept = constraints_hold-put_candidate w.db started c h found refl refl in
      let last = process_found-last c parsed text w.db h found vector in
      ap (λ (o : Result ⊤ × World). o.0)
        (process_found_of_started env c.tenant_id c file_bytes w kept)
      ∙ parse_and_store-returns c.tenant_id started file_bytes text
          (record w { db = db; saved = db }) read given
          (ap constraints_hold (with_candidate_twice env final started w.db refl) ∙ last)
