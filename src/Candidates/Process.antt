-- ===== src/Candidates/Process.antt =====
-- `process_pending_candidate` of app/services/candidate_service.py: the row after it, by outcome.
use resume_screening_service.Common.{
  String, ◌≡◌, refl, sym, ap, subst, ◌∙◌, true, some, arith, get, put-put, get-put_self, inl, inr,
  ◌⊎◌, ⊤,
}
use resume_screening_service.Errors.{Exn, resume_content, Result, ok, raised, Result-cases}
use resume_screening_service.Models.{Uuid, Candidate, processing, failed, candidate_row}
use resume_screening_service.Schemas.{ParsedResume}
use resume_screening_service.Services.{Bytes, Env}
use resume_screening_service.Session.{World, Database, constraints_hold, ◌>>=◌, commit}
use resume_screening_service.Session.Laws.{constraints_hold-put_candidate}
use resume_screening_service.Session.Runs.{bind_of_ok, commit_of_kept}
use resume_screening_service.Embeddings.Tables.{KeepsTables-parse_resume_pdf}
use resume_screening_service.ResumeParser.{parse_resume_pdf}
use resume_screening_service.Candidates.{
  not_indexed, with_parsed, index_candidate, parse_failed, store_parsed, parse_and_store,
  process_found,
}
use resume_screening_service.Candidates.Filled.{
  IsFilled, parse_resume_pdf-IsRead, with_parsed-IsFilled, IsFilled-of_started,
}
use resume_screening_service.Candidates.Index.{vector_of, with_candidate, index_candidate-Indexed}

module _ (env : Env) where
  store_parsed-saved :
      (tenant_id : Uuid) (done : Candidate) (w w' : World) (r : Result ⊤)
      → store_parsed env tenant_id done w ≡ (r, w')
      → ((r ≡ ok tt)
          × (w'.saved
              ≡ with_candidate
                  (record done { pinecone_id = some (vector_of env done) })
                  (with_candidate done w.db)))
        ⊎ ((r ≡ raised not_indexed) × (w'.saved ≡ w.saved))
  unfolding store_parsed
  store_parsed-saved tenant_id done w w' r h =
      let mid : World = record w { db = with_candidate done w.db } in
      let outcome = index_candidate-Indexed env tenant_id done mid in
      elim (Result-cases (index_candidate env tenant_id done mid).0) [
        | inl (c', e) ↦ inl (ground arith, ground arith)
        | inr (x, e) ↦ inr (ground arith, ground arith)
      ]

  -- What is committed for the candidate when its processing ends, by how it ends.
  abbrev pub Stored : Candidate → Bytes → Database → Result ⊤ × World → Type 0
  Stored c file_bytes db (ok _, w') =
      (done : Candidate) × IsFilled env c file_bytes done × (w'.saved ≡ with_candidate done db)
  Stored c file_bytes db (raised (resume_content _), w') =
      w'.saved ≡ with_candidate (record c { status = failed }) db
  Stored c file_bytes db (raised e, w') = w'.saved ≡ db

  pub with_candidate_twice :
      (x y : Candidate) (db : Database)
      → x.id ≡ y.id
      → with_candidate x (with_candidate y db) ≡ with_candidate x db
  with_candidate_twice x y db e =
      ap (λ cs. record db { candidates = cs }) (put-put ⦃r = candidate_row⦄ x y db.candidates e)

  Stored-of_ok :
      (c : Candidate) (file_bytes : Bytes) (db : Database) (done : Candidate) (r : Result ⊤)
      (w' : World)
      → IsFilled env c file_bytes done
      → r ≡ ok tt
      → w'.saved ≡ with_candidate done db
      → Stored c file_bytes db (r, w')
  Stored-of_ok c file_bytes db done (ok _) w' filled h e = (done, filled, e)
  Stored-of_ok c file_bytes db done (raised x) w' filled h e = absurd (cc)

  Stored-of_raised :
      (c : Candidate) (file_bytes : Bytes) (db : Database) (r : Result ⊤) (w' : World)
      → r ≡ raised not_indexed
      → w'.saved ≡ db
      → Stored c file_bytes db (r, w')
  Stored-of_raised c file_bytes db r w' h e = rw h e

  -- the end of `process_pending_candidate` after an exception of the parser
  abbrev after_failure : Uuid → Candidate → Exn → World → Result ⊤ × World
  after_failure tenant_id c x w =
      (parse_failed env c x >>= λ p. store_parsed env tenant_id (with_parsed c p.0 p.1)) w

  parse_failed-Stored :
      (tenant_id : Uuid) (c : Candidate) (file_bytes : Bytes) (x : Exn) (w : World)
      → constraints_hold w.db ≡ true
      → get c.id w.db.candidates ≡ some c
      → w.saved ≡ w.db
      → Stored c file_bytes w.db (after_failure tenant_id c x w)
  unfolding parse_failed
  parse_failed-Stored tenant_id c file_bytes x w h found clean =
      let kept =
        constraints_hold-put_candidate w.db (record c { status = failed }) c h found refl refl in
      ground arith

  pub parse_and_store_of_parsed :
      (tenant_id : Uuid) (c : Candidate) (file_bytes : Bytes) (w : World) (parsed : ParsedResume)
      (text : String)
      → (parse_resume_pdf env file_bytes w).0 ≡ ok (parsed, text)
      → parse_and_store env tenant_id c file_bytes w
        ≡ store_parsed env tenant_id
            (with_parsed c parsed text)
            (parse_resume_pdf env file_bytes w).1
  unfolding parse_and_store
  parse_and_store_of_parsed tenant_id c file_bytes w parsed text e = ground arith

  parse_and_store_of_raised :
      (tenant_id : Uuid) (c : Candidate) (file_bytes : Bytes) (w : World) (x : Exn)
      → (parse_resume_pdf env file_bytes w).0 ≡ raised x
      → parse_and_store env tenant_id c file_bytes w
        ≡ after_failure tenant_id c x (parse_resume_pdf env file_bytes w).1
  unfolding parse_and_store
  parse_and_store_of_raised tenant_id c file_bytes w x e = ground arith

  parse_and_store-Stored :
      (tenant_id : Uuid) (c : Candidate) (file_bytes : Bytes) (w : World)
      → constraints_hold w.db ≡ true
      → get c.id w.db.candidates ≡ some c
      → w.saved ≡ w.db
      → Stored c file_bytes w.db (parse_and_store env tenant_id c file_bytes w)
  parse_and_store-Stored tenant_id c file_bytes w h found clean =
      let w1 = (parse_resume_pdf env file_bytes w).1 in
      let kept = (KeepsTables-parse_resume_pdf env file_bytes).same w in
      elim (Result-cases (parse_resume_pdf env file_bytes w).0) [
        | inl ((parsed, text), e) ↦
            let done = with_parsed c parsed text in
            let final = record done { pinecone_id = some (vector_of env done) } in
            let filled =
              with_parsed-IsFilled env c file_bytes parsed text
                (parse_resume_pdf-IsRead env file_bytes w parsed text e) in
            let (r, w') = store_parsed env tenant_id done w1 in
            subst (Stored c file_bytes w.db)
              (sym (parse_and_store_of_parsed tenant_id c file_bytes w parsed text e))
              (elim (store_parsed-saved tenant_id done w1 w' r refl) [
                | inl (returned, saved) ↦
                    Stored-of_ok c file_bytes w.db final r w' filled returned (
                      saved
                      ∙ with_candidate_twice final done w1.db refl
                      ∙ ap (with_candidate final) kept.0)
                | inr (broken, saved) ↦
                    Stored-of_raised c file_bytes w.db r w' broken (saved ∙ kept.1 ∙ clean)
              ])
        | inr (x, e) ↦
            subst (Stored c file_bytes w.db)
              (sym (parse_and_store_of_raised tenant_id c file_bytes w x e))
              (subst (λ db. Stored c file_bytes db (after_failure tenant_id c x w1)) kept.0
                (parse_failed-Stored tenant_id c file_bytes x w1 (ap constraints_hold kept.0 ∙ h)
                  (ap (λ db. get c.id db.candidates) kept.0 ∙ found) (kept.1 ∙ clean ∙ sym kept.0)))
      ]

  -- What is committed for the candidate when its processing ends: a result is a processed row,
  -- filled with what was parsed of the file, and the id of its vector; a `ResumeContentError` is a
  -- failed row; any other exception is a row that is still being processed. Apart from that the row
  -- is as it was.
  abbrev pub Processed : Candidate → Bytes → Database → Result ⊤ × World → Type 0
  Processed c file_bytes db (ok _, w') =
      (done : Candidate) × IsFilled env c file_bytes done × (w'.saved ≡ with_candidate done db)
  Processed c file_bytes db (raised (resume_content _), w') =
      w'.saved ≡ with_candidate (record c { status = failed }) db
  Processed c file_bytes db (raised e, w') =
      w'.saved ≡ with_candidate (record c { status = processing }) db

  Processed-of_Stored :
      (c : Candidate) (file_bytes : Bytes) (db : Database) (o : Result ⊤ × World)
      → Stored
          (record c { status = processing })
          file_bytes
          (with_candidate (record c { status = processing }) db)
          o
      → Processed c file_bytes db o
  Processed-of_Stored c file_bytes db (ok _, w') (done, filled, e) = (
    done,
    IsFilled-of_started env c file_bytes done filled,
    e ∙ with_candidate_twice done (record c { status = processing }) db filled.id,
  )
  Processed-of_Stored c file_bytes db (raised (resume_content _), w') e =
      e
      ∙ with_candidate_twice (record c { status = failed }) (record c { status = processing }) db
          refl
  Processed-of_Stored c file_bytes db (raised _, w') e = e

  pub process_found_of_started :
      (tenant_id : Uuid) (c : Candidate) (file_bytes : Bytes) (w : World)
      → constraints_hold (with_candidate (record c { status = processing }) w.db) ≡ true
      → process_found env tenant_id c file_bytes w
        ≡ parse_and_store env tenant_id
            (record c { status = processing })
            file_bytes
            (record w {
              db = with_candidate (record c { status = processing }) w.db;
              saved = with_candidate (record c { status = processing }) w.db;
            })
  unfolding process_found
  process_found_of_started tenant_id c file_bytes w kept =
      let db = with_candidate (record c { status = processing }) w.db in
      bind_of_ok commit
        (λ _. parse_and_store env tenant_id (record c { status = processing }) file_bytes)
        (record w { db = db }) (record w { db = db; saved = db }) tt
        (commit_of_kept (record w { db = db }) kept)

  -- On consistent tables, the row that is processed ends as its outcome says, on every path, and
  -- no other row of any table is changed: on success it has each attribute that the language model
  -- returned for the text of the file, an empty email as none, that text, the status processed and
  -- the id of its own vector, and keeps its id, tenant and time; on a ResumeContentError only the
  -- status is changed, to failed, and on any other exception to processing.
  pub process_found-Processed :
      (tenant_id : Uuid) (c : Candidate) (file_bytes : Bytes) (w : World)
      → constraints_hold w.db ≡ true
      → get c.id w.db.candidates ≡ some c
      → Processed c file_bytes w.db (process_found env tenant_id c file_bytes w)
  process_found-Processed tenant_id c file_bytes w h found =
      let started = record c { status = processing } in
      let db = with_candidate started w.db in
      let kept = constraints_hold-put_candidate w.db started c h found refl refl in
      let there = get-put_self ⦃r = candidate_row⦄ started c w.db.candidates found in
      subst (Processed c file_bytes w.db)
        (sym (process_found_of_started tenant_id c file_bytes w kept))
        (Processed-of_Stored c file_bytes w.db _ (
          parse_and_store-Stored tenant_id started file_bytes (record w { db = db; saved = db })
            kept there refl))
