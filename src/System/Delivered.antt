-- ===== src/System/Delivered.antt =====
-- A message of app/worker.py, handled after anything else that the service has done.
use text.Mathlib.TextLemmas.{append_cancel_left}
use resume_screening_service.Common.{
  String, ◌≡◌, ap, sym, ◌∙◌, none, some, List, true, false, inl, inr, find, find-holds, find-Memᴰ,
  get, get-key, get_of_Memᴰ, option_is, option_is_iff, contains, contains-values, values, nat_eq,
  string_eq, Option-cases, truthy, ◌∷◌,
}
use resume_screening_service.Common.Sort.Laws.{All}
use resume_screening_service.Errors.{ok}
use resume_screening_service.Models.{Uuid, Instant, Candidate, processed, candidate_row}
use resume_screening_service.Services.{Env, Services, Call, count_outcome, at}
use resume_screening_service.Session.{World, Database, constraints_hold}
use resume_screening_service.Session.Laws.{distinct_candidates}
use resume_screening_service.Ingestion.{resume_key, resume_uploaded}
use resume_screening_service.ResumeParser.{extract_text_from_pdf}
use resume_screening_service.Worker.{Message, handle_message}
use resume_screening_service.Worker.Process.{QueueLaws, status_of}
use resume_screening_service.Worker.Settles.{deletion}
use resume_screening_service.Worker.Reliable.{IsReliable}
use resume_screening_service.Worker.Completes.{HasFreeVector}
use resume_screening_service.Worker.Delivers.{CanProcess, handle_message-completes}
use resume_screening_service.Candidates.Index.{vector_of}
use resume_screening_service.System.{Request, serve_all}
use resume_screening_service.System.Moves.{HasOwnVector}
use resume_screening_service.System.Invariant.{IsSound, All-get, serve_all-IsSound}
use resume_screening_service.System.Rows.{serve_all-Keeps}

module _ (env : Env) (laws : QueueLaws env) where
  show_uuid-injective : (u v : Uuid) → env.show_uuid u ≡ env.show_uuid v → u ≡ v
  show_uuid-injective u v h =
      let same : some u ≡ some v =
        sym (laws.parse-show u) ∙ ap env.parse_uuid h ∙ laws.parse-show v in
      cc

  -- a row with the vector of a row is that row
  vector_of-injective :
      (x c : Candidate)
      → HasOwnVector env.show_uuid x
      → x.pinecone_id ≡ some (vector_of env c)
      → x.id ≡ c.id
  vector_of-injective x c (inl missing) h = absurd (cc)
  vector_of-injective x c (inr own) h =
      let same : vector_of env x ≡ vector_of env c = cc in
      show_uuid-injective x.id c.id
        (append_cancel_left "candidate-" (env.show_uuid x.id) (env.show_uuid c.id) same)

  -- No other row has the vector of a row of sound tables.
  IsSound-HasFreeVector :
      (reliable : IsReliable env) (c : Candidate) (db : Database)
      → constraints_hold db ≡ true
      → All (HasOwnVector env.show_uuid) db.candidates
      → get c.id db.candidates ≡ some c
      → HasFreeVector env reliable c db
  IsSound-HasFreeVector reliable c db held own found =
      let mine =
        All-get ⦃r = candidate_row⦄ (HasOwnVector env.show_uuid) c.id c db.candidates found own in
      elim mine [ inr indexed ↦ inl indexed | inl missing ↦ inr (missing, absent missing) ]
    where
      absent :
          c.pinecone_id ≡ none
          → contains (vector_of env c) (values (λ (x : Candidate). x.pinecone_id) db.candidates)
            ≡ false
      absent missing =
          let v = vector_of env c in
          let has = λ (x : Candidate). option_is x.pinecone_id v in
          elim (Option-cases (find has db.candidates)) [
            | inl nowhere ↦
                contains-values ⦃e = string_eq⦄ (λ (x : Candidate). x.pinecone_id) v db.candidates
                  nowhere
            | inr (x, first) ↦
                let by_id =
                  get_of_Memᴰ ⦃r = candidate_row⦄ x db.candidates (distinct_candidates db held)
                    (find-Memᴰ has db.candidates x first) in
                let vector =
                  (option_is_iff ⦃e = string_eq⦄ x.pinecone_id v).0
                    (find-holds has db.candidates x first) in
                let id =
                  vector_of-injective x c
                    (All-get ⦃r = candidate_row⦄ (HasOwnVector env.show_uuid) x.id x db.candidates
                      by_id own)
                    vector in
                let same : some x ≡ some c = sym by_id ∙ ap (λ i. get i db.candidates) id ∙ found in
                absurd (cc)
          ]

module _ (env : Env) (rs : List (Instant × Request)) (w : World) (now : Instant)
    (services : Services) where
  -- the server, with its services at a later time
  abbrev pub later_env : Env
  later_env = record (at env now) { services = services }

  -- the row of a candidate at that time, and its file
  row_CanProcess :
      (reliable : IsReliable later_env) (laws : QueueLaws later_env) (c : Candidate) (text : String)
      → constraints_hold w.saved ≡ true
      → IsSound env.show_uuid w.saved
      → get c.id (serve_all env rs w).saved.candidates ≡ some c
      → extract_text_from_pdf later_env (
          services.stored_object
            (serve_all env rs w).calls
            env.settings.s3_bucket_name
            (resume_key env c.id))
        ≡ ok text
      → truthy text ≡ true
      → CanProcess later_env reliable laws c (serve_all env rs w)
  row_CanProcess reliable laws c text held sound found read given =
      let (held', sound') = serve_all-IsSound env rs w held sound in
      record {
        consistent = held';
        stored = found;
        free_vector =
            IsSound-HasFreeVector later_env laws reliable c (serve_all env rs w).saved held'
              sound'.own_vectors found;
        text = text;
        readable = read;
        given = given;
      }

  -- From sound tables with a candidate, after any requests, webhooks and messages, of which any may
  -- have failed: when the candidate's message is handled while no service fails, the vector store
  -- has a key, UUID(str(u)) is u, no package raises ResumeContentError and the file has text, the
  -- row is committed as processed, and the message is deleted and counted as a success.
  pub handle_message-serve_all :
      (reliable : IsReliable later_env) (laws : QueueLaws later_env) (c : Candidate) (m : Message)
      (text : String)
      → constraints_hold w.saved ≡ true
      → IsSound env.show_uuid w.saved
      → get c.id w.saved.candidates ≡ some c
      → m.body ≡ resume_uploaded env c.id c.tenant_id
      → extract_text_from_pdf later_env (
          services.stored_object
            (serve_all env rs w).calls
            env.settings.s3_bucket_name
            (resume_key env c.id))
        ≡ ok text
      → truthy text ≡ true
      → let (result, w') = handle_message later_env m (serve_all env rs w) in
        (result ≡ ok tt)
        × (status_of c.id w'.saved ≡ some processed)
        × (earlier : List Call) × (w'.calls
            ≡ count_outcome "success" ∷ deletion later_env c m ∷ earlier)
  unfolding resume_uploaded
  handle_message-serve_all reliable laws c m text held sound found body read given =
      let w1 = serve_all env rs w in
      let kept = (serve_all-Keeps env rs w held).candidates c found in
      let row = kept.later in
      let id = get-key ⦃r = candidate_row⦄ c.id w1.saved.candidates row kept.found in
      let can =
        row_CanProcess reliable laws row text held sound
          (ap (λ i. get i w1.saved.candidates) id ∙ kept.found)
          (ap
              (λ i.
                extract_text_from_pdf later_env
                  (services.stored_object w1.calls env.settings.s3_bucket_name (resume_key env i)))
              id
            ∙ read)
          given in
      let (done, status, earlier, calls) =
        handle_message-completes later_env reliable laws row m w1 can (
          body
          ∙ ap (λ i. resume_uploaded later_env i c.tenant_id) (sym id)
          ∙ ap (resume_uploaded later_env row.id) (sym kept.tenant)) in
      (
        done,
        ap (λ i. status_of i (handle_message later_env m w1).1.saved) (sym id) ∙ status,
        earlier,
        calls,
      )
