-- ===== src/Worker/Process.antt =====
-- `_process_message` of app/worker.py on the message of an upload: the row of the candidate.
use resume_screening_service.Common.{
  String, ◌≡◌, inl, inr, refl, sym, ap, subst, ◌∙◌, ◌∷◌, [], List, Bool, true, false, Option, none,
  some, ⊤, ◌&&◌, ◌==◌, ==-refl, nat_eq, arith, find, get, get-put_self, Bool-cases,
}
use resume_screening_service.Errors.{Exn, resume_content, Result, ok, raised}
use resume_screening_service.Models.{
  Uuid, Candidate, CandidateStatus, processed, failed, candidate_row,
}
use resume_screening_service.Services.{Bytes, Call, get_object, Env}
use resume_screening_service.Session.{
  World, Database, Action, constraints_hold, perform, in_session, ◌>>=◌,
}
use resume_screening_service.Repositories.{get_candidate_by_id}
use resume_screening_service.Ingestion.{resume_key}
use resume_screening_service.Candidates.{process_found, process_pending_candidate}
use resume_screening_service.Candidates.Process.{Processed, process_found-Processed}
use resume_screening_service.Candidates.Index.{with_candidate}
use resume_screening_service.Worker.{field, process_in_session, process_message, mark_status}

abbrev pub is_content : Exn → Bool
is_content (resume_content _) = true
is_content _ = false

-- What the code relies on: `UUID(str(u))` is `u`, and no package raises the program's own
-- ResumeContentError.
pub record QueueLaws (env : Env) : Type 0 where
  pub parse-show : (u : Uuid) → env.parse_uuid (env.show_uuid u) ≡ some u
  pub foreign :
      (before : List Call) (c : Call) (e : Exn)
      → env.services.failure before c ≡ some e
      → is_content e ≡ false

-- the status of a row
abbrev pub status_of : Uuid → Database → Option CandidateStatus
status_of id db = elim (get id db.candidates) [ none ↦ none | some c ↦ some c.status ]

find_of_get :
    (c : Candidate) (cs : List Candidate)
    → get c.id cs ≡ some c
    → find (λ (x : Candidate). x.id == c.id && x.tenant_id == c.tenant_id) cs ≡ some c
unfolding find get
find_of_get c [] h = absurd (cc)
find_of_get c (x ∷ cs) h = elim (Bool-cases (x.id == c.id)) [
  | inl e ↦
      let same : x ≡ c = ground arith in
      let id = ==-refl ⦃e = nat_eq⦄ c.id in
      let tenant = ==-refl ⦃e = nat_eq⦄ c.tenant_id in ground arith
  | inr e ↦ ground (arith, find_of_get c cs)
]

-- What is committed for a row when a part of the worker ends.
abbrev pub Handles {ℓ} : {A : Type ℓ} → Uuid → Result A × World → Type 0
Handles id (ok _, w) = status_of id w.saved ≡ some processed
Handles id (raised (resume_content _), w) = status_of id w.saved ≡ some failed
Handles id (raised _, w) = ⊤

Handles-of_foreign :
    (id : Uuid) (e : Exn) (w : World) → is_content e ≡ false → Handles {A = ⊤} id (raised e, w)
Handles-of_foreign id (resume_content _) w h = absurd (cc)
Handles-of_foreign id _ w h = tt

Handles-closed :
    (id : Uuid) (o : Result ⊤ × World)
    → Handles id o
    → Handles {A = ⊤} id (o.0, record o.1 { db = o.1.saved })
Handles-closed id (ok _, w) h = h
Handles-closed id (raised (resume_content _), w) h = h
Handles-closed id (raised _, w) h = tt

module _ (env : Env) (c : Candidate) where
  status_of_stored :
      (x : Candidate) (db saved : Database)
      → get c.id db.candidates ≡ some c
      → x.id ≡ c.id
      → saved ≡ with_candidate x db
      → status_of c.id saved ≡ some x.status
  status_of_stored x db saved found same e =
      let there =
        get-put_self ⦃r = candidate_row⦄ x c db.candidates
          (ap (λ i. get i db.candidates) same ∙ found) in
      let at_id =
        ap (λ i. get i saved.candidates) (sym same) ∙ ap (λ d. get x.id d.candidates) e ∙ there in
      rw (status_of, at_id) refl

  Handles-of_Processed :
      (file_bytes : Bytes) (db : Database) (o : Result ⊤ × World)
      → get c.id db.candidates ≡ some c
      → Processed env c file_bytes db o
      → Handles c.id o
  Handles-of_Processed file_bytes db (ok _, w) found (done, filled, e) =
      status_of_stored done db w.saved found filled.id e ∙ ap some filled.status
  Handles-of_Processed file_bytes db (raised (resume_content _), w) found e =
      status_of_stored (record c { status = failed }) db w.saved found refl e
  Handles-of_Processed file_bytes db (raised _, w) found e = tt

module _ (env : Env) (laws : QueueLaws env) (c : Candidate) where
  -- after a call, the code goes on, or a foreign exception leaves the world with the call
  abbrev pub called : Call → World → World
  called call w = record w { calls = call ∷ w.calls }

  pub perform_then :
      (P : Result ⊤ × World → Type 0) (call : Call) (k : Action ⊤) (w : World)
      → ((e : Exn) → is_content e ≡ false → P (raised e, called call w))
      → P (k (called call w))
      → P ((perform env call >>= λ x. k) w)
  perform_then P call k w stop next = pick (env.services.failure w.calls call) refl
    where
      pick :
          (f : Option Exn)
          → env.services.failure w.calls call ≡ f
          → P (
              (λ (o : Result ⊤ × World). elim o.0 as (λ _. Result ⊤ × World) [
                | ok x ↦ k o.1
                | raised e ↦ (raised e, o.1)
              ])
                (elim f as (λ _. Result ⊤ × World) [
                  | none ↦ (ok tt, called call w)
                  | some e ↦ (raised e, called call w)
                ]))
      pick none e = next
      pick (some x) e = stop x (laws.foreign w.calls call x e)

  pub process_found_in_session :
      (file_bytes : Bytes) (w : World)
      → get c.id w.db.candidates ≡ some c
      → process_in_session env (env.show_uuid c.tenant_id) (env.show_uuid c.id) file_bytes w
        ≡ process_found env c.tenant_id c file_bytes w
  unfolding process_pending_candidate get_candidate_by_id
  process_found_in_session file_bytes w found =
      let wanted = find_of_get c w.db.candidates found in
      rw (laws.parse-show c.tenant_id, laws.parse-show c.id, wanted) refl

  -- the session of `_process_message`
  abbrev pub session_part : Bytes → Action ⊤
  session_part file_bytes =
      in_session
        (process_in_session env (env.show_uuid c.tenant_id) (env.show_uuid c.id) file_bytes)

  session_part-Handles :
      (file_bytes : Bytes) (w : World)
      → constraints_hold w.saved ≡ true
      → get c.id w.saved.candidates ≡ some c
      → Handles c.id (session_part file_bytes w)
  session_part-Handles file_bytes w h found =
      let w0 = record w { db = w.saved } in
      subst (λ (o : Result ⊤ × World). Handles c.id (o.0, record o.1 { db = o.1.saved }))
        (sym (process_found_in_session file_bytes w0 found))
        (Handles-closed c.id (process_found env c.tenant_id c file_bytes w0) (
          Handles-of_Processed env c file_bytes w.saved
            (process_found env c.tenant_id c file_bytes w0) found
            (process_found-Processed env c.tenant_id c file_bytes w0 h found)))

  perform_last :
      (P : Result ⊤ × World → Type 0) (call : Call) (w : World)
      → ((e : Exn) → is_content e ≡ false → P (raised e, called call w))
      → P (ok tt, called call w)
      → P (perform env call w)
  perform_last P call w stop next = pick (env.services.failure w.calls call) refl
    where
      pick :
          (f : Option Exn)
          → env.services.failure w.calls call ≡ f
          → P (elim f as (λ _. Result ⊤ × World) [
            | none ↦ (ok tt, called call w)
            | some e ↦ (raised e, called call w)
          ])
      pick none e = next
      pick (some x) e = stop x (laws.foreign w.calls call x e)

  session_and_mark-Handles :
      (file_bytes : Bytes) (w : World)
      → constraints_hold w.saved ≡ true
      → get c.id w.saved.candidates ≡ some c
      → Handles c.id
          ((session_part file_bytes >>= λ x. mark_status env (env.show_uuid c.id) "ai-processed") w)
  session_and_mark-Handles file_bytes w h found =
      pick (session_part file_bytes w) (session_part-Handles file_bytes w h found)
    where
      pick :
          (o : Result ⊤ × World)
          → Handles c.id o
          → Handles c.id (elim o.0 as (λ _. Result ⊤ × World) [
            | ok x ↦ mark_status env (env.show_uuid c.id) "ai-processed" o.1
            | raised e ↦ (raised e, o.1)
          ])
      pick (ok x, w1) done =
          perform_last (Handles c.id) _ w1 (λ e foreign. Handles-of_foreign c.id e _ foreign) done
      pick (raised e, w1) done = done

  -- the fields of the message
  abbrev pub fields : List (String × String)
  fields =
      ("candidate_id", env.show_uuid c.id)
      ∷ ("tenant_id", env.show_uuid c.tenant_id)
      ∷ ("s3_bucket", env.settings.s3_bucket_name)
      ∷ ("s3_key", resume_key env c.id)
      ∷ []

  pub process_message-Handles :
      (w : World)
      → constraints_hold w.saved ≡ true
      → get c.id w.saved.candidates ≡ some c
      → Handles c.id (process_message env fields w)
  unfolding process_message field
  process_message-Handles w h found =
      let bucket = env.settings.s3_bucket_name in
      let key = resume_key env c.id in
      let file_bytes = env.services.stored_object w.calls bucket key in
      perform_then (Handles c.id) (get_object bucket key)
        (session_part file_bytes >>= λ x. mark_status env (env.show_uuid c.id) "ai-processed") w
        (λ e foreign. Handles-of_foreign c.id e _ foreign)
        (session_and_mark-Handles file_bytes (called (get_object bucket key) w) h found)
