-- ===== src/System/Rows.antt =====
-- No row of app/models/db.py is lost, and what a commit may change of one.
use resume_screening_service.Common.{
  String, some, List, ◌≡◌, sym, ap, true, get, get-cons_old, nat_eq, ◌∙◌,
}
use resume_screening_service.Models.{
  Uuid, Instant, ApiKey, Candidate, candidate_row, job_row, api_key_row,
}
use resume_screening_service.Services.{Env}
use resume_screening_service.Session.{World, Database, constraints_hold}
use resume_screening_service.Session.Laws.{distinct_candidates, distinct_jobs, distinct_api_keys}
use resume_screening_service.System.{Request, serve_all}
use resume_screening_service.System.Histories.{serve_all-History}
use resume_screening_service.System.Moves.{Move, History-closed}
use resume_screening_service.System.Keeps.{
  Advances, Advances-same, StaysRevoked, StaysRevoked-same, Keeps, Keeps-same, Keeps-trans,
  same_candidates, same_keys, same_jobs, put_candidate, put_key,
}

module _ (db db' : Database) where
  -- the candidates and jobs are as they were
  Keeps-of_keys :
      db'.candidates ≡ db.candidates
      → db'.jobs ≡ db.jobs
      → ((k : ApiKey) → get k.id db.api_keys ≡ some k → StaysRevoked k db')
      → Keeps db db'
  Keeps-of_keys cs js keys = record {
    candidates = same_candidates db db' cs;
    api_keys = keys;
    jobs = same_jobs db db' js;
  }

  Keeps-of_candidates :
      db'.api_keys ≡ db.api_keys
      → db'.jobs ≡ db.jobs
      → ((c : Candidate) → get c.id db.candidates ≡ some c → Advances c db')
      → Keeps db db'
  Keeps-of_candidates ks js candidates = record {
    candidates = candidates;
    api_keys = same_keys db db' ks;
    jobs = same_jobs db db' js;
  }

  Keeps-of_same :
      db'.candidates ≡ db.candidates
      → db'.api_keys ≡ db.api_keys
      → db'.jobs ≡ db.jobs
      → Keeps db db'
  Keeps-of_same cs ks js = Keeps-of_keys cs js (same_keys db db' ks)

  Move-Keeps :
      (show_uuid : Uuid → String) (t : Uuid)
      → constraints_hold db' ≡ true
      → Move show_uuid t db db'
      → Keeps db db'
  Move-Keeps show_uuid t held (Move.tenant_added a _ _ e) =
      Keeps-of_same (ap (λ x. x.candidates) e) (ap (λ x. x.api_keys) e) (ap (λ x. x.jobs) e)
  Move-Keeps show_uuid t held (Move.key_added k _ _ e) =
      Keeps-of_keys (ap (λ x. x.candidates) e) (ap (λ x. x.jobs) e) (λ x found.
        StaysRevoked-same x db' (
          ap (λ y. get x.id y.api_keys) e
          ∙ get-cons_old ⦃r = api_key_row⦄ x.id k x db.api_keys
              (distinct_api_keys _ (ap constraints_hold (sym e) ∙ held)) found))
  Move-Keeps show_uuid t held (Move.key_changed k old found was own hashed live e) =
      Keeps-of_keys (ap (λ x. x.candidates) e) (ap (λ x. x.jobs) e)
        (put_key db db' k old (ap (λ x. x.api_keys) e) found (own ∙ sym was) hashed live)
  Move-Keeps show_uuid t held (Move.candidate_added c _ _ _ _ e) =
      Keeps-of_candidates (ap (λ x. x.api_keys) e) (ap (λ x. x.jobs) e) (λ x found.
        Advances-same x db' (
          ap (λ y. get x.id y.candidates) e
          ∙ get-cons_old ⦃r = candidate_row⦄ x.id c x db.candidates
              (distinct_candidates _ (ap constraints_hold (sym e) ∙ held)) found))
  Move-Keeps show_uuid t held (Move.candidate_changed c old found was own created one _ _ e) =
      Keeps-of_candidates (ap (λ x. x.api_keys) e) (ap (λ x. x.jobs) e)
        (put_candidate db db' c old (ap (λ x. x.candidates) e) found (own ∙ sym was) created one)
  Move-Keeps show_uuid t held (Move.job_added j _ _ e) = record {
    candidates = same_candidates db db' (ap (λ x. x.candidates) e);
    api_keys = same_keys db db' (ap (λ x. x.api_keys) e);
    jobs = λ x found.
        ap (λ y. get x.id y.jobs) e
        ∙ get-cons_old ⦃r = job_row⦄ x.id j x db.jobs
            (distinct_jobs _ (ap constraints_hold (sym e) ∙ held)) found;
  }
  Move-Keeps show_uuid t held (Move.matches_added _ _ e) =
      Keeps-of_same (ap (λ x. x.candidates) e) (ap (λ x. x.api_keys) e) (ap (λ x. x.jobs) e)
  Move-Keeps show_uuid t held (Move.plan_added _ e) =
      Keeps-of_same (ap (λ x. x.candidates) e) (ap (λ x. x.api_keys) e) (ap (λ x. x.jobs) e)
  Move-Keeps show_uuid t held (Move.subscription_added _ _ e) =
      Keeps-of_same (ap (λ x. x.candidates) e) (ap (λ x. x.api_keys) e) (ap (λ x. x.jobs) e)
  Move-Keeps show_uuid t held (Move.subscription_changed _ _ _ _ _ e) =
      Keeps-of_same (ap (λ x. x.candidates) e) (ap (λ x. x.api_keys) e) (ap (λ x. x.jobs) e)

-- No sequence of requests, webhooks and messages loses a candidate, a key or a job: the job is as
-- it was; the key has its tenant and its hash and is revoked if it was; the candidate has its
-- tenant and its time, and its status is further in the diagram.
pub serve_all-Keeps :
    (env : Env) (rs : List (Instant × Request)) (w : World)
    → constraints_hold w.saved ≡ true
    → Keeps w.saved (serve_all env rs w).saved
serve_all-Keeps env rs w held =
    History-closed env.show_uuid Keeps Keeps-same Keeps-trans
      (λ t db db' _ held' m. Move-Keeps db db' env.show_uuid t held' m) w.saved
      (serve_all env rs w).saved held (serve_all-History env rs w held)
