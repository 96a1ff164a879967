-- ===== src/System/Matches.antt =====
-- The rows of `match_results` (app/models/db.py): each is of one tenant, and stays so.
use resume_screening_service.Common.{
  some, List, ◌∷◌, ◌≡◌, inl, inr, sym, subst, ap, true, get, put, get-put_self, get-put_ne,
  get-cons_old, get_of_Memᴰ, ◌==◌, nat_eq, eq_of_==, Bool-cases, arith, ◌∙◌, distinct, map,
}
use resume_screening_service.Common.Sort.Laws.{All, All-mono}
use resume_screening_service.Models.{
  Uuid, api_key_row, subscription_row, Candidate, Job, MatchResult, candidate_row, job_row,
}
use resume_screening_service.Session.{Database, constraints_hold}
use resume_screening_service.Session.Laws.{distinct_candidates, distinct_jobs}
use resume_screening_service.System.Moves.{IsMatch}

-- A row of `match_results` is of a stored candidate and a stored job of one tenant.
pub record IsOwnMatch (db : Database) (m : MatchResult) : Type 0 where
  pub candidate : Candidate
  pub job : Job
  pub candidate_found : get m.candidate_id db.candidates ≡ some candidate
  pub job_found : get m.job_id db.jobs ≡ some job
  pub one_tenant : candidate.tenant_id ≡ job.tenant_id

-- A match stays one when a row is added, or a candidate is changed.
pub IsOwnMatch-add_candidate :
    (db : Database) (c : Candidate) (m : MatchResult)
    → distinct (map (λ (x : Candidate). x.id) (c ∷ db.candidates)) ≡ true
    → IsOwnMatch db m
    → IsOwnMatch (record db { candidates = c ∷ db.candidates }) m
IsOwnMatch-add_candidate db c m d h = record {
  candidate = h.candidate;
  job = h.job;
  candidate_found =
      get-cons_old ⦃r = candidate_row⦄ m.candidate_id c h.candidate db.candidates d
        h.candidate_found;
  job_found = h.job_found;
  one_tenant = h.one_tenant;
}

pub IsOwnMatch-add_job :
    (db : Database) (j : Job) (m : MatchResult)
    → distinct (map (λ (x : Job). x.id) (j ∷ db.jobs)) ≡ true
    → IsOwnMatch db m
    → IsOwnMatch (record db { jobs = j ∷ db.jobs }) m
IsOwnMatch-add_job db j m d h = record {
  candidate = h.candidate;
  job = h.job;
  candidate_found = h.candidate_found;
  job_found = get-cons_old ⦃r = job_row⦄ m.job_id j h.job db.jobs d h.job_found;
  one_tenant = h.one_tenant;
}

pub IsOwnMatch-put_candidate :
    (db : Database) (c old : Candidate) (m : MatchResult)
    → get c.id db.candidates ≡ some old
    → c.tenant_id ≡ old.tenant_id
    → IsOwnMatch db m
    → IsOwnMatch (record db { candidates = put c db.candidates }) m
IsOwnMatch-put_candidate db c old m found tenant h = elim (Bool-cases (c.id == m.candidate_id)) [
  | inl same ↦
      let id = eq_of_== ⦃e = nat_eq⦄ c.id m.candidate_id same in
      let is_old : old ≡ h.candidate =
        cc (sym found ∙ ap (λ i. get i db.candidates) id ∙ h.candidate_found) in
      record {
        candidate = c;
        job = h.job;
        candidate_found =
            subst (λ i. get i (put c db.candidates) ≡ some c) id
              (get-put_self ⦃r = candidate_row⦄ c old db.candidates found);
        job_found = h.job_found;
        one_tenant = tenant ∙ ap (λ x. x.tenant_id) is_old ∙ h.one_tenant;
      }
  | inr ne ↦ record {
    candidate = h.candidate;
    job = h.job;
    candidate_found =
        get-put_ne ⦃r = candidate_row⦄ m.candidate_id c db.candidates
          (λ (e : c.id ≡ m.candidate_id). ground arith)
        ∙ h.candidate_found;
    job_found = h.job_found;
    one_tenant = h.one_tenant;
  }
]

pub IsOwnMatch-of_IsMatch :
    (t : Uuid) (db : Database) (m : MatchResult)
    → constraints_hold db ≡ true
    → IsMatch t db m
    → IsOwnMatch db m
IsOwnMatch-of_IsMatch t db m held h = record {
  candidate = h.candidate;
  job = h.job;
  candidate_found =
      ap (λ i. get i db.candidates) h.of_candidate
      ∙ get_of_Memᴰ ⦃r = candidate_row⦄ h.candidate db.candidates (distinct_candidates db held)
          h.candidate_stored;
  job_found =
      ap (λ i. get i db.jobs) h.of_job
      ∙ get_of_Memᴰ ⦃r = job_row⦄ h.job db.jobs (distinct_jobs db held) h.job_stored;
  one_tenant = h.candidate_own ∙ sym h.job_own;
}

-- the same candidates and jobs
pub IsOwnMatch-same :
    (db db' : Database) (ms : List MatchResult)
    → db.candidates ≡ db'.candidates
    → db.jobs ≡ db'.jobs
    → All (IsOwnMatch db) ms
    → All (IsOwnMatch db') ms
IsOwnMatch-same db db' ms cs js h =
    All-mono (IsOwnMatch db) (IsOwnMatch db')
      (λ m own. record {
        candidate = own.candidate;
        job = own.job;
        candidate_found =
            subst (λ xs. get m.candidate_id xs ≡ some own.candidate) cs own.candidate_found;
        job_found = subst (λ xs. get m.job_id xs ≡ some own.job) js own.job_found;
        one_tenant = own.one_tenant;
      })
      ms h
