-- ===== src/System/Keeps.antt =====
-- What a change of a row of app/models/db.py keeps of the candidates, the keys and the jobs.
use resume_screening_service.Common.{
  none, some, ◌≡◌, inl, inr, sym, subst, ap, refl, get, put, get-key, get-put_self, get-put_ne,
  ◌==◌, nat_eq, eq_of_==, Bool-cases, arith, ◌∙◌,
}
use resume_screening_service.Models.{
  ApiKey, Candidate, CandidateStatus, Job, candidate_row, job_row, api_key_row,
}
use resume_screening_service.Session.{Database}
use resume_screening_service.System.Moves.{Turn}

-- Some steps of the diagram of `Candidate.status`.
pub data Turns (s : CandidateStatus) : CandidateStatus → Type 0 where
  still : Turns s s
  turn : {s1 s2 : CandidateStatus} → Turns s s1 → Turn s1 s2 → Turns s s2

pub Turns-trans : (s s1 s2 : CandidateStatus) → Turns s s1 → Turns s1 s2 → Turns s s2
Turns-trans s s1 _ m Turns.still = m
Turns-trans s s1 s2 m (Turns.turn n one) = Turns.turn (Turns-trans s s1 _ m n) one

-- The row of a candidate is there, with its tenant and its time, further in the diagram.
pub record Advances (c : Candidate) (db : Database) : Type 0 where
  pub later : Candidate
  pub found : get c.id db.candidates ≡ some later
  pub tenant : later.tenant_id ≡ c.tenant_id
  pub created : later.created_at ≡ c.created_at
  pub turns : Turns c.status later.status

-- The row of a key is there, with its tenant and its hash, and is revoked if it was.
pub record StaysRevoked (k : ApiKey) (db : Database) : Type 0 where
  pub later : ApiKey
  pub found : get k.id db.api_keys ≡ some later
  pub tenant : later.tenant_id ≡ k.tenant_id
  pub hashed : later.hashed_key ≡ k.hashed_key
  pub revoked : later.revoked_at ≡ none → k.revoked_at ≡ none

-- Every row of the first tables is in the second ones.
pub record Keeps (db db' : Database) : Type 0 where
  pub candidates : (c : Candidate) → get c.id db.candidates ≡ some c → Advances c db'
  pub api_keys : (k : ApiKey) → get k.id db.api_keys ≡ some k → StaysRevoked k db'
  pub jobs : (j : Job) → get j.id db.jobs ≡ some j → get j.id db'.jobs ≡ some j

pub Advances-same :
    (c : Candidate) (db : Database) → get c.id db.candidates ≡ some c → Advances c db
Advances-same c db found = record {
  later = c;
  found = found;
  tenant = refl;
  created = refl;
  turns = Turns.still;
}

pub StaysRevoked-same :
    (k : ApiKey) (db : Database) → get k.id db.api_keys ≡ some k → StaysRevoked k db
StaysRevoked-same k db found = record {
  later = k;
  found = found;
  tenant = refl;
  hashed = refl;
  revoked = λ e. e;
}

pub Keeps-same : (db : Database) → Keeps db db
Keeps-same db = record {
  candidates = λ c found. Advances-same c db found;
  api_keys = λ k found. StaysRevoked-same k db found;
  jobs = λ j found. found;
}

pub Keeps-trans : (db db1 db2 : Database) → Keeps db db1 → Keeps db1 db2 → Keeps db db2
Keeps-trans db db1 db2 h k = record {
  candidates = λ c found.
      let a = h.candidates c found in
      let id = get-key ⦃r = candidate_row⦄ c.id db1.candidates a.later a.found in
      let b = k.candidates a.later (ap (λ i. get i db1.candidates) id ∙ a.found) in
      record {
        later = b.later;
        found = ap (λ i. get i db2.candidates) (sym id) ∙ b.found;
        tenant = b.tenant ∙ a.tenant;
        created = b.created ∙ a.created;
        turns = Turns-trans c.status a.later.status b.later.status a.turns b.turns;
      };
  api_keys = λ x found.
      let a = h.api_keys x found in
      let id = get-key ⦃r = api_key_row⦄ x.id db1.api_keys a.later a.found in
      let b = k.api_keys a.later (ap (λ i. get i db1.api_keys) id ∙ a.found) in
      record {
        later = b.later;
        found = ap (λ i. get i db2.api_keys) (sym id) ∙ b.found;
        tenant = b.tenant ∙ a.tenant;
        hashed = b.hashed ∙ a.hashed;
        revoked = λ e. a.revoked (b.revoked e);
      };
  jobs = λ j found. k.jobs j (h.jobs j found);
}

module _ (db db' : Database) where
  pub same_candidates :
      db'.candidates ≡ db.candidates
      → (c : Candidate) → get c.id db.candidates ≡ some c
      → Advances c db'
  same_candidates e c found = Advances-same c db' (ap (get c.id) e ∙ found)

  pub same_keys :
      db'.api_keys ≡ db.api_keys → (k : ApiKey) → get k.id db.api_keys ≡ some k → StaysRevoked k db'
  same_keys e k found = StaysRevoked-same k db' (ap (get k.id) e ∙ found)

  pub same_jobs :
      db'.jobs ≡ db.jobs → (j : Job) → get j.id db.jobs ≡ some j → get j.id db'.jobs ≡ some j
  same_jobs e j found = ap (get j.id) e ∙ found

  -- a change of a candidate
  pub put_candidate :
      (x old : Candidate)
      → db'.candidates ≡ put x db.candidates
      → get x.id db.candidates ≡ some old
      → x.tenant_id ≡ old.tenant_id
      → x.created_at ≡ old.created_at
      → Turn old.status x.status
      → (c : Candidate) → get c.id db.candidates ≡ some c
      → Advances c db'
  put_candidate x old e was tenant created one c found = elim (Bool-cases (x.id == c.id)) [
    | inl same ↦
        let id = eq_of_== ⦃e = nat_eq⦄ x.id c.id same in
        let is_old : old ≡ c = cc (sym was ∙ ap (λ i. get i db.candidates) id ∙ found) in
        record {
          later = x;
          found =
              ap (get c.id) e
              ∙ subst (λ i. get i (put x db.candidates) ≡ some x) id
                  (get-put_self ⦃r = candidate_row⦄ x old db.candidates was);
          tenant = tenant ∙ ap (λ y. y.tenant_id) is_old;
          created = created ∙ ap (λ y. y.created_at) is_old;
          turns = subst (λ y. Turns y.status x.status) is_old (Turns.turn Turns.still one);
        }
    | inr ne ↦ Advances-same c db' (
        ap (get c.id) e
        ∙ get-put_ne ⦃r = candidate_row⦄ c.id x db.candidates (λ (i : x.id ≡ c.id). ground arith)
        ∙ found)
  ]

  -- a change of a key
  pub put_key :
      (x old : ApiKey)
      → db'.api_keys ≡ put x db.api_keys
      → get x.id db.api_keys ≡ some old
      → x.tenant_id ≡ old.tenant_id
      → x.hashed_key ≡ old.hashed_key
      → (x.revoked_at ≡ none → old.revoked_at ≡ none)
      → (k : ApiKey) → get k.id db.api_keys ≡ some k
      → StaysRevoked k db'
  put_key x old e was tenant hashed live k found = elim (Bool-cases (x.id == k.id)) [
    | inl same ↦
        let id = eq_of_== ⦃e = nat_eq⦄ x.id k.id same in
        let is_old : old ≡ k = cc (sym was ∙ ap (λ i. get i db.api_keys) id ∙ found) in
        record {
          later = x;
          found =
              ap (get k.id) e
              ∙ subst (λ i. get i (put x db.api_keys) ≡ some x) id
                  (get-put_self ⦃r = api_key_row⦄ x old db.api_keys was);
          tenant = tenant ∙ ap (λ y. y.tenant_id) is_old;
          hashed = hashed ∙ ap (λ y. y.hashed_key) is_old;
          revoked = λ r. sym (ap (λ y. y.revoked_at) is_old) ∙ live r;
        }
    | inr ne ↦ StaysRevoked-same k db' (
        ap (get k.id) e
        ∙ get-put_ne ⦃r = api_key_row⦄ k.id x db.api_keys (λ (i : x.id ≡ k.id). ground arith)
        ∙ found)
  ]
