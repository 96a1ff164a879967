-- ===== src/System/Moves.antt =====
-- What one commit may do to the tables of app/models/db.py: the contract of the services.
use mathlib.Core.List.{Memᴰ}
use resume_screening_service.Common.{
  String, subst, sym, ◌<>◌, ◌≡◌, ◌⊎◌, none, some, List, ◌∷◌, ◌++◌, true, get, put,
}
use resume_screening_service.Common.Sort.Laws.{All}
use resume_screening_service.Models.{
  Uuid, Tenant, ApiKey, Candidate, CandidateStatus, pending, processing, processed, failed, Job,
  Plan, Subscription, MatchResult, candidate_row, api_key_row, subscription_row,
}
use resume_screening_service.Session.{Database, constraints_hold}

-- The three kinds of tenants: made by the operator, by a password, or by a Google account.
pub data IsAccount (t : Tenant) : Type 0 where
  by_operator : t.email ≡ none → t.hashed_password ≡ none → t.google_sub ≡ none → IsAccount t
  by_password :
      (email hashed : String)
      → t.email ≡ some email
      → t.hashed_password ≡ some hashed
      → t.google_sub ≡ none
      → IsAccount t
  by_google : (sub : String) → t.hashed_password ≡ none → t.google_sub ≡ some sub → IsAccount t

-- The diagram of `Candidate.status`, one commit at a time.
pub data Turn : CandidateStatus → CandidateStatus → Type 0 where
  start : {s : CandidateStatus} → Turn s processing
  finish : Turn processing processed
  fail : Turn processing failed

-- A match of a candidate and a job of one tenant.
pub record IsMatch (t : Uuid) (db : Database) (m : MatchResult) : Type 0 where
  pub candidate : Candidate
  pub job : Job
  pub candidate_stored : Memᴰ candidate db.candidates
  pub job_stored : Memᴰ job db.jobs
  pub candidate_own : candidate.tenant_id ≡ t
  pub job_own : job.tenant_id ≡ t
  pub of_candidate : m.candidate_id ≡ candidate.id
  pub of_job : m.job_id ≡ job.id

module _ (show_uuid : Uuid → String) where
  -- A processed candidate has a name, and its vector's id is stored.
  pub record IsIndexed (c : Candidate) : Type 0 where
    pub vector : c.status ≡ processed → c.pinecone_id ≡ some ("candidate-" <> show_uuid c.id)
    pub named : c.status ≡ processed → (name : String) × (c.full_name ≡ some name)

  -- The vector whose id a candidate has, if it has one, is its own.
  abbrev pub HasOwnVector : Candidate → Type 0
  HasOwnVector c = (c.pinecone_id ≡ none) ⊎ (c.pinecone_id ≡ some ("candidate-" <> show_uuid c.id))

  abbrev pub IsIndexedJob : Job → Type 0
  IsIndexedJob j = j.pinecone_id ≡ some ("job-" <> show_uuid j.id)

  -- One commit, of rows of the tenant `t`.
  pub data Move (t : Uuid) (db db' : Database) : Type 0 where
    tenant_added :
        (a : Tenant)
        → a.id ≡ t
        → IsAccount a
        → db' ≡ record db { tenants = a ∷ db.tenants }
        → Move t db db'
    key_added :
        (k : ApiKey)
        → k.tenant_id ≡ t
        → k.revoked_at ≡ none
        → db' ≡ record db { api_keys = k ∷ db.api_keys }
        → Move t db db'
    key_changed :
        (k old : ApiKey)
        → get k.id db.api_keys ≡ some old
        → old.tenant_id ≡ t
        → k.tenant_id ≡ t
        → k.hashed_key ≡ old.hashed_key
        → (k.revoked_at ≡ none → old.revoked_at ≡ none)
        → db' ≡ record db { api_keys = put k db.api_keys }
        → Move t db db'
    candidate_added :
        (c : Candidate)
        → c.tenant_id ≡ t
        → (c.status ≡ pending) ⊎ (c.status ≡ processed)
        → IsIndexed c
        → HasOwnVector c
        → db' ≡ record db { candidates = c ∷ db.candidates }
        → Move t db db'
    candidate_changed :
        (c old : Candidate)
        → get c.id db.candidates ≡ some old
        → old.tenant_id ≡ t
        → c.tenant_id ≡ t
        → c.created_at ≡ old.created_at
        → Turn old.status c.status
        → IsIndexed c
        → (HasOwnVector old → HasOwnVector c)
        → db' ≡ record db { candidates = put c db.candidates }
        → Move t db db'
    job_added :
        (j : Job)
        → j.tenant_id ≡ t
        → IsIndexedJob j
        → db' ≡ record db { jobs = j ∷ db.jobs }
        → Move t db db'
    matches_added :
        (ms : List MatchResult)
        → All (IsMatch t db) ms
        → db' ≡ record db { match_results = ms ++ db.match_results }
        → Move t db db'
    plan_added : (p : Plan) → db' ≡ record db { plans = p ∷ db.plans } → Move t db db'
    subscription_added :
        (s : Subscription)
        → s.tenant_id ≡ t
        → db' ≡ record db { subscriptions = s ∷ db.subscriptions }
        → Move t db db'
    subscription_changed :
        (s old : Subscription)
        → get s.id db.subscriptions ≡ some old
        → old.tenant_id ≡ t
        → s.tenant_id ≡ t
        → db' ≡ record db { subscriptions = put s db.subscriptions }
        → Move t db db'

  -- Some commits of rows of `t`, each of which the database accepts.
  pub data Moves (t : Uuid) (db : Database) : Database → Type 0 where
    here : Moves t db db
    next :
        {db1 db2 : Database}
        → Moves t db db1
        → Move t db1 db2
        → constraints_hold db2 ≡ true
        → Moves t db db2

  -- Commits of rows of any tenants.
  pub data History (db : Database) : Database → Type 0 where
    nothing : History db db
    later : {db1 db2 : Database} (t : Uuid) → History db db1 → Moves t db1 db2 → History db db2

  pub History-Moves : (t : Uuid) (db db' : Database) → Moves t db db' → History db db'
  History-Moves t db db' m = History.later t History.nothing m

  pub Moves-of_same : (t : Uuid) (db db' : Database) → db' ≡ db → Moves t db db'
  Moves-of_same t db db' e = subst (Moves t db) (sym e) Moves.here

  pub Moves-of_one :
      (t : Uuid) (db db' : Database) → Move t db db' → constraints_hold db' ≡ true → Moves t db db'
  Moves-of_one t db db' m h = Moves.next Moves.here m h

  pub Moves-trans :
      (t : Uuid) (db db1 db2 : Database) → Moves t db db1 → Moves t db1 db2 → Moves t db db2
  Moves-trans t db db1 _ m Moves.here = m
  Moves-trans t db db1 db2 m (Moves.next n one h) = Moves.next (Moves-trans t db db1 _ m n) one h

  -- Consistent tables stay so.
  pub Moves-consistent :
      (t : Uuid) (db db' : Database)
      → constraints_hold db ≡ true
      → Moves t db db'
      → constraints_hold db' ≡ true
  Moves-consistent t db _ held Moves.here = held
  Moves-consistent t db db' held (Moves.next m one h) = h

  pub History-trans : (db db1 db2 : Database) → History db db1 → History db1 db2 → History db db2
  History-trans db db1 _ h History.nothing = h
  History-trans db db1 db2 h (History.later t k m) = History.later t (History-trans db db1 _ h k) m

  pub History-consistent :
      (db db' : Database)
      → constraints_hold db ≡ true
      → History db db'
      → constraints_hold db' ≡ true
  History-consistent db _ held History.nothing = held
  History-consistent db db' held (History.later t h m) =
      Moves-consistent t _ db' (History-consistent db _ held h) m

  -- What every commit keeps, every sequence of commits keeps.
  module _ (R : Database → Database → Type 0) (same : (db : Database) → R db db)
      (trans : (db db1 db2 : Database) → R db db1 → R db1 db2 → R db db2)
      (one : (t : Uuid) (db db' : Database)
        → constraints_hold db ≡ true
        → constraints_hold db' ≡ true
        → Move t db db'
        → R db db') where
    Moves-closed :
        (t : Uuid) (db db' : Database) → constraints_hold db ≡ true → Moves t db db' → R db db'
    Moves-closed t db _ held Moves.here = same db
    Moves-closed t db db' held (Moves.next m n held') =
        trans db _ db' (Moves-closed t db _ held m)
          (one t _ db' (Moves-consistent t db _ held m) held' n)

    pub History-closed :
        (db db' : Database) → constraints_hold db ≡ true → History db db' → R db db'
    History-closed db _ held History.nothing = same db
    History-closed db db' held (History.later t h m) =
        trans db _ db' (History-closed db _ held h)
          (Moves-closed t _ db' (History-consistent db _ held h) m)
