-- ===== src/Session/Inserts.antt =====
-- Rows added to the tables of app/models/db.py beside the constraints.
use resume_screening_service.Common.{
  none, every, contains-keys, ◌≡◌, distinct, true, List, ◌∷◌, arith, get, every_mono, nat_eq,
  string_eq,
}
use resume_screening_service.Models.{
  Tenant, ApiKey, Candidate, Job, Plan, Subscription, MatchResult, tenant_row, api_key_row,
  candidate_row, job_row, plan_row, subscription_row,
}
use resume_screening_service.Session.Constraints.{
  Database, refers, tenants_hold, api_keys_hold, candidates_hold, jobs_hold, subscriptions_hold,
  match_results_hold, constraints_hold,
}
use resume_screening_service.Session.Laws.{refers-cons}

module _ (t : Tenant) (ts : List Tenant) where
  pub api_keys_hold-tenant :
      (ks : List ApiKey) → api_keys_hold ts ks ≡ true → api_keys_hold (t ∷ ts) ks ≡ true
  unfolding api_keys_hold
  api_keys_hold-tenant ks h = ground (
    arith,
    every_mono (λ (k : ApiKey). refers ts k.tenant_id) (λ (k : ApiKey). refers (t ∷ ts) k.tenant_id)
        (λ k. refers-cons t ts k.tenant_id) ks,
  )

  pub candidates_hold-tenant :
      (cs : List Candidate) → candidates_hold ts cs ≡ true → candidates_hold (t ∷ ts) cs ≡ true
  unfolding candidates_hold
  candidates_hold-tenant cs h = ground (
    arith,
    every_mono (λ (c : Candidate). refers ts c.tenant_id)
        (λ (c : Candidate). refers (t ∷ ts) c.tenant_id) (λ c. refers-cons t ts c.tenant_id) cs,
  )

  pub jobs_hold-tenant : (js : List Job) → jobs_hold ts js ≡ true → jobs_hold (t ∷ ts) js ≡ true
  unfolding jobs_hold
  jobs_hold-tenant js h = ground (
    arith,
    every_mono (λ (j : Job). refers ts j.tenant_id) (λ (j : Job). refers (t ∷ ts) j.tenant_id)
        (λ j. refers-cons t ts j.tenant_id) js,
  )

  pub subscriptions_hold-tenant :
      (ps : List Plan) (ss : List Subscription)
      → subscriptions_hold ts ps ss ≡ true
      → subscriptions_hold (t ∷ ts) ps ss ≡ true
  unfolding subscriptions_hold
  subscriptions_hold-tenant ps ss h = ground (
    arith,
    every_mono (λ (s : Subscription). refers ts s.tenant_id)
        (λ (s : Subscription). refers (t ∷ ts) s.tenant_id) (λ s. refers-cons t ts s.tenant_id) ss,
  )

-- A tenant may be added whose key, email and Google account are new.
pub constraints_hold-add_tenant :
    (db : Database) (t : Tenant)
    → constraints_hold db ≡ true
    → tenants_hold (t ∷ db.tenants) ≡ true
    → constraints_hold (record db { tenants = t ∷ db.tenants }) ≡ true
unfolding constraints_hold
constraints_hold-add_tenant db t h k = ground (
  arith,
  api_keys_hold-tenant t db.tenants db.api_keys,
  candidates_hold-tenant t db.tenants db.candidates,
  jobs_hold-tenant t db.tenants db.jobs,
  subscriptions_hold-tenant t db.tenants db.plans db.subscriptions,
)

match_results_hold-new_candidate :
    (c : Candidate) (cs : List Candidate) (js : List Job) (ms : List MatchResult)
    → match_results_hold cs js ms ≡ true
    → match_results_hold (c ∷ cs) js ms ≡ true
unfolding match_results_hold
match_results_hold-new_candidate c cs js ms h = ground (
  arith,
  every_mono (λ (m : MatchResult). refers cs m.candidate_id)
      (λ (m : MatchResult). refers (c ∷ cs) m.candidate_id) (λ m. refers-cons c cs m.candidate_id)
      ms,
)

candidates_hold-new :
    (ts : List Tenant) (cs : List Candidate) (c : Candidate)
    → candidates_hold ts cs ≡ true
    → get c.id cs ≡ none
    → refers ts c.tenant_id ≡ true
    → c.pinecone_id ≡ none
    → candidates_hold ts (c ∷ cs) ≡ true
unfolding candidates_hold distinct every
candidates_hold-new ts cs c h fresh owned unindexed =
    rw unindexed (ground (arith, contains-keys ⦃r = candidate_row⦄ c.id cs))

-- A candidate may be added that has a new key, no vector, and a tenant of the tables.
pub constraints_hold-add_candidate :
    (db : Database) (c : Candidate)
    → constraints_hold db ≡ true
    → get c.id db.candidates ≡ none
    → refers db.tenants c.tenant_id ≡ true
    → c.pinecone_id ≡ none
    → constraints_hold (record db { candidates = c ∷ db.candidates }) ≡ true
unfolding constraints_hold
constraints_hold-add_candidate db c h fresh owned unindexed = ground (
  arith,
  candidates_hold-new db.tenants db.candidates c,
  match_results_hold-new_candidate c db.candidates db.jobs db.match_results,
)
