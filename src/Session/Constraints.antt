-- ===== src/Session/Constraints.antt =====
-- The tables of app/models/db.py, with their primary keys, `unique=True` columns and foreign
-- keys.
use resume_screening_service.Common.{
  Bool, none, some, ◌&&◌, List, map, Row, get, every, distinct, values, nat_eq, string_eq,
}
use resume_screening_service.Models.{
  Tenant, ApiKey, Candidate, Job, Plan, Subscription, MatchResult, Uuid, tenant_row, candidate_row,
  job_row, plan_row,
}

pub record Database : Type 0 where
  pub tenants : List Tenant
  pub api_keys : List ApiKey
  pub candidates : List Candidate
  pub jobs : List Job
  pub plans : List Plan
  pub subscriptions : List Subscription
  pub match_results : List MatchResult

-- `ForeignKey`: the row that a column refers to is there.
abbrev pub refers {ℓ} : {A : Type ℓ} ⦃r : Row A⦄ → List A → Uuid → Bool
refers rows k = elim (get k rows) [ none ↦ Bool.false | some _ ↦ Bool.true ]

unfoldable pub tenants_hold : List Tenant → Bool
tenants_hold ts =
    distinct (map (λ t. t.id) ts)
    && distinct (values (λ t. t.email) ts)
    && distinct (values (λ t. t.google_sub) ts)

unfoldable pub api_keys_hold : List Tenant → List ApiKey → Bool
api_keys_hold ts ks =
    distinct (map (λ k. k.id) ks)
    && distinct (map (λ k. k.hashed_key) ks)
    && every (λ k. refers ts k.tenant_id) ks

unfoldable pub candidates_hold : List Tenant → List Candidate → Bool
candidates_hold ts cs =
    distinct (map (λ c. c.id) cs)
    && distinct (values (λ c. c.pinecone_id) cs)
    && every (λ c. refers ts c.tenant_id) cs

unfoldable pub jobs_hold : List Tenant → List Job → Bool
jobs_hold ts js =
    distinct (map (λ j. j.id) js)
    && distinct (values (λ j. j.pinecone_id) js)
    && every (λ j. refers ts j.tenant_id) js

unfoldable pub plans_hold : List Plan → Bool
plans_hold ps = distinct (map (λ p. p.id) ps) && distinct (map (λ p. p.razorpay_plan_id) ps)

unfoldable pub subscriptions_hold : List Tenant → List Plan → List Subscription → Bool
subscriptions_hold ts ps ss =
    distinct (map (λ s. s.id) ss)
    && distinct (map (λ s. s.tenant_id) ss)
    && distinct (map (λ s. s.razorpay_subscription_id) ss)
    && every (λ s. refers ts s.tenant_id) ss
    && every (λ s. refers ps s.plan_id) ss

unfoldable pub match_results_hold : List Candidate → List Job → List MatchResult → Bool
match_results_hold cs js ms =
    distinct (map (λ m. m.id) ms)
    && every (λ m. refers cs m.candidate_id) ms
    && every (λ m. refers js m.job_id) ms

unfoldable pub constraints_hold : Database → Bool
constraints_hold db =
    tenants_hold db.tenants
    && api_keys_hold db.tenants db.api_keys
    && candidates_hold db.tenants db.candidates
    && jobs_hold db.tenants db.jobs
    && plans_hold db.plans
    && subscriptions_hold db.tenants db.plans db.subscriptions
    && match_results_hold db.candidates db.jobs db.match_results
