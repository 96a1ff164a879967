-- ===== src/Session/Laws.antt =====
-- Changes of the tables of app/models/db.py beside their constraints.
use resume_screening_service.Common.{
  ◌≡◌, String, none, false, string_eq, contains, values, distinct-values-put, distinct, map, true,
  some, List, [], ◌∷◌, arith, Row, get, put, every-put, every_mono, map-put, values-put, every-get,
  get-key, sym, nat_eq, string_eq,
}
use resume_screening_service.Models.{
  Tenant, ApiKey, Candidate, Job, Plan, Subscription, MatchResult, Uuid, tenant_row, api_key_row,
  candidate_row, job_row, plan_row, subscription_row,
}
use resume_screening_service.Session.Constraints.{
  Database, refers, tenants_hold, api_keys_hold, candidates_hold, jobs_hold, subscriptions_hold,
  match_results_hold, constraints_hold,
}

module _ {ℓ} {A : Type ℓ} ⦃r : Row A⦄ where
  -- A reference survives an insertion and a change of a row.
  pub refers-cons : (x : A) (xs : List A) (k : Uuid) → refers xs k ≡ true → refers (x ∷ xs) k ≡ true
  unfolding get
  refers-cons x xs k h = ground arith

  pub refers-put :
      (x : A) (xs : List A) (k : Uuid) → refers xs k ≡ true → refers (put x xs) k ≡ true
  unfolding get put
  refers-put x [] k h = h
  refers-put x (y ∷ xs) k h = ground (arith, refers-put x xs k)

pub api_keys_hold-put :
    (ts : List Tenant) (ks : List ApiKey) (k old : ApiKey)
    → api_keys_hold ts ks ≡ true
    → get k.id ks ≡ some old
    → k.hashed_key ≡ old.hashed_key
    → k.tenant_id ≡ old.tenant_id
    → api_keys_hold ts (put k ks) ≡ true
unfolding api_keys_hold
api_keys_hold-put ts ks k old h found hashed tenant =
    rw
      (
        map-put (λ (x : ApiKey). x.id) k old ks found (sym (get-key k.id ks old found)),
        map-put (λ (x : ApiKey). x.hashed_key) k old ks found hashed,
      )
      (ground (
        arith,
        every-put (λ (x : ApiKey). refers ts x.tenant_id) k ks,
        every-get (λ (x : ApiKey). refers ts x.tenant_id) k.id ks old,
      ))

pub candidates_hold-put :
    (ts : List Tenant) (cs : List Candidate) (c old : Candidate)
    → candidates_hold ts cs ≡ true
    → get c.id cs ≡ some old
    → c.pinecone_id ≡ old.pinecone_id
    → c.tenant_id ≡ old.tenant_id
    → candidates_hold ts (put c cs) ≡ true
unfolding candidates_hold
candidates_hold-put ts cs c old h found vector tenant =
    rw
      (
        map-put (λ (x : Candidate). x.id) c old cs found (sym (get-key c.id cs old found)),
        values-put (λ (x : Candidate). x.pinecone_id) c old cs found vector,
      )
      (ground (
        arith,
        every-put (λ (x : Candidate). refers ts x.tenant_id) c cs,
        every-get (λ (x : Candidate). refers ts x.tenant_id) c.id cs old,
      ))

pub subscriptions_hold-put :
    (ts : List Tenant) (ps : List Plan) (ss : List Subscription) (s old : Subscription)
    → subscriptions_hold ts ps ss ≡ true
    → get s.id ss ≡ some old
    → s.razorpay_subscription_id ≡ old.razorpay_subscription_id
    → s.tenant_id ≡ old.tenant_id
    → s.plan_id ≡ old.plan_id
    → subscriptions_hold ts ps (put s ss) ≡ true
unfolding subscriptions_hold
subscriptions_hold-put ts ps ss s old h found remote tenant plan =
    rw
      (
        map-put (λ (x : Subscription). x.id) s old ss found (sym (get-key s.id ss old found)),
        map-put (λ (x : Subscription). x.tenant_id) s old ss found tenant,
        map-put (λ (x : Subscription). x.razorpay_subscription_id) s old ss found remote,
      )
      (ground (
        arith,
        every-put (λ (x : Subscription). refers ts x.tenant_id) s ss,
        every-get (λ (x : Subscription). refers ts x.tenant_id) s.id ss old,
        every-put (λ (x : Subscription). refers ps x.plan_id) s ss,
        every-get (λ (x : Subscription). refers ps x.plan_id) s.id ss old,
      ))

pub match_results_hold-candidate :
    (cs : List Candidate) (js : List Job) (ms : List MatchResult) (c : Candidate)
    → match_results_hold cs js ms ≡ true
    → match_results_hold (put c cs) js ms ≡ true
unfolding match_results_hold
match_results_hold-candidate cs js ms c h = ground (
  arith,
  every_mono (λ (m : MatchResult). refers cs m.candidate_id)
      (λ (m : MatchResult). refers (put c cs) m.candidate_id) (λ m. refers-put c cs m.candidate_id)
      ms,
)

-- An API key may be changed in what is no key and no reference.
pub constraints_hold-put_api_key :
    (db : Database) (k old : ApiKey)
    → constraints_hold db ≡ true
    → get k.id db.api_keys ≡ some old
    → k.hashed_key ≡ old.hashed_key
    → k.tenant_id ≡ old.tenant_id
    → constraints_hold (record db { api_keys = put k db.api_keys }) ≡ true
unfolding constraints_hold
constraints_hold-put_api_key db k old h found hashed tenant =
    ground (arith, api_keys_hold-put db.tenants db.api_keys k old)

-- So may a candidate,
pub constraints_hold-put_candidate :
    (db : Database) (c old : Candidate)
    → constraints_hold db ≡ true
    → get c.id db.candidates ≡ some old
    → c.pinecone_id ≡ old.pinecone_id
    → c.tenant_id ≡ old.tenant_id
    → constraints_hold (record db { candidates = put c db.candidates }) ≡ true
unfolding constraints_hold
constraints_hold-put_candidate db c old h found vector tenant = ground (
  arith,
  candidates_hold-put db.tenants db.candidates c old,
  match_results_hold-candidate db.candidates db.jobs db.match_results c,
)

-- and a subscription.
pub constraints_hold-put_subscription :
    (db : Database) (s old : Subscription)
    → constraints_hold db ≡ true
    → get s.id db.subscriptions ≡ some old
    → s.razorpay_subscription_id ≡ old.razorpay_subscription_id
    → s.tenant_id ≡ old.tenant_id
    → s.plan_id ≡ old.plan_id
    → constraints_hold (record db { subscriptions = put s db.subscriptions }) ≡ true
unfolding constraints_hold
constraints_hold-put_subscription db s old h found remote tenant plan =
    ground (arith, subscriptions_hold-put db.tenants db.plans db.subscriptions s old)

-- The keys of a table are distinct.
pub distinct_api_keys :
    (db : Database)
    → constraints_hold db ≡ true
    → distinct (map (λ (k : ApiKey). k.id) db.api_keys) ≡ true
unfolding constraints_hold api_keys_hold
distinct_api_keys db h = ground arith

pub distinct_hashed_keys :
    (db : Database)
    → constraints_hold db ≡ true
    → distinct (map (λ (k : ApiKey). k.hashed_key) db.api_keys) ≡ true
unfolding constraints_hold api_keys_hold
distinct_hashed_keys db h = ground arith

pub constraints_hold-tenants :
    (db : Database) → constraints_hold db ≡ true → tenants_hold db.tenants ≡ true
unfolding constraints_hold
constraints_hold-tenants db h = ground arith

pub distinct_subscriptions :
    (db : Database)
    → constraints_hold db ≡ true
    → distinct (map (λ (s : Subscription). s.id) db.subscriptions) ≡ true
unfolding constraints_hold subscriptions_hold
distinct_subscriptions db h = ground arith

pub distinct_candidates :
    (db : Database)
    → constraints_hold db ≡ true
    → distinct (map (λ (c : Candidate). c.id) db.candidates) ≡ true
unfolding constraints_hold candidates_hold
distinct_candidates db h = ground arith

pub distinct_jobs :
    (db : Database) → constraints_hold db ≡ true → distinct (map (λ (j : Job). j.id) db.jobs) ≡ true
unfolding constraints_hold jobs_hold
distinct_jobs db h = ground arith

-- A candidate with no vector may get one whose id no row has.
candidates_hold-put_vector :
    (ts : List Tenant) (cs : List Candidate) (c old : Candidate) (v : String)
    → candidates_hold ts cs ≡ true
    → get c.id cs ≡ some old
    → old.pinecone_id ≡ none
    → c.pinecone_id ≡ some v
    → contains v (values (λ (x : Candidate). x.pinecone_id) cs) ≡ false
    → c.tenant_id ≡ old.tenant_id
    → candidates_hold ts (put c cs) ≡ true
unfolding candidates_hold
candidates_hold-put_vector ts cs c old v h found was is new tenant =
    rw (map-put (λ (x : Candidate). x.id) c old cs found (sym (get-key c.id cs old found))) (
      ground (
        arith,
        distinct-values-put ⦃e = string_eq⦄ ⦃r = candidate_row⦄ (λ (x : Candidate). x.pinecone_id) v
            c old cs found was is new,
        every-put (λ (x : Candidate). refers ts x.tenant_id) c cs,
        every-get (λ (x : Candidate). refers ts x.tenant_id) c.id cs old,
      ))

pub constraints_hold-put_vector :
    (db : Database) (c old : Candidate) (v : String)
    → constraints_hold db ≡ true
    → get c.id db.candidates ≡ some old
    → old.pinecone_id ≡ none
    → c.pinecone_id ≡ some v
    → contains v (values (λ (x : Candidate). x.pinecone_id) db.candidates) ≡ false
    → c.tenant_id ≡ old.tenant_id
    → constraints_hold (record db { candidates = put c db.candidates }) ≡ true
unfolding constraints_hold
constraints_hold-put_vector db c old v h found was is new tenant = ground (
  arith,
  candidates_hold-put_vector db.tenants db.candidates c old v,
  match_results_hold-candidate db.candidates db.jobs db.match_results c,
)
