-- ===== src/Responses/Secrets.antt =====
-- What the answers of app/routers do not tell: the columns of app/models/db.py that
-- app/models/schemas.py leaves out.
use resume_screening_service.Common.{
  ℕ, zero, suc, Bool, Option, none, some, List, [], ◌∷◌, ◌≡◌, refl, ap, ◌∙◌, map, take, drop, find,
  select, get, arith, ◌==◌, ◌&&◌, nat_eq,
}
use resume_screening_service.Common.Int.{ℤ}
use resume_screening_service.Common.Sort.{sort_desc, insert_desc}
use resume_screening_service.Models.{Tenant, ApiKey, Candidate, Job, tenant_row}
use resume_screening_service.Session.{Database, World, or_raise}
use resume_screening_service.Errors.{Exn, ok}
use resume_screening_service.Admin
use resume_screening_service.Candidates
use resume_screening_service.Jobs
use resume_screening_service.Repositories.{
  list_all_candidates, list_all_jobs, get_candidate_by_id, get_job_by_id,
}
use resume_screening_service.Responses.{
  Reading, Answer, answer, read, tenant_response, api_key_response, candidate_response,
  job_response,
}

abbrev pub without_credentials : Tenant → Tenant
without_credentials t = record t { hashed_password = none; google_sub = none }

abbrev pub without_hash : ApiKey → ApiKey
without_hash k = record k { hashed_key = "" }

abbrev pub without_text : Candidate → Candidate
without_text c = record c { raw_text = none; pinecone_id = none }

abbrev pub without_vector : Job → Job
without_vector j = record j { pinecone_id = none }

-- the tables without the hashes, the Google ids, the texts of the files and the ids of the vectors
abbrev pub scrubbed : Database → Database
scrubbed db = record db {
  tenants = map without_credentials db.tenants;
  api_keys = map without_hash db.api_keys;
  candidates = map without_text db.candidates;
  jobs = map without_vector db.jobs;
}

module _ {A : Type 0} (s : A → A) where
  take-map : (n : ℕ) (xs : List A) → take n (map s xs) ≡ map s (take n xs)
  take-map zero xs = refl
  take-map (suc n) [] = refl
  take-map (suc n) (x ∷ xs) = ap (λ ys. s x ∷ ys) (take-map n xs)

  drop-map : (n : ℕ) (xs : List A) → drop n (map s xs) ≡ map s (drop n xs)
  drop-map zero xs = refl
  drop-map (suc n) [] = refl
  drop-map (suc n) (x ∷ xs) = drop-map n xs

  map-same :
      {B : Type 0} (f : A → B)
      → ((x : A) → f (s x) ≡ f x)
      → (xs : List A) → map f (map s xs) ≡ map f xs
  map-same f same [] = refl
  map-same f same (x ∷ xs) = cc (same x, map-same f same xs)

  module _ (p : A → Bool) (same : (x : A) → p (s x) ≡ p x) where
    select-map : (xs : List A) → select p (map s xs) ≡ map s (select p xs)
    unfolding select
    select-map [] = refl
    select-map (x ∷ xs) = ground (arith, same x, select-map xs)

    find-map :
        (xs : List A) → find p (map s xs) ≡ elim (find p xs) [ none ↦ none | some x ↦ some (s x) ]
    unfolding find
    find-map [] = refl
    find-map (x ∷ xs) = ground (arith, same x, find-map xs)

  module _ (key : A → ℤ) (same : (x : A) → key (s x) ≡ key x) where
    insert-map :
        (x : A) (xs : List A) → insert_desc key (s x) (map s xs) ≡ map s (insert_desc key x xs)
    unfolding insert_desc
    insert-map x [] = refl
    insert-map x (y ∷ ys) = rw (same x, same y) (ground (arith, insert-map x ys))

    sort-map : (xs : List A) → sort_desc key (map s xs) ≡ map s (sort_desc key xs)
    unfolding sort_desc
    sort-map [] = refl
    sort-map (x ∷ xs) = ap (insert_desc key (s x)) (sort-map xs) ∙ insert-map x (sort_desc key xs)

module _ {A B : Type 0} (s : A → A) (f : A → B) (same_answer : (x : A) → f (s x) ≡ f x) where
  -- a list, latest first
  sorted-same :
      (p : A → Bool) (key : A → ℤ)
      → ((x : A) → p (s x) ≡ p x)
      → ((x : A) → key (s x) ≡ key x)
      → (xs : List A)
      → map f (sort_desc key (select p (map s xs))) ≡ map f (sort_desc key (select p xs))
  sorted-same p key same_test same_key xs =
      ap (λ ys. map f (sort_desc key ys)) (select-map s p same_test xs)
      ∙ ap (map f) (sort-map s key same_key (select p xs))
      ∙ map-same s f same_answer (sort_desc key (select p xs))

  page-same :
      (limit offset : ℕ) (key : A → ℤ)
      → ((x : A) → key (s x) ≡ key x)
      → (xs : List A)
      → map f (take limit (drop offset (sort_desc key (map s xs))))
        ≡ map f (take limit (drop offset (sort_desc key xs)))
  page-same limit offset key same_key xs =
      let sorted = sort_desc key xs in
      ap (λ ys. map f (take limit (drop offset ys))) (sort-map s key same_key xs)
      ∙ ap (λ ys. map f (take limit ys)) (drop-map s offset sorted)
      ∙ ap (map f) (take-map s limit (drop offset sorted))
      ∙ map-same s f same_answer (take limit (drop offset sorted))

  -- a row, or the exception for a missing one
  row-same :
      (e : Exn) (p : A → Bool)
      → ((x : A) → p (s x) ≡ p x)
      → (xs : List A) (w w' : World)
      → answer f (or_raise (find p (map s xs)) e) w' ≡ answer f (or_raise (find p xs) e) w
  row-same e p same_test xs w w' =
      ap (λ (o : Option A). answer f (or_raise o e) w') (find-map s p same_test xs)
      ∙ pick (find p xs)
    where
      pick :
          (o : Option A)
          → answer f
              (or_raise (elim o as (λ _. Option A) [ none ↦ none | some x ↦ some (s x) ]) e)
              w'
            ≡ answer f (or_raise o e) w
      pick none = refl
      pick (some x) = ap ok (same_answer x)

-- No answer of a route that reads depends on the hash of a password or of an API key, on a Google
-- id, on the text of a resume, or on the id of a vector: on the tables without them it is the same.
pub read-scrubbed : (r : Reading) (w : World) → read r (record w { db = scrubbed w.db }) ≡ read r w
unfolding read Admin.list_tenants Admin.get_tenant Admin.list_api_keys list_all_candidates
    Candidates.get_candidate get_candidate_by_id list_all_jobs Jobs.get_job get_job_by_id get
read-scrubbed (Reading.tenants limit offset) w =
    ap (λ x. Answer.of_tenants (ok x))
      (page-same without_credentials tenant_response (λ t. refl) limit offset (λ t. t.created_at)
        (λ t. refl) w.db.tenants)
read-scrubbed (Reading.tenant id) w = ap Answer.of_tenant (
    row-same without_credentials tenant_response (λ t. refl) Admin.tenant_not_found
      (λ t. t.id == id) (λ t. refl) w.db.tenants w (record w { db = scrubbed w.db }))
read-scrubbed (Reading.api_keys id) w =
    ap (λ x. Answer.of_api_keys (ok x))
      (sorted-same without_hash api_key_response (λ k. refl) (λ k. k.tenant_id == id)
        (λ k. k.created_at) (λ k. refl) (λ k. refl) w.db.api_keys)
read-scrubbed (Reading.candidates t) w =
    ap (λ x. Answer.of_candidates (ok x))
      (sorted-same without_text candidate_response (λ c. refl) (λ c. c.tenant_id == t)
        (λ c. c.created_at) (λ c. refl) (λ c. refl) w.db.candidates)
read-scrubbed (Reading.candidate t id) w = ap Answer.of_candidate (
    row-same without_text candidate_response (λ c. refl) Candidates.candidate_not_found
      (λ c. c.id == id && c.tenant_id == t) (λ c. refl) w.db.candidates w
      (record w { db = scrubbed w.db }))
read-scrubbed (Reading.jobs t) w =
    ap (λ x. Answer.of_jobs (ok x))
      (sorted-same without_vector job_response (λ j. refl) (λ j. j.tenant_id == t)
        (λ j. j.created_at) (λ j. refl) (λ j. refl) w.db.jobs)
read-scrubbed (Reading.job t id) w = ap Answer.of_job (
    row-same without_vector job_response (λ j. refl) Jobs.job_not_found
      (λ j. j.id == id && j.tenant_id == t) (λ j. refl) w.db.jobs w
      (record w { db = scrubbed w.db }))
