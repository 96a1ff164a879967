-- ===== src/Embeddings/Tables.antt =====
-- The tables around app/services/embeddings.py, resume_parser.py and ingestion.py.
use resume_screening_service.Common.{
  String, List, arith, inl, inr, ⊤, Bool, true, false, if◌then◌else◌,
}
use resume_screening_service.Common.Int.{ℤ}
use resume_screening_service.Errors.{Exn, ok, Result-cases}
use resume_screening_service.Services.{Bytes, Call, Env}
use resume_screening_service.Models.{Uuid}
use resume_screening_service.Session.{
  World, Action, SameTables, pure, gets, raise_if, perform, ◌>>=◌,
}
use resume_screening_service.Embeddings.{
  client, embed_text, make_index, ensure_index, index, upsert_candidate, upsert_job,
  query_similar_candidates,
}
use resume_screening_service.ResumeParser.{parse_resume_pdf}
use resume_screening_service.Ingestion.{upload_resume_and_enqueue}

-- `m` works on no table, whether it returns or raises.
pub record KeepsTables {ℓ} {A : Type ℓ} (m : Action A) : Type 0 where
  pub same : (w : World) → SameTables w (m w).1

module _ {ℓ κ} {A : Type ℓ} {B : Type κ} where
  pub KeepsTables-bind :
      (m : Action A) (f : A → Action B)
      → KeepsTables m
      → ((a : A) → KeepsTables (f a))
      → KeepsTables (m >>= f)
  KeepsTables-bind m f km kf = record {
    same = λ w. elim (Result-cases (m w).0) [
      | inl (a, e) ↦ ground (arith, km.same w, (kf a).same (m w).1)
      | inr (x, e) ↦ ground (arith, km.same w)
    ];
  }

pub KeepsTables-pure {ℓ} : {A : Type ℓ} (a : A) → KeepsTables (pure a)
KeepsTables-pure a = record { same = λ w. ground arith }

pub KeepsTables-gets {ℓ} : {A : Type ℓ} (f : World → A) → KeepsTables (gets f)
KeepsTables-gets f = record { same = λ w. ground arith }

pub KeepsTables-raise_if : (b : Bool) (e : Exn) → KeepsTables (raise_if b e)
KeepsTables-raise_if b e = record { same = λ w. ground arith }

pub KeepsTables-if {ℓ} :
    {A : Type ℓ} (b : Bool) (m n : Action A)
    → KeepsTables m
    → KeepsTables n
    → KeepsTables (if b then m else n)
KeepsTables-if true m n km kn = km
KeepsTables-if false m n km kn = kn

pub ruleset keeps_rules =
    (KeepsTables-bind, KeepsTables-pure, KeepsTables-gets, KeepsTables-raise_if, KeepsTables-if)

module _ (env : Env) where
  pub KeepsTables-perform : (c : Call) → KeepsTables (perform env c)
  KeepsTables-perform c = record { same = λ w. ground arith }

  KeepsTables-client : KeepsTables (client env)
  unfolding client
  KeepsTables-client = record { same = λ w. ground arith }

  KeepsTables-embed_text : (text : String) → KeepsTables (embed_text env text)
  unfolding embed_text
  KeepsTables-embed_text text = record { same = λ w. ground arith }

  KeepsTables-make_index : KeepsTables (make_index env)
  unfolding make_index
  KeepsTables-make_index = record { same = λ w. ground arith }

  KeepsTables-ensure_index : KeepsTables (ensure_index env)
  unfolding ensure_index
  KeepsTables-ensure_index =
      search (keeps_rules, KeepsTables-client, KeepsTables-perform, KeepsTables-make_index) depth 9

  KeepsTables-index_ready : KeepsTables {A = ⊤} (λ w. (ok tt, record w { index_ready = true }))
  KeepsTables-index_ready = record { same = λ w. ground arith }

  KeepsTables-index : KeepsTables (index env)
  unfolding index
  KeepsTables-index =
      search
        (
          keeps_rules, KeepsTables-client, KeepsTables-perform, KeepsTables-ensure_index,
          KeepsTables-index_ready,
        )
        depth 12

  -- So do the calls of the vector store.
  pub KeepsTables-upsert_candidate :
      (id text : String) (metadata : List (String × String)) (namespace : String)
      → KeepsTables (upsert_candidate env id text metadata namespace)
  unfolding upsert_candidate
  KeepsTables-upsert_candidate id text metadata namespace =
      search (keeps_rules, KeepsTables-embed_text, KeepsTables-index, KeepsTables-perform) depth 9

  pub KeepsTables-upsert_job :
      (id text : String) (metadata : List (String × String)) (namespace : String)
      → KeepsTables (upsert_job env id text metadata namespace)
  unfolding upsert_job
  KeepsTables-upsert_job id text metadata namespace =
      search (keeps_rules, KeepsTables-embed_text, KeepsTables-index, KeepsTables-perform) depth 9

  pub KeepsTables-query_similar_candidates :
      (text namespace : String) (top_k : ℤ)
      → KeepsTables (query_similar_candidates env text namespace top_k)
  unfolding query_similar_candidates
  KeepsTables-query_similar_candidates text namespace top_k =
      search (keeps_rules, KeepsTables-embed_text, KeepsTables-index, KeepsTables-perform) depth 9

  -- Reading a resume changes no row.
  pub KeepsTables-parse_resume_pdf :
      (file_bytes : Bytes) → KeepsTables (parse_resume_pdf env file_bytes)
  unfolding parse_resume_pdf
  KeepsTables-parse_resume_pdf file_bytes = record { same = λ w. ground arith }

  pub KeepsTables-upload :
      (candidate_id tenant_id : Uuid) (file_bytes : Bytes)
      → KeepsTables (upload_resume_and_enqueue env candidate_id tenant_id file_bytes)
  unfolding upload_resume_and_enqueue
  KeepsTables-upload candidate_id tenant_id file_bytes = record { same = λ w. ground arith }
