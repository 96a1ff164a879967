-- ===== src/Migrations/Metadata.antt =====
-- The tables as app/models/db.py declares them (`Base.metadata`), and what it is for the tables of
-- the database to agree with them.
use resume_screening_service.Common.{
  String, Bool, true, false, Option, none, some, List, [], ◌∷◌, not, ◌&&◌, is_none, nat_beq, length,
  find, every, ◌==◌, string_eq, map,
}
use resume_screening_service.Migrations.{
  Kind, uuid, text, jsonb, datetime, integer, float, string, Column, ForeignKey, Named, Table,
  Schema, among,
}
use resume_screening_service.Migrations.Created.{required, optional, defaulted, unique, reference}

-- a table with the primary key `id`, and with the columns that have `index=True`
abbrev pub declared : String → List Column → List Named → List ForeignKey → List Named → Table
declared name columns uniques foreign_keys indexes = record {
  name = name;
  columns = columns;
  primary_key = some "id";
  uniques = uniques;
  foreign_keys = foreign_keys;
  indexes = indexes;
  rows = 0;
}

abbrev pub tenants_declared : Table
tenants_declared =
    declared "tenants"
      (required "id" uuid
        ∷ required "name" (string 255)
        ∷ optional "email" (string 255)
        ∷ optional "hashed_password" (string 255)
        ∷ optional "google_sub" (string 255)
        ∷ defaulted "created_at" datetime "now()"
        ∷ defaulted "updated_at" datetime "now()"
        ∷ [])
      (unique "email" ∷ unique "google_sub" ∷ []) [] []

abbrev pub api_keys_declared : Table
api_keys_declared =
    declared "api_keys"
      (required "id" uuid
        ∷ required "tenant_id" uuid
        ∷ required "hashed_key" (string 64)
        ∷ required "key_prefix" (string 12)
        ∷ defaulted "created_at" datetime "now()"
        ∷ optional "revoked_at" datetime
        ∷ optional "last_used_at" datetime
        ∷ [])
      (unique "hashed_key" ∷ []) (reference none "tenant_id" "tenants" true ∷ [])
      (unique "tenant_id" ∷ [])

abbrev pub candidates_declared : Table
candidates_declared =
    declared "candidates"
      (required "id" uuid
        ∷ required "tenant_id" uuid
        ∷ optional "full_name" (string 255)
        ∷ optional "email" (string 255)
        ∷ optional "phone" (string 50)
        ∷ optional "summary" text
        ∷ required "skills" jsonb
        ∷ required "experience" jsonb
        ∷ required "education" jsonb
        ∷ optional "raw_text" text
        ∷ optional "pinecone_id" (string 255)
        ∷ defaulted "status" (string 20) "processed"
        ∷ defaulted "created_at" datetime "now()"
        ∷ defaulted "updated_at" datetime "now()"
        ∷ [])
      (unique "pinecone_id" ∷ []) (reference none "tenant_id" "tenants" true ∷ [])
      (unique "tenant_id" ∷ [])

abbrev pub jobs_declared : Table
jobs_declared =
    declared "jobs"
      (required "id" uuid
        ∷ required "tenant_id" uuid
        ∷ required "title" (string 255)
        ∷ optional "company" (string 255)
        ∷ required "description" text
        ∷ required "required_skills" jsonb
        ∷ required "preferred_skills" jsonb
        ∷ optional "pinecone_id" (string 255)
        ∷ defaulted "created_at" datetime "now()"
        ∷ defaulted "updated_at" datetime "now()"
        ∷ [])
      (unique "pinecone_id" ∷ []) (reference none "tenant_id" "tenants" true ∷ [])
      (unique "tenant_id" ∷ [])

abbrev pub plans_declared : Table
plans_declared =
    declared "plans"
      (required "id" uuid
        ∷ required "name" (string 100)
        ∷ required "price" integer
        ∷ required "currency" (string 3)
        ∷ optional "monthly_resume_quota" integer
        ∷ defaulted "duration_months" integer "1"
        ∷ required "razorpay_plan_id" (string 255)
        ∷ defaulted "created_at" datetime "now()"
        ∷ [])
      (unique "razorpay_plan_id" ∷ []) [] []

abbrev pub subscriptions_declared : Table
subscriptions_declared =
    declared "subscriptions"
      (required "id" uuid
        ∷ required "tenant_id" uuid
        ∷ required "plan_id" uuid
        ∷ required "status" (string 20)
        ∷ required "razorpay_subscription_id" (string 255)
        ∷ optional "current_period_end" datetime
        ∷ defaulted "created_at" datetime "now()"
        ∷ defaulted "updated_at" datetime "now()"
        ∷ [])
      (unique "tenant_id" ∷ unique "razorpay_subscription_id" ∷ [])
      (reference none "tenant_id" "tenants" true ∷ reference none "plan_id" "plans" false ∷ []) []

abbrev pub match_results_declared : Table
match_results_declared =
    declared "match_results"
      (required "id" uuid
        ∷ required "candidate_id" uuid
        ∷ required "job_id" uuid
        ∷ optional "vector_score" float
        ∷ optional "llm_score" float
        ∷ optional "rank" integer
        ∷ optional "explanation" text
        ∷ defaulted "created_at" datetime "now()"
        ∷ [])
      []
      (reference none "candidate_id" "candidates" false ∷ reference none "job_id" "jobs" false ∷ [])
      []

abbrev pub metadata : Schema
metadata =
    tenants_declared ∷ api_keys_declared ∷ candidates_declared ∷ jobs_declared ∷ plans_declared
    ∷ subscriptions_declared ∷ match_results_declared ∷ []

abbrev pub same_kind : Kind → Kind → Bool
same_kind uuid uuid = true
same_kind text text = true
same_kind jsonb jsonb = true
same_kind datetime datetime = true
same_kind integer integer = true
same_kind float float = true
same_kind (string m) (string n) = nat_beq m n
same_kind _ _ = false

abbrev pub same_flag : Bool → Bool → Bool
same_flag true b = b
same_flag false b = not b

-- two server defaults, or two primary keys
abbrev pub same_text : Option String → Option String → Bool
same_text none o = is_none o
same_text (some x) o = elim o [ none ↦ false | some y ↦ x == y ]

-- the columns are equal, but for their order and their rows
abbrev pub same_columns : List Column → List Column → Bool
same_columns cs ds =
    nat_beq (length cs) (length ds)
    && every
        (λ (c : Column). elim (find (λ (d : Column). d.name == c.name) ds) [
          | none ↦ false
          | some d ↦
              same_kind c.kind d.kind
              && same_flag c.nullable d.nullable
              && same_text c.server_default d.server_default
        ])
        cs

-- the constraints are equal, but for their order and their names
abbrev pub same_named : List Named → List Named → Bool
same_named xs ys =
    nat_beq (length xs) (length ys)
    && every (λ (x : Named). among x.column (map (λ (y : Named). y.column) ys)) xs

abbrev pub same_references : List ForeignKey → List ForeignKey → Bool
same_references xs ys =
    nat_beq (length xs) (length ys)
    && every
        (λ (x : ForeignKey). elim (find (λ (y : ForeignKey). y.column == x.column) ys) [
          | none ↦ false
          | some y ↦ x.target == y.target && same_flag x.cascade y.cascade
        ])
        xs

-- the tables are those of the other side, with equal columns, primary keys, constraints and
-- indexes
abbrev pub agrees : Schema → Schema → Bool
agrees s s' =
    nat_beq (length s) (length s')
    && every
        (λ (t : Table). elim (find (λ (u : Table). u.name == t.name) s') [
          | none ↦ false
          | some u ↦
              same_columns t.columns u.columns
              && same_text t.primary_key u.primary_key
              && same_named t.uniques u.uniques
              && same_references t.foreign_keys u.foreign_keys
              && same_named t.indexes u.indexes
        ])
        s
