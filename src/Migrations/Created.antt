-- ===== src/Migrations/Created.antt =====
-- The tables that the migrations of alembic/versions create.
use resume_screening_service.Common.{String, Bool, true, false, Option, none, some, List, [], ◌∷◌}
use resume_screening_service.Migrations.{
  Kind, uuid, text, jsonb, datetime, integer, float, string, Column, ForeignKey, Named, Table,
}

abbrev pub required : String → Kind → Column
required name kind = record {
  name = name;
  kind = kind;
  nullable = false;
  server_default = none;
  stored = [];
}

abbrev pub optional : String → Kind → Column
optional name kind = record (required name kind) { nullable = true }

abbrev pub defaulted : String → Kind → String → Column
defaulted name kind default = record (required name kind) { server_default = some default }

abbrev pub unique : String → Named
unique column = record { name = none; column = column }

abbrev pub reference : Option String → String → String → Bool → ForeignKey
reference name column target cascade = record {
  name = name;
  column = column;
  target = target;
  cascade = cascade;
}

-- a table with the constraint `sa.PrimaryKeyConstraint("id")`
abbrev pub table : String → List Column → List Named → List ForeignKey → Table
table name columns uniques foreign_keys = record {
  name = name;
  columns = columns;
  primary_key = some "id";
  uniques = uniques;
  foreign_keys = foreign_keys;
  indexes = [];
  rows = 0;
}

abbrev pub candidates_of_initial : Table
candidates_of_initial =
    table "candidates"
      (required "id" uuid
        ∷ required "full_name" (string 255)
        ∷ optional "email" (string 255)
        ∷ optional "phone" (string 50)
        ∷ optional "summary" text
        ∷ required "skills" jsonb
        ∷ required "experience" jsonb
        ∷ required "education" jsonb
        ∷ optional "raw_text" text
        ∷ optional "pinecone_id" (string 255)
        ∷ defaulted "created_at" datetime "now()"
        ∷ defaulted "updated_at" datetime "now()"
        ∷ [])
      (unique "pinecone_id" ∷ []) []

abbrev pub jobs_of_initial : Table
jobs_of_initial =
    table "jobs"
      (required "id" uuid
        ∷ required "title" (string 255)
        ∷ optional "company" (string 255)
        ∷ required "description" text
        ∷ required "required_skills" jsonb
        ∷ required "preferred_skills" jsonb
        ∷ optional "pinecone_id" (string 255)
        ∷ defaulted "created_at" datetime "now()"
        ∷ defaulted "updated_at" datetime "now()"
        ∷ [])
      (unique "pinecone_id" ∷ []) []

abbrev pub match_results_of_initial : Table
match_results_of_initial =
    table "match_results"
      (required "id" uuid
        ∷ required "candidate_id" uuid
        ∷ required "job_id" uuid
        ∷ optional "vector_score" float
        ∷ optional "llm_score" float
        ∷ optional "rank" integer
        ∷ optional "explanation" text
        ∷ defaulted "created_at" datetime "now()"
        ∷ [])
      []
      (reference none "candidate_id" "candidates" false ∷ reference none "job_id" "jobs" false ∷ [])

abbrev pub tenants_of_tenancy : Table
tenants_of_tenancy =
    table "tenants"
      (required "id" uuid
        ∷ required "name" (string 255)
        ∷ defaulted "created_at" datetime "now()"
        ∷ defaulted "updated_at" datetime "now()"
        ∷ [])
      [] []

abbrev pub api_keys_of_tenancy : Table
api_keys_of_tenancy =
    table "api_keys"
      (required "id" uuid
        ∷ required "tenant_id" uuid
        ∷ required "hashed_key" (string 64)
        ∷ required "key_prefix" (string 12)
        ∷ defaulted "created_at" datetime "now()"
        ∷ optional "revoked_at" datetime
        ∷ optional "last_used_at" datetime
        ∷ [])
      (unique "hashed_key" ∷ [])
      (reference (some "fk_api_keys_tenant_id") "tenant_id" "tenants" true ∷ [])

abbrev pub plans_of_billing : Table
plans_of_billing =
    table "plans"
      (required "id" uuid
        ∷ required "name" (string 100)
        ∷ required "price" integer
        ∷ required "currency" (string 3)
        ∷ optional "monthly_resume_quota" integer
        ∷ required "razorpay_plan_id" (string 255)
        ∷ defaulted "created_at" datetime "now()"
        ∷ [])
      (unique "razorpay_plan_id" ∷ []) []

abbrev pub subscriptions_of_billing : Table
subscriptions_of_billing =
    table "subscriptions"
      (required "id" uuid
        ∷ required "tenant_id" uuid
        ∷ required "plan_id" uuid
        ∷ required "status" (string 20)
        ∷ required "razorpay_subscription_id" (string 255)
        ∷ optional "current_period_end" datetime
        ∷ defaulted "created_at" datetime "now()"
        ∷ defaulted "updated_at" datetime "now()"
        ∷ [])
      (unique "tenant_id" ∷ unique "razorpay_subscription_id" ∷ [])
      (reference (some "fk_subscriptions_tenant_id") "tenant_id" "tenants" true
        ∷ reference (some "fk_subscriptions_plan_id") "plan_id" "plans" false
        ∷ [])
