-- ===== src/Migrations/Revisions.antt =====
-- The migrations of alembic/versions, by their revisions.
use resume_screening_service.Common.{true, false, Option, none, some, List, [], ◌∷◌}
use resume_screening_service.Migrations.{
  uuid, integer, string, Op, create_table, drop_table, add_column, drop_column, alter_column,
  create_index, drop_index, create_unique_constraint, create_foreign_key, drop_constraint, truncate,
}
use resume_screening_service.Migrations.Created.{
  required, optional, defaulted, reference, candidates_of_initial, jobs_of_initial,
  match_results_of_initial, tenants_of_tenancy, api_keys_of_tenancy, plans_of_billing,
  subscriptions_of_billing,
}

-- revision cb36370cdbb9
abbrev pub upgrade_initial : List Op
upgrade_initial =
    create_table candidates_of_initial
    ∷ create_table jobs_of_initial
    ∷ create_table match_results_of_initial
    ∷ []

abbrev pub downgrade_initial : List Op
downgrade_initial = drop_table "match_results" ∷ drop_table "jobs" ∷ drop_table "candidates" ∷ []

-- revision 11d5ffa87cbb
abbrev pub upgrade_tenancy : List Op
upgrade_tenancy =
    create_table tenants_of_tenancy
    ∷ create_table api_keys_of_tenancy
    ∷ create_index "ix_api_keys_tenant_id" "api_keys" "tenant_id"
    ∷ truncate ("match_results" ∷ "candidates" ∷ "jobs" ∷ [])
    ∷ add_column "candidates" (required "tenant_id" uuid)
    ∷ create_index "ix_candidates_tenant_id" "candidates" "tenant_id"
    ∷ create_foreign_key "candidates"
        (reference (some "fk_candidates_tenant_id") "tenant_id" "tenants" true)
    ∷ add_column "jobs" (required "tenant_id" uuid)
    ∷ create_index "ix_jobs_tenant_id" "jobs" "tenant_id"
    ∷ create_foreign_key "jobs" (reference (some "fk_jobs_tenant_id") "tenant_id" "tenants" true)
    ∷ []

abbrev pub downgrade_tenancy : List Op
downgrade_tenancy =
    drop_constraint "fk_jobs_tenant_id" "jobs"
    ∷ drop_index "ix_jobs_tenant_id" "jobs"
    ∷ drop_column "jobs" "tenant_id"
    ∷ drop_constraint "fk_candidates_tenant_id" "candidates"
    ∷ drop_index "ix_candidates_tenant_id" "candidates"
    ∷ drop_column "candidates" "tenant_id"
    ∷ drop_index "ix_api_keys_tenant_id" "api_keys"
    ∷ drop_table "api_keys"
    ∷ drop_table "tenants"
    ∷ []

-- revision 6bf8f532381d
abbrev pub upgrade_status : List Op
upgrade_status =
    add_column "candidates" (defaulted "status" (string 20) "processed")
    ∷ alter_column "candidates" "full_name" true
    ∷ []

abbrev pub downgrade_status : List Op
downgrade_status =
    alter_column "candidates" "full_name" false ∷ drop_column "candidates" "status" ∷ []

-- revision e0566164803f
abbrev pub upgrade_billing : List Op
upgrade_billing = create_table plans_of_billing ∷ create_table subscriptions_of_billing ∷ []

abbrev pub downgrade_billing : List Op
downgrade_billing = drop_table "subscriptions" ∷ drop_table "plans" ∷ []

-- revision f1a2b3c4d5e6
abbrev pub upgrade_tenant_auth : List Op
upgrade_tenant_auth =
    add_column "tenants" (optional "email" (string 255))
    ∷ add_column "tenants" (optional "hashed_password" (string 255))
    ∷ add_column "tenants" (optional "google_sub" (string 255))
    ∷ create_unique_constraint "uq_tenants_email" "tenants" "email"
    ∷ create_unique_constraint "uq_tenants_google_sub" "tenants" "google_sub"
    ∷ add_column "plans" (defaulted "duration_months" integer "1")
    ∷ []

abbrev pub downgrade_tenant_auth : List Op
downgrade_tenant_auth =
    drop_column "plans" "duration_months"
    ∷ drop_constraint "uq_tenants_google_sub" "tenants"
    ∷ drop_constraint "uq_tenants_email" "tenants"
    ∷ drop_column "tenants" "google_sub"
    ∷ drop_column "tenants" "hashed_password"
    ∷ drop_column "tenants" "email"
    ∷ []

-- The revisions, each of which names the one before it as its `down_revision`.
pub data Revision : Type 0 where
  initial tenancy status billing tenant_auth : Revision

abbrev pub down_revision : Revision → Option Revision
down_revision Revision.initial = none
down_revision Revision.tenancy = some Revision.initial
down_revision Revision.status = some Revision.tenancy
down_revision Revision.billing = some Revision.status
down_revision Revision.tenant_auth = some Revision.billing

abbrev pub upgrade : Revision → List Op
upgrade Revision.initial = upgrade_initial
upgrade Revision.tenancy = upgrade_tenancy
upgrade Revision.status = upgrade_status
upgrade Revision.billing = upgrade_billing
upgrade Revision.tenant_auth = upgrade_tenant_auth

abbrev pub downgrade : Revision → List Op
downgrade Revision.initial = downgrade_initial
downgrade Revision.tenancy = downgrade_tenancy
downgrade Revision.status = downgrade_status
downgrade Revision.billing = downgrade_billing
downgrade Revision.tenant_auth = downgrade_tenant_auth
