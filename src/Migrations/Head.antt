-- ===== src/Migrations/Head.antt =====
-- The migrations of alembic/versions up to the newest one, beside app/models/db.py.
use resume_screening_service.Common.{
  Bool, true, false, Option, none, some, List, ◌++◌, ◌≡◌, refl, every, find, select, distinct,
  contains, string_eq,
}
use resume_screening_service.Migrations.{Schema, Op, run}
use resume_screening_service.Migrations.Revisions.{
  Revision, upgrade_initial, upgrade_tenancy, upgrade_status, upgrade_billing, upgrade_tenant_auth,
}
use resume_screening_service.Migrations.Metadata.{metadata, agrees}
use resume_screening_service.Migrations.Roundtrip.{Contents, before, filled, values-copies}

-- `alembic upgrade head` from a revision on
abbrev pub to_head : Revision → List Op
to_head Revision.tenant_auth = upgrade_tenant_auth
to_head Revision.billing = upgrade_billing ++ upgrade_tenant_auth
to_head Revision.status = upgrade_status ++ (upgrade_billing ++ upgrade_tenant_auth)
to_head Revision.tenancy =
    upgrade_tenancy ++ (upgrade_status ++ (upgrade_billing ++ upgrade_tenant_auth))
to_head Revision.initial =
    upgrade_initial
    ++ (upgrade_tenancy ++ (upgrade_status ++ (upgrade_billing ++ upgrade_tenant_auth)))

-- the tables that are reached agree with the models
abbrev pub reaches_models : Option Schema → Bool
reaches_models none = false
reaches_models (some s) = agrees s metadata

-- From whatever revision, and with whatever rows in its tables, the migrations up to the newest one
-- are all accepted, and reach the tables that the models declare: the same columns, types, defaults,
-- primary keys, NOT NULL and unique constraints, foreign keys and indexes.
pub to_head-reaches_models :
    (r : Revision) (d : Contents) → reaches_models (run (to_head r) (filled d (before r))) ≡ true
unfolding find select every distinct contains
to_head-reaches_models Revision.initial d = refl
to_head-reaches_models Revision.tenancy d = refl
to_head-reaches_models Revision.status d =
    let new = values-copies (d.count "tenants") in rw (new, new) refl
to_head-reaches_models Revision.billing d =
    let new = values-copies (d.count "tenants") in rw (new, new) refl
to_head-reaches_models Revision.tenant_auth d =
    let new = values-copies (d.count "tenants") in rw (new, new) refl
