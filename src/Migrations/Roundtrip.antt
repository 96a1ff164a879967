-- ===== src/Migrations/Roundtrip.antt =====
-- Each migration of alembic/versions and its downgrade, on tables with any rows.
use resume_screening_service.Common.{
  ℕ, zero, suc, String, Bool, true, false, Option, none, some, List, [], ◌++◌, ◌≡◌, map, refl,
  arith, not, ◌||◌, is_none, every, find, select, distinct, contains, values, string_eq,
}
use resume_screening_service.Migrations.{Column, Table, Schema, Op, run, copies, emptied}
use resume_screening_service.Migrations.Revisions.{
  Revision, upgrade, downgrade, upgrade_initial, upgrade_tenancy, upgrade_status, upgrade_billing,
}

-- the operations before a revision
abbrev pub earlier : Revision → List Op
earlier Revision.initial = []
earlier Revision.tenancy = upgrade_initial
earlier Revision.status = upgrade_initial ++ upgrade_tenancy
earlier Revision.billing = upgrade_initial ++ (upgrade_tenancy ++ upgrade_status)
earlier Revision.tenant_auth =
    upgrade_initial ++ (upgrade_tenancy ++ (upgrade_status ++ upgrade_billing))

-- the tables that a revision finds, without rows
abbrev pub before : Revision → Schema
before r = elim (run (earlier r) []) [ none ↦ [] | some s ↦ s ]

-- Any rows: how many each table has, and the values of each column.
pub record Contents : Type 0 where
  pub count : String → ℕ
  pub stored : String → String → List (Option String)

abbrev pub filled_column : Contents → String → Column → Column
filled_column d n c = record c { stored = d.stored n c.name }

abbrev pub filled_table : Contents → Table → Table
filled_table d t = record t {
  columns = map (filled_column d t.name) t.columns;
  rows = d.count t.name;
}

-- tables with these rows
abbrev pub filled : Contents → Schema → Schema
filled d = map (filled_table d)

abbrev pub no_null : List (Option String) → Bool
no_null = every (λ v. not (is_none v))

-- No row has NULL in a column that is NOT NULL.
abbrev pub not_null_holds : Schema → Bool
not_null_holds =
    every (λ (t : Table). every (λ (c : Column). c.nullable || no_null c.stored) t.columns)

-- what is left of the rows after a migration and its downgrade
abbrev pub kept : Revision → Schema → Schema
kept Revision.tenancy s = map emptied s
kept _ s = s

-- A new column has no value that is not NULL.
pub values-copies : (n : ℕ) → values {A = Option String} (λ v. v) (copies n none) ≡ []
values-copies zero = refl
values-copies (suc n) = values-copies n

full_name_holds :
    (d : Contents)
    → not_null_holds (filled d (before Revision.status)) ≡ true
    → no_null (d.stored "candidates" "full_name") ≡ true
unfolding find select every distinct contains
full_name_holds d h = ground arith

-- Whatever rows the tables of a revision have, as long as none has NULL in a column that is NOT
-- NULL: the migration is accepted, and so is its downgrade after it, which brings back the tables
-- with all of their columns, primary keys, constraints, indexes and rows; only 11d5ffa87cbb empties
-- them.
pub downgrade-upgrade :
    (r : Revision) (d : Contents)
    → not_null_holds (filled d (before r)) ≡ true
    → run (upgrade r ++ downgrade r) (filled d (before r)) ≡ some (kept r (filled d (before r)))
unfolding find select every distinct contains
downgrade-upgrade Revision.initial d h = refl
downgrade-upgrade Revision.tenancy d h = refl
downgrade-upgrade Revision.status d h = rw (full_name_holds d h) refl
downgrade-upgrade Revision.billing d h = refl
downgrade-upgrade Revision.tenant_auth d h =
    let new = values-copies (d.count "tenants") in rw (new, new) refl

-- The downgrade of 6bf8f532381d is refused, with any rows, as soon as a candidate has no name.
pub downgrade_status-refused :
    (d : Contents)
    → no_null (d.stored "candidates" "full_name") ≡ false
    → run (downgrade Revision.status) (filled d (before Revision.billing)) ≡ none
unfolding find select every distinct contains
downgrade_status-refused d h = rw h refl
