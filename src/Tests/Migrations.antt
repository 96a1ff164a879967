-- ===== src/Tests/Migrations.antt =====
-- The migrations on tables with rows.
use resume_screening_service.Common.{
  ◌≡◌, refl, true, false, none, some, [], ◌∷◌, ◌++◌, every, find, select, distinct, contains, ◌==◌,
  string_eq, ◌&&◌, if◌then◌else◌,
}
use resume_screening_service.Migrations.{run}
use resume_screening_service.Migrations.Revisions.{Revision, upgrade, downgrade}
use resume_screening_service.Migrations.Roundtrip.{
  Contents, before, filled, no_null, not_null_holds, downgrade-upgrade, downgrade_status-refused,
}
use resume_screening_service.Migrations.Head.{to_head, reaches_models, to_head-reaches_models}

-- two rows in each table; the second candidate has no name if `anonymous`
abbrev named_rows : Contents
named_rows = record { count = λ table. 2; stored = λ table column. some "a" ∷ some "b" ∷ [] }

abbrev unnamed_rows : Contents
unnamed_rows = record {
  count = λ table. 2;
  stored = λ table column.
      if table == "candidates" && column == "full_name"
      then some "a" ∷ none ∷ []
      else some "a" ∷ some "b" ∷ [];
}

not_null : not_null_holds (filled named_rows (before Revision.status)) ≡ true
unfolding every find select distinct contains
not_null = refl

downgrade-upgrade_example :
    run
      (upgrade Revision.status ++ downgrade Revision.status)
      (filled named_rows (before Revision.status))
    ≡ some (filled named_rows (before Revision.status))
downgrade-upgrade_example = downgrade-upgrade Revision.status named_rows not_null

unnamed : no_null (unnamed_rows.stored "candidates" "full_name") ≡ false
unfolding every
unnamed = refl

downgrade_status-refused_example :
    run (downgrade Revision.status) (filled unnamed_rows (before Revision.billing)) ≡ none
downgrade_status-refused_example = downgrade_status-refused unnamed_rows unnamed

to_head-reaches_models_example :
    reaches_models (run (to_head Revision.tenancy) (filled named_rows (before Revision.tenancy)))
    ≡ true
to_head-reaches_models_example = to_head-reaches_models Revision.tenancy named_rows
