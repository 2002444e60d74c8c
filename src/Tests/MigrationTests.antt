-- ===== src/Tests/MigrationTests.antt =====
-- The theorems on migrations at a directory of two files.
use a2a_red_panda_server_con.Prelude.{
  Text, str, ◌≡◌, ◌↔◌, refl, true, false, Option, none, some, List, [], ◌∷◌, arith, ok, All, pos,
  text_eq,
}
use a2a_red_panda_server_con.Sorting.{sort, insert_sorted}
use a2a_red_panda_server_con.Sorting.Laws.{IsSorted}
use a2a_red_panda_server_con.Storage.Migrations.{
  Migration, LedgerRow, is_version, is_applied, find_migration,
}
use a2a_red_panda_server_con.Storage.Migrations.Run.{
  Database, migrate, verify_schema, no_migration_faults, MigrationFaults, with_migrations,
  with_lock, migrate_locked, apply_pending, apply_migration, release_lock, join_errors,
}
use a2a_red_panda_server_con.Storage.Migrations.Run.Lock.{IsLetGo, sessions-IsLetGo}
use a2a_red_panda_server_con.Storage.Migrations.Run.Migrates.{let_go, migrate_lem}
use a2a_red_panda_server_con.Storage.Migrations.Source.{
  Entry, read_migrations, read_entries, read_entry, parse_version, extension, has_version,
  version_less, digits,
}
use a2a_red_panda_server_con.Storage.Migrations.Source.Ordered.{read_migrations-IsSorted, IsSound}
use a2a_red_panda_server_con.Storage.Migrations.Verify.{
  verify_migration_set, verify_applied, verify_pending,
}
use a2a_red_panda_server_con.Storage.Migrations.Verify.Accepts.{
  IsRecorded, IsInOrder, verify_migration_set-eq-ok,
}
use a2a_red_panda_server_con.Strings.{cut, trim_space}

-- A sum in place of the hash, and a schema that is the list of the scripts that ran.
abbrev pub checksum : Text → Text
checksum s = b'#' ∷ s

abbrev pub run_script : Text → List Text → Option (List Text)
run_script script schema = some (script ∷ schema)

abbrev file : Text → Text → Entry
file name contents = record { is_dir = false; name = name; contents = some contents }

abbrev pub directory : Option (List Entry)
directory = some (
    file (str "10_ten.sql") (str "ten")
    ∷ file (str "2_two.sql") (str "two")
    ∷ file (str "README.md") (str "x")
    ∷ [])

abbrev two : Migration
two = record {
  version = 2;
  name = str "2_two.sql";
  contents = str "two";
  checksum = checksum (str "two");
}

abbrev ten : Migration
ten = record {
  version = 10;
  name = str "10_ten.sql";
  contents = str "ten";
  checksum = checksum (str "ten");
}

abbrev pub fresh : Database (List Text)
fresh = record { schema = []; ledger = none }

-- What the tests of the migrations compute with.
unfoldable pub migrating : Unit {0}
unfolding read_migrations read_entries read_entry parse_version digits extension has_version
    version_less sort insert_sorted cut trim_space str text_eq verify_migration_set verify_applied
    verify_pending find_migration is_version is_applied migrate verify_schema with_migrations
    with_lock migrate_locked apply_pending apply_migration release_lock join_errors
migrating = tt

read_both : read_migrations checksum directory ≡ ok (two ∷ ten ∷ [])
unfolding migrating
read_both = refl

abbrev row : Migration → LedgerRow
row m = record { version = pos m.version; name = m.name; checksum = m.checksum }

abbrev pub migrated : Database (List Text)
migrated = record { schema = str "ten" ∷ str "two" ∷ []; ledger = some (row two ∷ row ten ∷ []) }

migrated_now :
    migrate checksum run_script no_migration_faults true directory fresh
    ≡ (ok tt, migrated, some let_go)
unfolding migrating
migrated_now = refl

migrate_example :
    (verify_schema checksum no_migration_faults true directory migrated
      ≡ (ok tt, migrated, some let_go))
    × (migrate checksum run_script no_migration_faults true directory migrated
        ≡ (ok tt, migrated, some let_go))
migrate_example =
    migrate_lem checksum run_script no_migration_faults true directory fresh migrated (some let_go)
      migrated_now

read_migrations-IsSorted_example :
    IsSorted version_less (two ∷ ten ∷ []) × All (IsSound checksum) (two ∷ ten ∷ [])
read_migrations-IsSorted_example =
    read_migrations-IsSorted checksum directory (two ∷ ten ∷ []) read_both

verify_migration_set-eq-ok_example :
    (verify_migration_set (two ∷ ten ∷ []) (row two ∷ []) true ≡ ok tt) ↔ (
      All (IsRecorded (two ∷ ten ∷ [])) (row two ∷ [])
      × All (IsInOrder (row two ∷ []) true) (two ∷ ten ∷ []))
verify_migration_set-eq-ok_example =
    verify_migration_set-eq-ok (two ∷ ten ∷ []) (row two ∷ []) true (omega arith, (omega arith, tt))

abbrev lost_unlock : MigrationFaults
lost_unlock = record no_migration_faults { unlock = true }

sessions-IsLetGo_example :
    IsLetGo (migrate checksum run_script lost_unlock true directory fresh).2
    × IsLetGo (verify_schema checksum lost_unlock true directory fresh).2
sessions-IsLetGo_example = sessions-IsLetGo checksum run_script lost_unlock true directory fresh
