-- ===== src/Storage/Migrations.antt =====
-- internal/storage/postgres/migrations.go: the migrations in the binary, and the ledger of those
-- that the database has had.
pub mod Source
pub mod Verify
pub mod Run
use a2a_red_panda_server_con.Prelude.{
  Text, ℕ, ◌==◌, Bool, false, Option, none, some, List, [], ◌∷◌, if◌then◌else◌, ℤ, pos, negsuc,
  ◌||◌,
}

pub record Migration : Type 0 where
  pub version : ℕ
  pub name : Text
  pub contents : Text
  pub checksum : Text

-- A row of `a2a_schema_migrations`; a version that somebody else wrote may be negative.
pub record LedgerRow : Type 0 where
  pub version : ℤ
  pub name : Text
  pub checksum : Text

abbrev pub Ledger : Type 0
Ledger = List LedgerRow

pub data SchemaError : Type 0 where
  pool_required read_failed no_version invalid_version duplicate_version empty_migration :
      SchemaError
  no_migrations acquire_failed lock_failed ledger_failed apply_failed : SchemaError
  release_failed lock_not_held not_initialized : SchemaError
  unknown_version : ℤ → SchemaError
  name_mismatch checksum_mismatch pending_migration : Text → SchemaError
  ledger_gap : ℕ → SchemaError
  joined : SchemaError → SchemaError → SchemaError

unfoldable pub is_version : ℕ → ℤ → Bool
is_version n (pos m) = n == m
is_version n (negsuc m) = false

-- `embedded[version]`: the map holds the last migration that was put in under the version.
unfoldable pub find_migration : ℤ → List Migration → Option Migration
find_migration v [] = none
find_migration v (m ∷ ms) = elim (find_migration v ms) [
  | some later ↦ some later
  | none ↦ if is_version m.version v then some m else none
]

-- `_, ok := applied[version]`
unfoldable pub is_applied : ℕ → Ledger → Bool
is_applied n [] = false
is_applied n (row ∷ rows) = is_version n row.version || is_applied n rows
