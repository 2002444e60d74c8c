-- ===== src/Storage/Migrations/Verify.antt =====
-- `verifyMigrationSet`: the ledger against the migrations in the binary. Go's map comes in any
-- order; here it comes in the ledger's.
pub mod Accepts
use a2a_red_panda_server_con.Prelude.{
  Text, text_eq, ℕ, Bool, not, List, [], ◌∷◌, ltb, leb, if◌then◌else◌, Result, ok, err, ◌>>=◌, ◌>>◌,
  refuse_if, or_fail,
}
use a2a_red_panda_server_con.Storage.Migrations.{
  Migration, LedgerRow, Ledger, SchemaError, unknown_version, name_mismatch, checksum_mismatch,
  ledger_gap, pending_migration, find_migration, is_applied,
}

-- The loop over the applied migrations; the result is the highest applied version.
unfoldable pub verify_applied : List Migration → Ledger → ℕ → Result SchemaError ℕ
verify_applied migrations [] max_applied = ok max_applied
verify_applied migrations (recorded ∷ rest) max_applied = do
  item ← or_fail (find_migration recorded.version migrations) (unknown_version recorded.version)
  refuse_if (not (text_eq recorded.name item.name)) (name_mismatch item.name)
  refuse_if (not (text_eq recorded.checksum item.checksum)) (checksum_mismatch item.name)
  verify_applied migrations rest
      (if ltb max_applied item.version then item.version else max_applied)

-- The loop over the migrations: those that are not applied come after all that are.
unfoldable pub verify_pending :
    List Migration → Ledger → ℕ → (allow_pending : Bool) → Result SchemaError (Unit {0})
verify_pending [] applied max_applied allow_pending = ok tt
verify_pending (item ∷ rest) applied max_applied allow_pending =
    let others = verify_pending rest applied max_applied allow_pending in
    if is_applied item.version applied
    then others
    else if leb item.version max_applied
    then err (ledger_gap item.version)
    else if not allow_pending
    then err (pending_migration item.name)
    else others

unfoldable pub verify_migration_set :
    List Migration → Ledger → (allow_pending : Bool) → Result SchemaError (Unit {0})
verify_migration_set migrations applied allow_pending = do
  max_applied ← verify_applied migrations applied 0
  verify_pending migrations applied max_applied allow_pending
