-- ===== src/Storage/Migrations/Run.antt =====
-- `Migrate` and `VerifySchema`: each holds a session's advisory lock while it works, so calls
-- follow one another. `S` is the schema of the database, and `execute` runs a migration's SQL on
-- it; the ledger is a table of its own, which no migration touches.
pub mod Lock
pub mod Pending
pub mod Migrates
use mathlib.Core.Option.{get_or}
use a2a_red_panda_server_con.Prelude.{
  Text, ℕ, Bool, true, false, ◌||◌, not, Option, none, some, List, [], ◌∷◌, ◌++◌, if◌then◌else◌,
  pos, Result, ok, err, ◌>>=◌,
}
use a2a_red_panda_server_con.Storage.Migrations.{
  Migration, Ledger, SchemaError, pool_required, acquire_failed, lock_failed, ledger_failed,
  apply_failed, release_failed, lock_not_held, not_initialized, joined, is_applied,
}
use a2a_red_panda_server_con.Storage.Migrations.Source.{Entry, read_migrations}
use a2a_red_panda_server_con.Storage.Migrations.Verify.{verify_migration_set}
use a2a_red_panda_server_con.Storage.Store.Runs.{answer}

-- The database: its schema, and the ledger where it exists.
pub record Database (S : Type 0) : Type 0 where
  pub schema : S
  pub ledger : Option Ledger

-- A connection is in use, back in the pool, or taken out of the pool and closed.
pub data Place : Type 0 where
  in_use pooled closed : Place

pub record Session : Type 0 where
  pub held : Bool
  pub place : Place

-- The calls that fail; where taking the lock fails, the server may have granted it all the same,
-- and a migration may be committed although the answer to that is lost.
pub record MigrationFaults : Type 0 where
  pub acquire : Bool
  pub lock : Bool
  pub granted : Bool
  pub ledger : Bool
  pub load : Bool
  pub apply : ℕ → Bool
  pub answer_lost : ℕ → Bool
  pub unlock : Bool

abbrev pub no_migration_faults : MigrationFaults
no_migration_faults = record {
  acquire = false;
  lock = false;
  granted = false;
  ledger = false;
  load = false;
  apply = λ n. false;
  answer_lost = λ n. false;
  unlock = false;
}

-- `destroyMigrationConnection`
unfoldable pub destroy_connection : Session → Session
destroy_connection session = record session { place = closed }

-- `releaseMigrationLock`
unfoldable pub release_lock : Bool → Session → Result SchemaError (Unit {0}) × Session
release_lock fault session =
    if fault
    then (err release_failed, destroy_connection session)
    else if not session.held
    then (err lock_not_held, destroy_connection session)
    else (ok tt, record { held = false; place = pooled })

-- `errors.Join`
unfoldable pub join_errors :
    Result SchemaError (Unit {0}) → Result SchemaError (Unit {0}) → Result SchemaError (Unit {0})
join_errors (ok _) second = second
join_errors (err e) (ok _) = err e
join_errors (err e) (err f) = err (joined e f)

-- What a call answers, the database behind it, and its connection, if it had one.
abbrev pub Outcome : Type 0 → Type 0
Outcome S = Result SchemaError (Unit {0}) × Database S × Option Session

module _ {S : Type 0} where
  -- Acquire a connection, take the lock, work, release the lock.
  unfoldable pub with_lock :
      MigrationFaults
      → (Database S → Result SchemaError (Unit {0}) × Database S)
      → Database S
      → Outcome S
  with_lock faults work db =
      if faults.acquire
      then (err acquire_failed, db, none)
      else if faults.lock
      then (
        err lock_failed,
        db,
        some (destroy_connection (record { held = faults.granted; place = in_use })),
      )
      else let (result, db') = work db in
        let (released, session) =
          release_lock faults.unlock (record { held = true; place = in_use }) in
        (join_errors result released, db', some session)

  -- `VerifySchema` behind the lock; it only reads.
  unfoldable pub verify_locked :
      MigrationFaults → List Migration → Database S → Result SchemaError (Unit {0}) × Database S
  verify_locked faults migrations db =
      if faults.ledger then (err ledger_failed, db) else elim db.ledger [
        | none ↦ (err not_initialized, db)
        | some applied ↦
            if faults.load
            then (err ledger_failed, db)
            else (verify_migration_set migrations applied false, db)
      ]

module _ {S : Type 0} (execute : Text → S → Option S) where
  -- `applyMigration`: one transaction, which a failure rolls back.
  unfoldable pub apply_migration :
      MigrationFaults → Migration → Database S → Result SchemaError (Unit {0}) × Database S
  apply_migration faults item db =
      if faults.apply item.version
      then (err apply_failed, db)
      else elim (execute item.contents db.schema) [
        | none ↦ (err apply_failed, db)
        | some schema ↦ elim db.ledger [
          | none ↦ (err apply_failed, db)
          | some rows ↦ if is_applied item.version rows then (err apply_failed, db) else (
            if faults.answer_lost item.version then err apply_failed else ok tt,
            record {
              schema = schema;
              ledger = some (
                  rows
                  ++ (record {
                    version = pos item.version;
                    name = item.name;
                    checksum = item.checksum;
                  })
                    ∷ []);
            },
          )
        ]
      ]

  -- The loop over the migrations, by the ledger as it was loaded.
  unfoldable pub apply_pending :
      MigrationFaults
      → List Migration
      → Ledger
      → Database S
      → Result SchemaError (Unit {0}) × Database S
  apply_pending faults [] applied db = (ok tt, db)
  apply_pending faults (item ∷ items) applied db =
      let skipped = apply_pending faults items applied db in
      if is_applied item.version applied
      then skipped
      else let (answer, db') = apply_migration faults item db in
        elim answer [ ok _ ↦ apply_pending faults items applied db' | err e ↦ (err e, db') ]

  -- `Migrate` behind the lock.
  unfoldable pub migrate_locked :
      MigrationFaults → List Migration → Database S → Result SchemaError (Unit {0}) × Database S
  migrate_locked faults migrations db =
      if faults.ledger
      then (err ledger_failed, db)
      else let applied = get_or db.ledger [] in
        let db' = record db { ledger = some applied } in
        if faults.load
        then (err ledger_failed, db')
        else elim (verify_migration_set migrations applied true) [
          | err e ↦ (err e, db')
          | ok _ ↦ apply_pending faults migrations applied db'
        ]

module _ {S : Type 0} (sha256 : Text → Text) where
  -- What `Migrate` and `VerifySchema` test before they ask for a connection.
  unfoldable pub with_migrations :
      (pool : Bool) → Option (List Entry) → Database S → (List Migration → Outcome S) → Outcome S
  with_migrations pool directory db work =
      if not pool then (err pool_required, db, none) else elim (read_migrations sha256 directory) [
        | err e ↦ (err e, db, none)
        | ok migrations ↦ work migrations
      ]

  -- `Migrate`; `pool` is false for a nil pool.
  unfoldable pub migrate :
      (Text → S → Option S)
      → MigrationFaults
      → (pool : Bool) → Option (List Entry)
      → Database S
      → Outcome S
  migrate execute faults pool directory db =
      with_migrations pool directory db
        λ migrations. with_lock faults (migrate_locked execute faults migrations) db

  -- `VerifySchema`
  unfoldable pub verify_schema :
      MigrationFaults → (pool : Bool) → Option (List Entry) → Database S → Outcome S
  verify_schema faults pool directory db =
      with_migrations pool directory db
        λ migrations. with_lock faults (verify_locked faults migrations) db
