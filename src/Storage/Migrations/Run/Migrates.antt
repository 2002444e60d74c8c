-- ===== src/Storage/Migrations/Run/Migrates.antt =====
-- After a migration the schema is verified, and another one has nothing to do.
use mathlib.Core.Option.{get_or}
use a2a_red_panda_server_con.Prelude.{
  Text, ◌≡◌, refl, sym, ap, ◌∙◌, Bool, true, false, Option, some, List, [], ◌∷◌, arith, Result, ok,
  All, Bool-cases, Result-cases, inl, inr, ◌<◌, pos,
}
use a2a_red_panda_server_con.Storage.Migrations.{
  Migration, Ledger, SchemaError, is_applied, find_migration,
}
use a2a_red_panda_server_con.Storage.Migrations.Run.{
  Database, Session, Outcome, pooled, MigrationFaults, no_migration_faults, migrate_locked,
  verify_locked, with_lock, release_lock, join_errors, with_migrations, migrate, verify_schema,
}
use a2a_red_panda_server_con.Storage.Migrations.Run.Pending.{
  apply_pending-IsCaughtUp, apply_pending_none,
}
use a2a_red_panda_server_con.Storage.Migrations.Source.{Entry, read_migrations}
use a2a_red_panda_server_con.Storage.Migrations.Source.Ordered.{
  read_migrations-IsSorted, found_each, IsSound,
}
use a2a_red_panda_server_con.Storage.Migrations.Verify.{verify_migration_set}
use a2a_red_panda_server_con.Storage.Migrations.Verify.Accepts.{
  IsRecorded, IsInOrder, verify_migration_set-eq-ok,
}

-- The connection back in the pool, without the lock.
abbrev pub let_go : Session
let_go = record { held = false; place = pooled }

positive_each :
    (sha256 : Text → Text) (ms : List Migration)
    → All (IsSound sha256) ms
    → All (λ m. 0 < m.version) ms
positive_each sha256 [] h = tt
positive_each sha256 (m ∷ ms) (p, h) = (p.0, positive_each sha256 ms h)

IsInOrder-each :
    (rows : Ledger) (allow : Bool) (ms : List Migration)
    → All (λ m. is_applied m.version rows ≡ true) ms
    → All (IsInOrder rows allow) ms
IsInOrder-each rows allow [] h = tt
IsInOrder-each rows allow (m ∷ ms) (p, h) = (inl p, IsInOrder-each rows allow ms h)

verify_ok :
    (ms : List Migration) (allow : Bool) (rows : Ledger)
    → All (λ m. 0 < m.version) ms
    → All (IsRecorded ms) rows
    → All (λ m. is_applied m.version rows ≡ true) ms
    → verify_migration_set ms rows allow ≡ ok tt
verify_ok ms allow rows positive recorded applied =
    (verify_migration_set-eq-ok ms rows allow positive).1
      (recorded, IsInOrder-each rows allow ms applied)

module _ {S : Type 0} where
  -- Every migration is in the ledger, and the ledger holds nothing else.
  abbrev pub IsCurrent : List Migration → Database S → Type 0
  IsCurrent ms db =
      (rows : Ledger) × (db.ledger ≡ some rows)
      × All (IsRecorded ms) rows
      × All (λ m. is_applied m.version rows ≡ true) ms

  with_lock-eq-ok :
      (faults : MigrationFaults) (work : Database S → Result SchemaError (Unit {0}) × Database S)
      (db db' : Database S) (session : Option Session)
      → with_lock faults work db ≡ (ok tt, db', session)
      → ((work db).0 ≡ ok tt) × ((work db).1 ≡ db')
  unfolding with_lock release_lock join_errors
  with_lock-eq-ok faults work db db' session h = ground arith

  with_lock-ok :
      (work : Database S → Result SchemaError (Unit {0}) × Database S) (db : Database S)
      → work db ≡ (ok tt, db)
      → with_lock no_migration_faults work db ≡ (ok tt, db, some let_go)
  unfolding with_lock release_lock join_errors
  with_lock-ok work db h = rw h

  verify_locked-ok :
      (ms : List Migration) (db : Database S)
      → All (λ m. 0 < m.version) ms
      → IsCurrent ms db
      → verify_locked no_migration_faults ms db ≡ (ok tt, db)
  unfolding verify_locked
  verify_locked-ok ms db positive (rows, e, recorded, applied) =
      simp (e, verify_ok ms false rows positive recorded applied)

  migrate_locked-ok :
      (execute : Text → S → Option S) (ms : List Migration) (db : Database S)
      → All (λ m. 0 < m.version) ms
      → IsCurrent ms db
      → migrate_locked execute no_migration_faults ms db ≡ (ok tt, db)
  unfolding migrate_locked
  migrate_locked-ok execute ms db positive (rows, e, recorded, applied) =
      let same : record db { ledger = some rows } ≡ db =
        ap (λ l. record db { ledger = l }) (sym e) in
      let verified = verify_ok ms true rows positive recorded applied in
      let nothing =
        apply_pending_none execute no_migration_faults ms rows (record db { ledger = some rows })
          applied in
      simp (e, verified) (nothing ∙ ap (λ d. (ok tt, d)) same)

  migrate_locked-IsCurrent :
      (execute : Text → S → Option S) (faults : MigrationFaults) (ms : List Migration)
      (db : Database S)
      → All (λ m. 0 < m.version) ms
      → All (λ m. find_migration (pos m.version) ms ≡ some m) ms
      → (migrate_locked execute faults ms db).0 ≡ ok tt
      → IsCurrent ms (migrate_locked execute faults ms db).1
  unfolding migrate_locked
  migrate_locked-IsCurrent execute faults ms db positive found h =
      let rows = get_or db.ledger [] in
      elim (Bool-cases faults.ledger) [
        | inl failed ↦ absurd (ground arith)
        | inr located ↦ elim (Bool-cases faults.load) [
          | inl failed ↦ absurd (ground arith)
          | inr loaded ↦ elim (Result-cases (verify_migration_set ms rows true)) [
            | inr (x, refused) ↦ absurd (ground arith)
            | inl (u, verified) ↦
                (let (recorded, _) =
                    (verify_migration_set-eq-ok ms rows true positive).0 verified in
                  let (rows', e, c) =
                    apply_pending-IsCaughtUp execute faults ms ms rows rows
                      (record db { ledger = some rows }) refl found recorded (λ v k. k)
                      (rw (located, loaded, verified) at h) in
                  (rows', rw (located, loaded, verified) e, c.recorded, c.applied))
          ]
        ]
      ]

module _ {S : Type 0} (sha256 : Text → Text) where
  with_migrations-eq-ok :
      (pool : Bool) (directory : Option (List Entry)) (db db' : Database S)
      (session : Option Session) (work : List Migration → Outcome S)
      → with_migrations sha256 pool directory db work ≡ (ok tt, db', session)
      → (ms : List Migration) × (read_migrations sha256 directory ≡ ok ms)
        × (pool ≡ true)
        × (work ms ≡ (ok tt, db', session))
  unfolding with_migrations
  with_migrations-eq-ok false directory db db' session work h = absurd (ground arith)
  with_migrations-eq-ok true directory db db' session work h =
      elim (Result-cases (read_migrations sha256 directory)) [
        | inl (ms, e) ↦ (ms, e, refl, rw e at h)
        | inr (x, bad) ↦ absurd (ground arith)
      ]

  -- After a `Migrate` that succeeded, whatever the database held before, `VerifySchema` succeeds on
  -- the database that it left, and a further `Migrate` succeeds and changes nothing, as long as the
  -- calls to the database succeed.
  pub migrate_lem :
      (execute : Text → S → Option S) (faults : MigrationFaults) (pool : Bool)
      (directory : Option (List Entry)) (db db' : Database S) (session : Option Session)
      → migrate sha256 execute faults pool directory db ≡ (ok tt, db', session)
      → (verify_schema sha256 no_migration_faults pool directory db' ≡ (ok tt, db', some let_go))
        × (migrate sha256 execute no_migration_faults pool directory db'
            ≡ (ok tt, db', some let_go))
  unfolding migrate verify_schema with_migrations
  migrate_lem execute faults pool directory db db' session h =
      let (ms, read, there, h') = with_migrations-eq-ok pool directory db db' session _ h in
      let (done, same) =
        with_lock-eq-ok faults (migrate_locked execute faults ms) db db' session h' in
      let (sorted, sound) = read_migrations-IsSorted sha256 directory ms read in
      let positive = positive_each sha256 ms sound in
      let current : IsCurrent ms db' =
        rw⁻¹ same
          (migrate_locked-IsCurrent execute faults ms db positive (found_each ms sorted) done) in
      (
        rw (there, read)
            (with_lock-ok (verify_locked no_migration_faults ms) db'
              (verify_locked-ok ms db' positive current)),
        rw (there, read)
            (with_lock-ok (migrate_locked execute no_migration_faults ms) db'
              (migrate_locked-ok execute ms db' positive current)),
      )
