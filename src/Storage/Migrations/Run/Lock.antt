-- ===== src/Storage/Migrations/Run/Lock.antt =====
-- The advisory lock never goes back into the pool with a connection.
use a2a_red_panda_server_con.Prelude.{
  Text, Bool, true, false, ◌≡◌, refl, Option, none, some, List, Result, inl, inr, Bool-cases,
  Result-cases, ◌⊎◌,
}
use a2a_red_panda_server_con.Storage.Migrations.{SchemaError, Migration}
use a2a_red_panda_server_con.Storage.Migrations.Run.{
  Database, Session, pooled, closed, MigrationFaults, destroy_connection, release_lock, with_lock,
  with_migrations, Outcome, migrate, verify_schema, migrate_locked, verify_locked,
}
use a2a_red_panda_server_con.Storage.Migrations.Source.{Entry, read_migrations}

-- The connection, if there was one, is closed, or back in the pool without the lock.
abbrev pub IsLetGo : Option Session → Type 0
IsLetGo none = Unit
IsLetGo (some session) =
    (session.place ≡ closed) ⊎ ((session.place ≡ pooled) × (session.held ≡ false))

module _ {S : Type 0} where
  with_lock-IsLetGo :
      (faults : MigrationFaults) (work : Database S → Result SchemaError (Unit {0}) × Database S)
      (db : Database S)
      → IsLetGo (with_lock faults work db).2
  unfolding with_lock release_lock destroy_connection
  with_lock-IsLetGo faults work db = elim (Bool-cases faults.acquire) [
    | inl a ↦ rw a tt
    | inr a ↦ elim (Bool-cases faults.lock) [
      | inl l ↦ rw (a, l) (inl refl)
      | inr l ↦ elim (Bool-cases faults.unlock) [
        | inl u ↦ rw (a, l, u) (inl refl)
        | inr u ↦ rw (a, l, u) (inr (refl, refl))
      ]
    ]
  ]

  with_migrations-IsLetGo :
      (sha256 : Text → Text) (pool : Bool) (directory : Option (List Entry)) (db : Database S)
      (work : List Migration → Outcome S)
      → ((ms : List Migration) → IsLetGo (work ms).2)
      → IsLetGo (with_migrations sha256 pool directory db work).2
  unfolding with_migrations
  with_migrations-IsLetGo sha256 false directory db work h = tt
  with_migrations-IsLetGo sha256 true directory db work h =
      elim (Result-cases (read_migrations sha256 directory)) [
        | inl (ms, e) ↦ rw e (h ms)
        | inr (e, bad) ↦ rw bad tt
      ]

  -- However `Migrate` or `VerifySchema` ends, with whatever calls failing, the connection that it
  -- took is closed, or back in the pool and without the advisory lock.
  pub sessions-IsLetGo :
      (sha256 : Text → Text) (execute : Text → S → Option S) (faults : MigrationFaults)
      (pool : Bool) (directory : Option (List Entry)) (db : Database S)
      → IsLetGo (migrate sha256 execute faults pool directory db).2
        × IsLetGo (verify_schema sha256 faults pool directory db).2
  unfolding migrate verify_schema
  sessions-IsLetGo sha256 execute faults pool directory db = (
    with_migrations-IsLetGo sha256 pool directory db _
        λ ms. with_lock-IsLetGo faults (migrate_locked execute faults ms) db,
    with_migrations-IsLetGo sha256 pool directory db _
        λ ms. with_lock-IsLetGo faults (verify_locked faults ms) db,
  )
