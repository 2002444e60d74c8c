-- ===== src/Storage/Migrations/Run/Pending.antt =====
-- The loop of `Migrate` over the pending migrations.
use a2a_red_panda_server_con.Prelude.{
  Text, ℕ, ◌≡◌, refl, true, Option, some, List, [], ◌∷◌, ◌++◌, arith, pos, ok, All, All-append,
  Option-cases, Bool-cases, Result-cases, inl, inr,
}
use a2a_red_panda_server_con.Storage.Migrations.{
  Migration, LedgerRow, Ledger, is_version, is_applied, find_migration,
}
use a2a_red_panda_server_con.Storage.Migrations.Run.{
  Database, MigrationFaults, apply_migration, apply_pending,
}
use a2a_red_panda_server_con.Storage.Migrations.Verify.Accepts.{IsRecorded}

-- The row that records a migration.
abbrev row_of : Migration → LedgerRow
row_of item = record { version = pos item.version; name = item.name; checksum = item.checksum }

is_applied-append :
    (v : ℕ) (rows more : Ledger) → is_applied v rows ≡ true → is_applied v (rows ++ more) ≡ true
unfolding is_applied
is_applied-append v [] more h = cc
is_applied-append v (row ∷ rows) more h = ground (arith, is_applied-append v rows more)

is_applied_last :
    (m : Migration) (rows : Ledger) → is_applied m.version (rows ++ row_of m ∷ []) ≡ true
unfolding is_applied is_version
is_applied_last m [] = ground arith
is_applied_last m (row ∷ rows) = ground (arith, is_applied_last m rows)

module _ {S : Type 0} (execute : Text → S → Option S) (faults : MigrationFaults) where
  ledger-apply_migration :
      (m : Migration) (db : Database S) (rows : Ledger)
      → db.ledger ≡ some rows
      → (apply_migration execute faults m db).0 ≡ ok tt
      → (apply_migration execute faults m db).1.ledger ≡ some (rows ++ row_of m ∷ [])
  unfolding apply_migration
  ledger-apply_migration m db rows e h = elim (Bool-cases (faults.apply m.version)) [
    | inl failed ↦ absurd (ground arith)
    | inr fine ↦ elim (Option-cases (execute m.contents db.schema)) [
      | inl refused ↦ absurd (ground arith)
      | inr (schema, done) ↦ elim (Bool-cases (is_applied m.version rows)) [
        | inl taken ↦ absurd (ground arith)
        | inr free ↦ rw (fine, done, e, free)
      ]
    ]
  ]

  module _ (ms : List Migration) where
    -- Where the loop over `items` leads from the ledger `rows`.
    pub record IsCaughtUp (items : List Migration) (rows rows' : Ledger) : Type 0 where
      pub recorded : All (IsRecorded ms) rows'
      pub applied : All (λ m. is_applied m.version rows' ≡ true) items
      pub kept : (v : ℕ) → is_applied v rows ≡ true → is_applied v rows' ≡ true

    pub apply_pending-IsCaughtUp :
        (items : List Migration) (applied rows : Ledger) (db : Database S)
        → db.ledger ≡ some rows
        → All (λ m. find_migration (pos m.version) ms ≡ some m) items
        → All (IsRecorded ms) rows
        → ((v : ℕ) → is_applied v applied ≡ true → is_applied v rows ≡ true)
        → (apply_pending execute faults items applied db).0 ≡ ok tt
        → (rows' : Ledger) × ((apply_pending execute faults items applied db).1.ledger ≡ some rows')
          × IsCaughtUp items rows rows'
    unfolding apply_pending
    apply_pending-IsCaughtUp [] applied rows db e found recorded loaded h =
        (rows, e, record { recorded = recorded; applied = tt; kept = λ v k. k })
    apply_pending-IsCaughtUp (m ∷ items) applied rows db e (here, found) recorded loaded h =
        elim (Bool-cases (is_applied m.version applied)) [
          | inl old ↦
              (let (rows', e', c) =
                  apply_pending-IsCaughtUp items applied rows db e found recorded loaded
                    (rw old at h) in
                (
                  rows',
                  rw old e',
                  record {
                    recorded = c.recorded;
                    applied = (c.kept m.version (loaded m.version old), c.applied);
                    kept = c.kept;
                  },
                ))
          | inr new ↦ elim (Result-cases (apply_migration execute faults m db).0) [
            | inl (u, done) ↦
                (let (rows', e', c) =
                    apply_pending-IsCaughtUp items applied (rows ++ row_of m ∷ [])
                      (apply_migration execute faults m db).1
                      (ledger-apply_migration m db rows e done) found
                      (All-append (IsRecorded ms) rows (row_of m ∷ []) recorded
                        ((m, here, refl, refl), tt))
                      (λ v k. is_applied-append v rows (row_of m ∷ []) (loaded v k))
                      (rw (new, done) at h) in
                  (
                    rows',
                    rw (new, done) e',
                    record {
                      recorded = c.recorded;
                      applied = (c.kept m.version (is_applied_last m rows), c.applied);
                      kept = λ v k. c.kept v (is_applied-append v rows (row_of m ∷ []) k);
                    },
                  ))
            | inr (x, failed) ↦ absurd (ground arith)
          ]
        ]

  -- With nothing pending the loop does nothing.
  pub apply_pending_none :
      (items : List Migration) (applied : Ledger) (db : Database S)
      → All (λ m. is_applied m.version applied ≡ true) items
      → apply_pending execute faults items applied db ≡ (ok tt, db)
  unfolding apply_pending
  apply_pending_none [] applied db h = refl
  apply_pending_none (m ∷ items) applied db (p, h) = rw p (apply_pending_none items applied db h)
