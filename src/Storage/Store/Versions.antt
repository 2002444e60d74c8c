-- ===== src/Storage/Store/Versions.antt =====
-- Versions along a run: they never fall, and an update is never lost.
use mathlib.Core.Option
use a2a_red_panda_server_con.Prelude.{
  Text, ℕ, ◌+◌, ◌≤◌, ◌≡◌, ap, ◌∙◌, subst, ◌≢◌, inl, inr, false, Option, some, List, [], ◌∷◌, arith,
  if◌then◌else◌, Bool-cases, ok, ◌⊎◌, true, err,
}
use a2a_red_panda_server_con.Identity.{Identity}
use a2a_red_panda_server_con.Storage.Store.{
  Codec, Faults, new_row, updated_row, update, StoreError, database_failed,
}
use a2a_red_panda_server_con.Storage.Store.Create.{answered}
use a2a_red_panda_server_con.Storage.Store.Runs.{
  Call, answer, run, Effect, unchanged, created, updated, answer-Effect,
}
use a2a_red_panda_server_con.Storage.Store.Update.{
  IsUpdated, update-IsUpdated, updated_row-KeepsKey, update-IsAtomic,
}
use a2a_red_panda_server_con.Storage.Table.{Task, Row, Table, is_key, find_row, has_id}
use a2a_red_panda_server_con.Storage.Table.Rows.{
  find_row-update_self, find_row_free, find_row-update,
}
use a2a_red_panda_server_con.Storage.Table.WellFormed.{key_id}

module _ {M A : Type 0} (codec : Codec M A) where
  -- A row that is there stays, and its version does not fall.
  abbrev pub HasGrown : Identity → Text → ℕ → Table → Type 0
  HasGrown j k v table = (r : Row) × (find_row j k table ≡ some r) × (v ≤ r.version)

  created_apart :
      (j : Identity) (k : Text) (row r : Row) (table : Table)
      → has_id row.task_id table ≡ false
      → find_row j k table ≡ some r
      → is_key j k row ≡ false
  created_apart j k row r table fresh found = elim (Bool-cases (is_key j k row)) [
    | inl here ↦
        (let same = key_id j k row here in
          absurd (cc (find_row_free j k table (rw same at fresh), found)))
    | inr there ↦ there
  ]

  Effect-HasGrown :
      {t t' : Table} (j : Identity) (k : Text) (v : ℕ)
      → Effect codec t t'
      → HasGrown j k v t
      → HasGrown j k v t'
  unfolding find_row updated_row new_row
  Effect-HasGrown j k v (unchanged e) g = rw e g
  Effect-HasGrown {t = t} j k v (created now context task n c) (r, found, grown) = (
    r,
    rw c.grown (ground (arith, created_apart j k (new_row now c.i c.t c.json) r t c.fresh found)),
    grown,
  )
  Effect-HasGrown {t = t} j k v (updated now context task previous n u) (r, found, grown) = (
    if is_key u.i u.t.id r then updated_row now u.t u.json r else r,
    rw u.changed (
        find_row-update u.i j u.t.id k (updated_row now u.t u.json) t
          (updated_row-KeepsKey codec now u.t u.json)
        ∙ ap (Option.map _) found),
    ground arith,
  )

  run-HasGrown :
      (calls : List (Call M A)) (table : Table) (j : Identity) (k : Text) (v : ℕ)
      → HasGrown j k v table
      → HasGrown j k v (run codec calls table)
  unfolding run
  run-HasGrown [] table j k v g = g
  run-HasGrown (call ∷ calls) table j k v g =
      run-HasGrown calls (answer codec call table).1 j k v
        (Effect-HasGrown j k v (answer-Effect codec call table) g)

  current_version :
      (n : ℕ) {now : ℕ} {context : Option Identity} {task : Option (Task M A)} {v : ℕ}
      {table table' : Table} (u : IsUpdated codec now context task (some n) v table table')
      → u.row.version ≡ n
  current_version n u = ground (arith, u.current)

  updated-HasGrown :
      (n : ℕ) {now : ℕ} {context : Option Identity} {task : Option (Task M A)} {v : ℕ}
      {table table' : Table} (u : IsUpdated codec now context task (some n) v table table')
      → HasGrown u.i u.t.id (n + 1) table'
  unfolding updated_row
  updated-HasGrown n {now} {table = table} u = (
    updated_row now u.t u.json u.row,
    rw u.changed (
        find_row-update_self u.i u.t.id (updated_row now u.t u.json) table
          (updated_row-KeepsKey codec now u.t u.json)
        ∙ ap (Option.map _) u.found),
    omega (arith, current_version n u),
  )

  stale_after :
      (n : ℕ) {now : ℕ} {context : Option Identity} {task : Option (Task M A)} {v : ℕ}
      {table table' : Table} (u : IsUpdated codec now context task (some n) v table table')
      → HasGrown u.i u.t.id (n + 1) table
      → ⊥
  stale_after n u (r, found, grown) =
      let same : r ≡ u.row = cc (found, u.found) in
      omega (arith, current_version n u, ap (λ (x : Row). x.version) same)

  -- No lost update: once an update that named version `n` has succeeded, then whatever calls
  -- follow, no later update of the same task by the same caller succeeds that names version `n`.
  pub no_lost_update :
      (calls : List (Call M A)) (faults faults' : Faults) (now now' : ℕ) (i : Identity)
      (t t' : Task M A) (n v v' : ℕ) (table after after' : Table)
      → t.id ≡ t'.id
      → update codec faults now (some i) (some t) (some n) table ≡ (ok v, after)
      → update codec faults' now' (some i) (some t') (some n) (run codec calls after)
        ≢ (ok v', after')
  no_lost_update calls faults faults' now now' i t t' n v v' table after after' same first second =
      let u = update-IsUpdated codec faults now (some i) (some t) (some n) v table after first in
      let w =
        update-IsUpdated codec faults' now' (some i) (some t') (some n) v' (run codec calls after)
          after' second in
      let caller : u.i ≡ w.i = cc (u.prepared.caller, w.prepared.caller) in
      let task : u.t.id ≡ w.t.id = cc (u.prepared.given, w.prepared.given, same) in
      let g = run-HasGrown calls after u.i u.t.id (n + 1) (updated-HasGrown n u) in
      stale_after n w (
        subst (λ k. HasGrown w.i k (n + 1) (run codec calls after)) task
          (subst (λ j. HasGrown j u.t.id (n + 1) (run codec calls after)) caller g))

  -- The update of a caller's task that names version `n` never succeeds after any further calls.
  abbrev pub NeverAgain : Identity → Text → ℕ → Table → Type 0
  NeverAgain i id n after =
      (calls : List (Call M A)) (faults : Faults) (now : ℕ) (t : Task M A) (v : ℕ) (after' : Table)
      → id ≡ t.id
      → update codec faults now (some i) (some t) (some n) (run codec calls after) ≢ (ok v, after')

  -- An update that named version `n` and failed either left the table as it was; or the answer to
  -- its commit was lost, it is reported as a failure of the database, the table is the one that
  -- the answered update makes, and whatever calls follow, no later update of that task by the
  -- caller that names version `n`, such as a repeated one, succeeds.
  pub failed_update :
      (faults : Faults) (now : ℕ) (i : Identity) (t : Task M A) (n : ℕ) (e : StoreError)
      (table after : Table)
      → update codec faults now (some i) (some t) (some n) table ≡ (err e, after)
      → (after ≡ table)
        ⊎ ((e ≡ database_failed)
            × (faults.answer_lost ≡ true)
            × ((v : ℕ) × (update codec (answered faults) now (some i) (some t) (some n) table
                  ≡ (ok v, after)))
            × NeverAgain i t.id n after)
  failed_update faults now i t n e table after h =
      elim (update-IsAtomic codec faults now (some i) (some t) (some n) e table after h) [
        | inl same ↦ inl same
        | inr (reported, lost, (v, done)) ↦ inr (
          reported,
          lost,
          (v, done),
          λ calls faults' now' t' v' after' same.
              no_lost_update calls (answered faults) faults' now now' i t t' n v v' table after
                after' same done,
        )
      ]
