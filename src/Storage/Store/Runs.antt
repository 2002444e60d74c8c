-- ===== src/Storage/Store/Runs.antt =====
-- Runs of the store: any sequence of creates and updates, by any callers, with any faults.
use a2a_red_panda_server_con.Prelude.{
  ℕ, ◌≡◌, Option, List, [], ◌∷◌, err, Result, refl, inl, inr, arith, ◌⊎◌, ok, Text, some, ap, subst,
  none,
}
use a2a_red_panda_server_con.Identity.{Identity}
use a2a_red_panda_server_con.Storage.Store.{
  StoreError, Codec, Faults, create, update, new_row, updated_row, get,
}
use a2a_red_panda_server_con.Storage.Store.Create.{
  IsCreated, create-IsCreated, missed_key, answered, create-IsAtomic,
}
use a2a_red_panda_server_con.Storage.Store.Lookup.{IsPrepared, get_congr}
use a2a_red_panda_server_con.Storage.Store.Update.{
  IsUpdated, updated_row-KeepsKey, update-IsUpdated, update-IsAtomic,
}
use a2a_red_panda_server_con.Storage.Table.{Task, Table, find_row}
use a2a_red_panda_server_con.Storage.Table.Rows.{IsApart, find_row-update_ne}
use a2a_red_panda_server_con.Storage.Table.WellFormed.{IsWellFormed, update_rows-IsWellFormed}

-- The calls that change the table.
pub data Call (M A : Type 0) : Type 0 where
  create_call : Faults → (now : ℕ) → Option Identity → Option (Task M A) → Call M A
  update_call :
      Faults → (now : ℕ) → Option Identity → Option (Task M A) → (previous : Option ℕ) → Call M A

module _ {M A : Type 0} (codec : Codec M A) where
  unfoldable pub answer : Call M A → Table → Result StoreError ℕ × Table
  answer (create_call faults now context task) table = create codec faults now context task table
  answer (update_call faults now context task previous) table =
      update codec faults now context task previous table

  unfoldable pub run : List (Call M A) → Table → Table
  run [] table = table
  run (call ∷ calls) table = run calls (answer call table).1

  created-IsWellFormed :
      {now : ℕ} {context : Option Identity} {task : Option (Task M A)} {v : ℕ}
      {table table' : Table}
      → IsCreated codec now context task v table table'
      → IsWellFormed table
      → IsWellFormed table'
  unfolding new_row
  created-IsWellFormed c w = rw c.grown (c.fresh, omega arith, omega arith, c.prepared.named, w)

  updated-IsWellFormed :
      {now : ℕ} {context : Option Identity} {task : Option (Task M A)} {previous : Option ℕ} {v : ℕ}
      {table table' : Table}
      → IsUpdated codec now context task previous v table table'
      → IsWellFormed table
      → IsWellFormed table'
  unfolding updated_row
  updated-IsWellFormed {now} {table = table} u w = rw u.changed (
      update_rows-IsWellFormed u.i u.t.id (updated_row now u.t u.json) u.row table
        (updated_row-KeepsKey codec now u.t u.json) (λ r. refl) u.found u.bounded w)

  outcome :
      (x : Result StoreError ℕ × Table)
      → ((v : ℕ) × (x ≡ (ok v, x.1))) ⊎ ((e : StoreError) × (x ≡ (err e, x.1)))
  outcome (ok v, t) = inl (v, refl)
  outcome (err e, t) = inr (e, refl)

  -- What a create has done: nothing, or it created the task, whether its answer arrived or not.
  create_outcome :
      (faults : Faults) (now : ℕ) (context : Option Identity) (task : Option (Task M A))
      (table : Table)
      → let table' = (create codec faults now context task table).1 in
        (table' ≡ table) ⊎ ((v : ℕ) × IsCreated codec now context task v table table')
  create_outcome faults now context task table =
      elim (outcome (create codec faults now context task table)) [
        | inl (v, e) ↦ inr (v, create-IsCreated codec faults now context task v table _ e)
        | inr (x, e) ↦ elim (create-IsAtomic codec faults now context task x table _ e) [
          | inl same ↦ inl same
          | inr (_, _, (v, done)) ↦
              inr (v, create-IsCreated codec (answered faults) now context task v table _ done)
        ]
      ]

  update_outcome :
      (faults : Faults) (now : ℕ) (context : Option Identity) (task : Option (Task M A))
      (previous : Option ℕ) (table : Table)
      → let table' = (update codec faults now context task previous table).1 in
        (table' ≡ table) ⊎ ((v : ℕ) × IsUpdated codec now context task previous v table table')
  update_outcome faults now context task previous table =
      elim (outcome (update codec faults now context task previous table)) [
        | inl (v, e) ↦ inr (v, update-IsUpdated codec faults now context task previous v table _ e)
        | inr (x, e) ↦ elim (update-IsAtomic codec faults now context task previous x table _ e) [
          | inl same ↦ inl same
          | inr (_, _, (v, done)) ↦
              inr (
                v,
                update-IsUpdated codec (answered faults) now context task previous v table _ done,
              )
        ]
      ]

  -- One call: it left the table, or it created a task, or it updated one.
  pub data Effect (table table' : Table) : Type 0 where
    unchanged : table' ≡ table → Effect table table'
    created :
        (now : ℕ) (context : Option Identity) (task : Option (Task M A)) (v : ℕ)
        → IsCreated codec now context task v table table'
        → Effect table table'
    updated :
        (now : ℕ) (context : Option Identity) (task : Option (Task M A)) (previous : Option ℕ)
        (v : ℕ)
        → IsUpdated codec now context task previous v table table'
        → Effect table table'

  pub answer-Effect : (call : Call M A) (table : Table) → Effect table (answer call table).1
  unfolding answer
  answer-Effect (create_call faults now context task) table =
      elim (create_outcome faults now context task table) [
        | inl same ↦ unchanged same
        | inr (v, c) ↦ created now context task v c
      ]
  answer-Effect (update_call faults now context task previous) table =
      elim (update_outcome faults now context task previous table) [
        | inl same ↦ unchanged same
        | inr (v, u) ↦ updated now context task previous v u
      ]

  Effect-IsWellFormed : {t t' : Table} → Effect t t' → IsWellFormed t → IsWellFormed t'
  Effect-IsWellFormed (unchanged e) w = rw e w
  Effect-IsWellFormed (created now context task v c) w = created-IsWellFormed c w
  Effect-IsWellFormed (updated now context task previous v u) w = updated-IsWellFormed u w

  -- From a well-formed table, and so from the empty one, every run of creates and updates leads to
  -- a well-formed table: task IDs are unique over all owners and not empty, and every version lies
  -- between 1 and the largest `bigint`.
  pub run-IsWellFormed :
      (calls : List (Call M A)) (table : Table)
      → IsWellFormed table
      → IsWellFormed (run calls table)
  unfolding run
  run-IsWellFormed [] table w = w
  run-IsWellFormed (call ∷ calls) table w =
      run-IsWellFormed calls (answer call table).1
        (Effect-IsWellFormed (answer-Effect call table) w)

  -- The caller and the task of a call stand for another key than `k` of `j`.
  abbrev pub IsAway : Option Identity → Option (Task M A) → Identity → Text → Type 0
  IsAway (some i) (some t) j k = IsApart i t.id j k
  IsAway none task j k = Unit
  IsAway (some i) none j k = Unit

  abbrev pub CallIsAway : Call M A → Identity → Text → Type 0
  CallIsAway (create_call faults now context task) j k = IsAway context task j k
  CallIsAway (update_call faults now context task previous) j k = IsAway context task j k

  prepared_away :
      (context : Option Identity) (task : Option (Task M A)) (t : Task M A) (i : Identity)
      (payload : Text) (j : Identity) (k : Text)
      → IsPrepared codec context task t i payload
      → IsAway context task j k
      → IsApart i t.id j k
  prepared_away none task t i payload j k p away = absurd (cc p.caller)
  prepared_away (some i') none t i payload j k p away = absurd (cc p.given)
  prepared_away (some i') (some t') t i payload j k p away =
      let caller : i' ≡ i = cc p.caller in
      let given : t' ≡ t = cc p.given in
      subst (λ x. IsApart x t.id j k) caller (subst (λ x. IsApart i' x.id j k) given away)

  create_frame :
      {now : ℕ} {context : Option Identity} {task : Option (Task M A)} {v : ℕ}
      {table table' : Table} (j : Identity) (k : Text)
      (c : IsCreated codec now context task v table table')
      → IsApart c.i c.t.id j k
      → find_row j k table' ≡ find_row j k table
  create_frame {now} {table = table} j k c apart =
      rw c.grown (missed_key codec now c.i j c.t k c.json table apart)

  update_frame :
      {now : ℕ} {context : Option Identity} {task : Option (Task M A)} {previous : Option ℕ} {v : ℕ}
      {table table' : Table} (j : Identity) (k : Text)
      (u : IsUpdated codec now context task previous v table table')
      → IsApart u.i u.t.id j k
      → find_row j k table' ≡ find_row j k table
  update_frame {now} {table = table} j k u apart = rw u.changed (
      find_row-update_ne u.i j u.t.id k (updated_row now u.t u.json) table
        (updated_row-KeepsKey codec now u.t u.json) apart)

  find_row-answer :
      (call : Call M A) (j : Identity) (k : Text) (table : Table)
      → CallIsAway call j k
      → find_row j k (answer call table).1 ≡ find_row j k table
  unfolding answer
  find_row-answer (create_call faults now context task) j k table away =
      elim (create_outcome faults now context task table) [
        | inl same ↦ ap (find_row j k) same
        | inr (v, c) ↦
            create_frame j k c (prepared_away context task c.t c.i c.payload j k c.prepared away)
      ]
  find_row-answer (update_call faults now context task previous) j k table away =
      elim (update_outcome faults now context task previous table) [
        | inl same ↦ ap (find_row j k) same
        | inr (v, u) ↦
            update_frame j k u (prepared_away context task u.t u.i u.payload j k u.prepared away)
      ]

  -- A create or an update, whether it succeeds or fails, does not change what `get` answers for any
  -- other key: another task ID, or the same ID asked for by another owner.
  pub get-answer_away :
      (call : Call M A) (faults : Faults) (j : Identity) (k : Text) (table : Table)
      → CallIsAway call j k
      → get codec faults (some j) k (answer call table).1 ≡ get codec faults (some j) k table
  get-answer_away call faults j k table away =
      get_congr codec faults j k _ table (find_row-answer call j k table away)
