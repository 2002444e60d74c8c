-- ===== src/Storage/Table/WellFormed.antt =====
-- The invariant of the table of tasks, and that an update keeps it.
use a2a_red_panda_server_con.Prelude.{
  Text, text_eq_iff, ◌+◌, ◌≤◌, ◌<◌, ◌≡◌, refl, ◌∙◌, ◌≢◌, inl, inr, true, false, some, [], ◌∷◌,
  arith, Bool-cases,
}
use a2a_red_panda_server_con.Identity.{Identity}
use a2a_red_panda_server_con.Storage.Store.{max_bigint}
use a2a_red_panda_server_con.Storage.Table.{Row, Table, is_key, find_row, has_id, update_rows}
use a2a_red_panda_server_con.Storage.Table.Rows.{KeepsKey, has_id-update}

-- Task IDs are unique over all owners, no version is 0 or beyond `bigint`, and no ID is empty.
abbrev pub IsWellFormed : Table → Type 0
IsWellFormed [] = Unit
IsWellFormed (row ∷ table) =
    (has_id row.task_id table ≡ false)
    × (1 ≤ row.version)
    × (row.version ≤ max_bigint)
    × (row.task_id ≢ [])
    × IsWellFormed table

update_rows_free :
    (i : Identity) (id : Text) (f : Row → Row) (table : Table)
    → has_id id table ≡ false
    → update_rows i id f table ≡ table
unfolding update_rows has_id is_key
update_rows_free i id f [] free = refl
update_rows_free i id f (r ∷ table) free = ground (arith, update_rows_free i id f table)

pub key_id : (i : Identity) (id : Text) (r : Row) → is_key i id r ≡ true → r.task_id ≡ id
unfolding is_key
key_id i id r h = ground (arith, text_eq_iff r.task_id id)

-- A row that grows by one version, found by its key.
pub update_rows-IsWellFormed :
    (i : Identity) (id : Text) (f : Row → Row) (row : Row) (table : Table)
    → KeepsKey f
    → ((r : Row) → (f r).version ≡ r.version + 1)
    → find_row i id table ≡ some row
    → row.version < max_bigint
    → IsWellFormed table
    → IsWellFormed (update_rows i id f table)
unfolding update_rows find_row
update_rows-IsWellFormed i id f row [] keeps grows found small w = tt
update_rows-IsWellFormed i id f row (r ∷ table) keeps grows found small w =
    elim (Bool-cases (is_key i id r)) [
      | inl here ↦
          (let same = key_id i id r here in
            let rest = update_rows_free i id f table (rw (← same) w.0) in
            rw (here, rest)
              (
                ground (arith, keeps r),
                ground (arith, grows r),
                ground (arith, grows r),
                ground (arith, keeps r),
                w.4,
              ))
      | inr there ↦ rw there (
        has_id-update i id r.task_id f table keeps ∙ w.0,
        w.1,
        w.2,
        w.3,
        update_rows-IsWellFormed i id f row table keeps grows (ground arith) small w.4,
      )
    ]
