-- ===== src/Storage/Isolation.antt =====
-- Rows of other owners are out of reach: what a caller is answered depends only on the rows of the
-- caller's own scope.
use a2a_red_panda_server_con.Prelude.{
  Text, ℕ, ◌≡◌, refl, Bool, true, Option, some, [], ◌∷◌, arith, select, ap, ◌∙◌, inl, inr, none, ok,
  Result-cases,
}
use a2a_red_panda_server_con.Identity.{Identity}
use a2a_red_panda_server_con.Storage.Cursor.{TokenText}
use a2a_red_panda_server_con.Storage.Listing.{list_tasks, ListRequest, list_filter, list_page}
use a2a_red_panda_server_con.Storage.Store.{
  Codec, Faults, update_transaction, update, get, invalid_params, prepare,
}
use a2a_red_panda_server_con.Storage.Store.Lookup.{get_congr, verified_cases, prepare-IsPrepared}
use a2a_red_panda_server_con.Storage.Table.{Task, Row, Table, in_scope, is_key, find_row}

find_row-scope :
    (i : Identity) (id : Text) (table : Table)
    → find_row i id (select (in_scope i) table) ≡ find_row i id table
unfolding find_row is_key
find_row-scope i id [] = refl
find_row-scope i id (r ∷ table) = ground (arith, find_row-scope i id table)

filter_in_scope :
    (i : Identity) (request : ListRequest) (r : Row)
    → list_filter i request r ≡ true
    → in_scope i r ≡ true
unfolding list_filter
filter_in_scope i request r h = ground arith

list_filter-scope :
    (i : Identity) (request : ListRequest) (table : Table)
    → select (list_filter i request) (select (in_scope i) table)
      ≡ select (list_filter i request) table
list_filter-scope i request [] = refl
list_filter-scope i request (r ∷ table) =
    ground (arith, list_filter-scope i request table, filter_in_scope i request r)

module _ {M A : Type 0} (codec : Codec M A) (writer : TokenText) (less : Text → Text → Bool) where
  transaction_scope :
      (faults : Faults) (now : ℕ) (i : Identity) (t : Task M A) (payload : Text)
      (previous : Option ℕ) (table : Table)
      → (update_transaction codec faults now i t payload previous (select (in_scope i) table)).0
        ≡ (update_transaction codec faults now i t payload previous table).0
  unfolding update_transaction
  transaction_scope faults now i t payload previous table =
      ground (arith, find_row-scope i t.id table)

  update_scope :
      (faults : Faults) (now : ℕ) (i : Identity) (task : Option (Task M A)) (previous : Option ℕ)
      (table : Table)
      → (update codec faults now (some i) task previous (select (in_scope i) table)).0
        ≡ (update codec faults now (some i) task previous table).0
  unfolding update
  update_scope faults now i task previous table =
      elim (Result-cases (prepare codec invalid_params (some i) task)) [
        | inl ((t, i', payload), ready) ↦
            (let p = prepare-IsPrepared codec invalid_params (some i) task t i' payload ready in
              let same : i' ≡ i = cc p.caller in
              rw (ready ∙ ap (λ j. ok (t, j, payload)) same)
                (transaction_scope faults now i t payload previous table))
        | inr (e, refused) ↦ rw refused
      ]

  list_page-scope :
      (i : Identity) (request : ListRequest) (n : ℕ) (cursor : Option (ℕ × Text)) (table : Table)
      → list_page codec writer less i request n cursor (select (in_scope i) table)
        ≡ list_page codec writer less i request n cursor table
  unfolding list_page
  list_page-scope i request n cursor table = rw (list_filter-scope i request table)

  list_tasks-scope :
      (faults : Faults) (i : Identity) (request : Option ListRequest) (table : Table)
      → list_tasks codec writer less faults (some i) request (select (in_scope i) table)
        ≡ list_tasks codec writer less faults (some i) request table
  unfolding list_tasks
  list_tasks-scope faults i none table = refl
  list_tasks-scope faults i (some request) table = elim (verified_cases i) [
    | inl fine ↦ simp (fine, list_page-scope)
    | inr bad ↦ simp bad
  ]

  -- Reading, listing and updating answer alike on the table and on the caller's own rows of it; in
  -- particular a task of another owner is answered as if it did not exist.
  pub answers_in_scope :
      (faults : Faults) (now : ℕ) (i : Identity) (id : Text) (request : Option ListRequest)
      (task : Option (Task M A)) (previous : Option ℕ) (table : Table)
      → (get codec faults (some i) id (select (in_scope i) table)
          ≡ get codec faults (some i) id table)
        × (list_tasks codec writer less faults (some i) request (select (in_scope i) table)
            ≡ list_tasks codec writer less faults (some i) request table)
        × ((update codec faults now (some i) task previous (select (in_scope i) table)).0
            ≡ (update codec faults now (some i) task previous table).0)
  answers_in_scope faults now i id request task previous table = (
    get_congr codec faults i id _ table (find_row-scope i id table),
    list_tasks-scope faults i request table,
    update_scope faults now i task previous table,
  )
