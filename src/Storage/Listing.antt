-- ===== src/Storage/Listing.antt =====
-- internal/storage/postgres/store.go: `Store.List`, `listFilter` and `shapeListedTask`. The
-- transaction reads one snapshot, so it is a function of one table. The order of task IDs is the
-- database's collation, a parameter.
pub mod Order
pub mod Shape
pub mod Rows
pub mod Pages
pub mod Complete
use mathlib.Core.Option.{get_or}
use a2a_red_panda_server_con.Prelude.{
  Text, text_eq, ℕ, ◌+◌, ◌-◌, Bool, true, ◌&&◌, ◌||◌, not, Option, none, some, List, [], ◌∷◌, ltb,
  leb, ◌==◌, if◌then◌else◌, ok, err, length, take, drop, select, Result, ◌>>=◌, refuse_if, or_fail,
  ℤ, pos, negsuc, ◌>>◌, get_last?,
}
use a2a_red_panda_server_con.Identity.{Identity}
use a2a_red_panda_server_con.Sorting.{sort}
use a2a_red_panda_server_con.Storage.Cursor.{TokenText, encode_page_token, decode_page_token}
use a2a_red_panda_server_con.Storage.Store.{
  StoreError, invalid_request, decode_failed, database_failed, bad_page_token, Codec, Faults,
  verified_identity,
}
use a2a_red_panda_server_con.Storage.Table.{Task, Row, Table, in_scope}

-- A status or an instant that the request leaves open is `none`.
pub record ListRequest : Type 0 where
  pub context_id : Text
  pub status : Option Text
  pub status_timestamp_after : Option ℕ
  pub page_size : ℤ
  pub page_token : Text
  pub history_length : Option ℤ
  pub include_artifacts : Bool

pub record ListResponse (M A : Type 0) : Type 0 where
  pub tasks : List (Task M A)
  pub page_size : ℕ
  pub total_size : ℕ
  pub next_page_token : Text

-- `status_timestamp IS NULL OR status_timestamp >= after`
abbrev pub not_before : Option ℕ → ℕ → Bool
not_before none after = true
not_before (some timestamp) after = leb after timestamp

-- The condition of the `WHERE` clause.
unfoldable pub list_filter : Identity → ListRequest → Row → Bool
list_filter identity request row =
    in_scope identity row
    && (length request.context_id == 0 || text_eq row.context_id request.context_id)
    && elim request.status [ none ↦ true | some status ↦ text_eq row.state status ]
    && elim request.status_timestamp_after [
      | none ↦ true
      | some after ↦ not_before row.status_timestamp after
    ]

-- 50 where the request has no page size; otherwise between 1 and 100.
unfoldable pub page_size_of : ℤ → Result StoreError ℕ
page_size_of (negsuc n) = err invalid_request
page_size_of (pos n) =
    if n == 0 then ok 50 else if ltb n 1 || ltb 100 n then err invalid_request else ok n

-- The last `n` items of a list.
unfoldable pub take_last {ℓ} : {A : Type ℓ} → ℕ → List A → List A
take_last n l = drop (length l - n) l

unfoldable pub shape_history {ℓ} : {M : Type ℓ} → ℤ → List M → List M
unfolding take_last
shape_history (negsuc n) history = history
shape_history (pos n) history =
    if n == 0 then [] else if ltb n (length history) then take_last n history else history

unfoldable pub shape_listed_task : {M A : Type 0} → Task M A → ListRequest → Task M A
unfolding shape_history
shape_listed_task task request = record task {
  history = shape_history (get_or request.history_length (pos 100)) task.history;
  artifacts = if not request.include_artifacts then [] else task.artifacts;
}

abbrev pub max_int : ℕ
max_int = 9223372036854775807

module _ (id_less : Text → Text → Bool) where
  -- `(updated_at, task_id) < (time, id)`
  unfoldable pub key_less : ℕ → Text → ℕ → Text → Bool
  key_less updated_at task_id time id =
      ltb updated_at time || (updated_at == time && id_less task_id id)

  -- `ORDER BY updated_at DESC, task_id DESC`
  unfoldable pub row_before : Row → Row → Bool
  unfolding key_less
  row_before r s = key_less s.updated_at s.task_id r.updated_at r.task_id

  -- The rows of one page and the first of the next one.
  unfoldable pub page_rows : ℕ → Option (ℕ × Text) → List Row → List Row
  page_rows page_size none rows = take (page_size + 1) (sort row_before rows)
  page_rows page_size (some (time, id)) rows =
      take (page_size + 1)
        (sort row_before (select (λ r. key_less r.updated_at r.task_id time id) rows))

module _ {M A : Type 0} (codec : Codec M A) where
  -- The loop over the rows; the first one that does not decode ends the call.
  unfoldable pub decode_rows : ListRequest → List Row → Result StoreError (List (Task M A))
  decode_rows request [] = ok []
  decode_rows request (row ∷ rows) =
      let rest = decode_rows request rows in
      elim (codec.decode row.task_json) [
        | none ↦ err decode_failed
        | some task ↦ rest >>= λ tasks. ok (shape_listed_task task request ∷ tasks)
      ]

  module _ (text : TokenText) (id_less : Text → Text → Bool) where
    -- The token of the page's last row, where there are rows behind the page.
    unfoldable pub next_token : ℕ → List Row → Text
    next_token page_size rows =
        if ltb page_size (length rows)
        then elim (get_last? (take page_size rows)) [
          | none ↦ []
          | some row ↦ encode_page_token text row.updated_at row.task_id
        ]
        else []

    -- The cursor of the request: none without a token.
    unfoldable pub cursor_of : Text → Result StoreError (Option (ℕ × Text))
    cursor_of token = if length token == 0 then ok none else elim (decode_page_token text token) [
      | none ↦ err bad_page_token
      | some cursor ↦ ok (some cursor)
    ]

    -- What the transaction reads, and the response that is made of it.
    unfoldable pub list_page :
        Identity
        → ListRequest
        → ℕ
        → Option (ℕ × Text)
        → Table
        → Result StoreError (ListResponse M A)
    list_page identity request page_size cursor table = do
      let matching = select (list_filter identity request) table
      refuse_if (ltb max_int (length matching)) database_failed
      let rows = page_rows id_less page_size cursor matching
      tasks ← decode_rows request rows
      ok (record {
        tasks = take page_size tasks;
        page_size = page_size;
        total_size = length matching;
        next_page_token = next_token page_size rows;
      })

    -- `Store.List`; a nil request is `none`.
    unfoldable pub list_tasks :
        Faults → Option Identity → Option ListRequest → Table → Result StoreError (ListResponse M A)
    list_tasks faults context request table = do
      request' ← or_fail request invalid_request
      identity ← verified_identity context
      page_size ← page_size_of request'.page_size
      cursor ← cursor_of request'.page_token
      refuse_if (faults.begin || faults.statement) database_failed
      page ← list_page identity request' page_size cursor table
      refuse_if faults.commit database_failed
      ok page
