-- ===== src/Storage/Store.antt =====
-- internal/storage/postgres/store.go: `Store.Create`, `Store.Update` and `Store.Get` as functions
-- from the table to the result and the new table. Each is one statement or one transaction that
-- holds the row's lock, so it is one atomic step here; `Faults` says which of the calls to the
-- database fail. A failed transaction is rolled back, but where the server has committed and its
-- answer is lost on the way, the caller is told of a failure too. JSON is a parameter, `Codec`.
pub mod Lookup
pub mod Create
pub mod Update
pub mod Runs
pub mod Versions
use a2a_red_panda_server_con.Prelude.{
  Text, ℕ, zero, suc, ◌+◌, Bool, true, false, ◌&&◌, ◌||◌, not, Option, none, some, List, [], ◌∷◌,
  length, text_eq, ◌==◌, ltb, leb, if◌then◌else◌, Result, ok, err, ◌>>=◌, ◌>>◌, refuse_if, or_fail,
  ◌≡◌,
}
use a2a_red_panda_server_con.Identity.{Identity, owner_key}
use a2a_red_panda_server_con.Storage.Table.{
  Task, Row, Table, find_row, has_id, satisfies_checks, update_rows,
}
use a2a_red_panda_server_con.Strings.{trim_space}

pub data StoreError : Type 0 where
  invalid_params invalid_request unauthenticated encode_failed decode_failed : StoreError
  task_already_exists task_not_found concurrent_modification : StoreError
  database_failed bad_page_token : StoreError

-- `json.Marshal`, the cast to `jsonb` (which may refuse and may respell) and `json.Unmarshal`.
pub record Codec (M A : Type 0) : Type 0 where
  pub encode : Task M A → Option Text
  pub to_jsonb : Text → Option Text
  pub decode : Text → Option (Task M A)

-- A task that was encoded and stored decodes to itself.
pub record IsFaithful {M A : Type 0} (c : Codec M A) : Type 0 where
  pub decode-encode :
      (t : Task M A) (payload stored : Text)
      → c.encode t ≡ some payload
      → c.to_jsonb payload ≡ some stored
      → c.decode stored ≡ some t

-- The calls to the database that fail: because it is out of reach, or because it refuses a value,
-- such as a text with a zero byte. `answer_lost` tells that the server commits, but its answer to
-- that does not arrive.
pub record Faults : Type 0 where
  pub statement : Bool
  pub begin : Bool
  pub lock : Bool
  pub commit : Bool
  pub answer_lost : Bool

abbrev pub no_faults : Faults
no_faults = record {
  statement = false;
  begin = false;
  lock = false;
  commit = false;
  answer_lost = false;
}

-- `strings.TrimSpace(s) == ""`
abbrev pub is_space : Text → Bool
is_space s = length (trim_space s) == 0

-- The identity of the request's context, if it is whole.
unfoldable pub verified_identity : Option Identity → Result StoreError Identity
verified_identity none = err unauthenticated
verified_identity (some identity) =
    if is_space identity.issuer || is_space identity.tenant || is_space identity.subject
    then err unauthenticated
    else ok identity

abbrev pub max_bigint : ℕ
max_bigint = 9223372036854775807

-- What an operation on the table answers, and the table behind it.
abbrev pub Answer {ℓ} : Type ℓ → Type ℓ
Answer A = Result StoreError A × Table

-- A result that leaves the table as it is, or goes on with it.
abbrev pub on_table {ℓ κ} :
    {A : Type ℓ} {B : Type κ}
    → Result StoreError A
    → Table
    → (A → Result StoreError B × Table)
    → Result StoreError B × Table
on_table (ok a) table f = f a
on_table (err e) table f = (err e, table)

pub record StoredTask (M A : Type 0) : Type 0 where
  pub task : Task M A
  pub version : ℕ
  pub user : Text

-- `INSERT … ON CONFLICT (task_id) DO NOTHING RETURNING version`. The constraints and the cast
-- are evaluated before the conflict is looked for. The statement commits by itself.
unfoldable pub insert_row : Faults → Row → Table → Answer ℕ
insert_row faults row table =
    if faults.statement || not (satisfies_checks row)
    then (err database_failed, table)
    else if has_id row.task_id table
    then (err task_already_exists, table)
    else if faults.answer_lost
    then (err database_failed, row ∷ table)
    else (ok row.version, row ∷ table)

-- `request.PrevVersion != TaskVersionMissing && PrevVersion != storedVersion`
unfoldable pub is_stale : Option ℕ → ℕ → Bool
is_stale none stored = false
is_stale (some previous) stored = not (previous == stored)

module _ {M A : Type 0} where
  -- The row that `INSERT` writes.
  unfoldable pub new_row : (now : ℕ) → Identity → Task M A → Text → Row
  new_row now identity task json = record {
    task_id = task.id;
    tenant_id = identity.tenant;
    owner_issuer = identity.issuer;
    owner_subject = identity.subject;
    context_id = task.context_id;
    state = task.state;
    status_timestamp = task.status_timestamp;
    task_json = json;
    version = 1;
    created_at = now;
    updated_at = now;
  }

  -- What `UPDATE` sets in the row.
  unfoldable pub updated_row : (now : ℕ) → Task M A → Text → Row → Row
  updated_row now task json row = record row {
    context_id = task.context_id;
    state = task.state;
    status_timestamp = task.status_timestamp;
    task_json = json;
    version = row.version + 1;
    updated_at = now;
  }

module _ {M A : Type 0} (codec : Codec M A) where
  -- The tests before the statement: the task, its identity, its encoding.
  unfoldable pub prepare :
      StoreError
      → Option Identity
      → Option (Task M A)
      → Result StoreError (Task M A × Identity × Text)
  prepare missing context task = do
    t ← or_fail task missing
    refuse_if (length t.id == 0) missing
    identity ← verified_identity context
    payload ← or_fail (codec.encode t) encode_failed
    ok (t, identity, payload)

  -- `Store.Create`; a nil task is `none`.
  unfoldable pub create :
      Faults → (now : ℕ) → Option Identity → Option (Task M A) → Table → Answer ℕ
  create faults now context task table =
      on_table (prepare invalid_params context task) table λ (t, identity, payload).
        on_table (or_fail (codec.to_jsonb payload) database_failed) table
          λ json. insert_row faults (new_row now identity t json) table

  -- The transaction of `Store.Update`: lock and read the row, compare versions, write, commit. A
  -- version that leaves the range of `bigint` makes the statement fail, and so does a refused cast.
  unfoldable pub update_transaction :
      Faults → (now : ℕ) → Identity → Task M A → Text → Option ℕ → Table → Answer ℕ
  update_transaction faults now identity task payload previous table =
      if faults.begin || faults.lock
      then (err database_failed, table)
      else elim (find_row identity task.id table) [
        | none ↦ (err task_not_found, table)
        | some row ↦
            if is_stale previous row.version
            then (err concurrent_modification, table)
            else elim (codec.to_jsonb payload) [
              | none ↦ (err database_failed, table)
              | some json ↦
                  if faults.statement || leb max_bigint row.version || faults.commit
                  then (err database_failed, table)
                  else (
                    if faults.answer_lost then err database_failed else ok (row.version + 1),
                    update_rows identity task.id (updated_row now task json) table,
                  )
            ]
      ]

  -- `Store.Update`; the version that the caller last saw is `none` where it has none.
  unfoldable pub update :
      Faults
      → (now : ℕ) → Option Identity
      → Option (Task M A)
      → (previous : Option ℕ) → Table
      → Answer ℕ
  update faults now context task previous table =
      on_table (prepare invalid_params context task) table
        λ (t, identity, payload). update_transaction faults now identity t payload previous table

  unfoldable pub decode_row : Identity → Row → Result StoreError (StoredTask M A)
  decode_row identity row = do
    task ← or_fail (codec.decode row.task_json) decode_failed
    ok (record { task = task; version = row.version; user = owner_key identity })

  -- `Store.Get`
  unfoldable pub get : Faults → Option Identity → Text → Table → Result StoreError (StoredTask M A)
  get faults context id table = do
    refuse_if (length id == 0) task_not_found
    identity ← verified_identity context
    refuse_if faults.statement database_failed
    row ← or_fail (find_row identity id table) task_not_found
    decode_row identity row
