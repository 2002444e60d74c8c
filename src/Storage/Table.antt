-- ===== src/Storage/Table.antt =====
-- internal/storage/postgres/migrations/0001_create_a2a_tasks.sql and the statements of store.go:
-- the table of tasks, and what each statement reads and writes.
pub mod Rows
pub mod WellFormed
use a2a_red_panda_server_con.Prelude.{
  Text, ℕ, zero, suc, ◌+◌, Bool, true, false, ◌&&◌, ◌||◌, not, Option, none, some, List, [], ◌∷◌,
  str, text_eq, all, ◌==◌, if◌then◌else◌, select,
}
use a2a_red_panda_server_con.Identity.{Identity}

-- A task of the SDK, as far as this code reads it; `M` and `A` are its messages and artifacts.
pub record Task (M A : Type 0) : Type 0 where
  pub id : Text
  pub context_id : Text
  pub state : Text
  pub status_timestamp : Option ℕ
  pub history : List M
  pub artifacts : List A

-- Instants are counted in the database's microseconds.
pub record Row : Type 0 where
  pub task_id : Text
  pub tenant_id : Text
  pub owner_issuer : Text
  pub owner_subject : Text
  pub context_id : Text
  pub state : Text
  pub status_timestamp : Option ℕ
  pub task_json : Text
  pub version : ℕ
  pub created_at : ℕ
  pub updated_at : ℕ

abbrev pub Table : Type 0
Table = List Row

-- `tenant_id = … AND owner_issuer = … AND owner_subject = …`
unfoldable pub in_scope : Identity → Row → Bool
in_scope identity row =
    text_eq row.tenant_id identity.tenant
    && text_eq row.owner_issuer identity.issuer
    && text_eq row.owner_subject identity.subject

-- `task_id = … AND` the scope
unfoldable pub is_key : Identity → Text → Row → Bool
is_key identity id row = text_eq row.task_id id && in_scope identity row

-- `SELECT … WHERE task_id = … AND` the scope: the first row, if there is one.
unfoldable pub find_row : Identity → Text → Table → Option Row
find_row identity id [] = none
find_row identity id (row ∷ table) =
    let rest = find_row identity id table in if is_key identity id row then some row else rest

-- Whether the primary key is taken, by whatever owner.
unfoldable pub has_id : Text → Table → Bool
has_id id [] = false
has_id id (row ∷ table) = text_eq row.task_id id || has_id id table

-- `btrim(s) <> ''`
unfoldable pub not_blank : Text → Bool
not_blank s = not (all (λ c. c == b' ') s)

-- The `CHECK` constraints of a new row.
unfoldable pub satisfies_checks : Row → Bool
satisfies_checks row =
    not_blank row.tenant_id && not_blank row.owner_issuer && not_blank row.owner_subject

-- `UPDATE … SET … WHERE task_id = … AND` the scope
unfoldable pub update_rows : Identity → Text → (Row → Row) → Table → Table
update_rows identity id f [] = []
update_rows identity id f (row ∷ table) =
    (if is_key identity id row then f row else row) ∷ update_rows identity id f table
