-- ===== src/Storage/Store/Update.antt =====
-- What a successful `update` has done, and what a failed one may have done.
use mathlib.Core.Option
use a2a_red_panda_server_con.Prelude.{
  Text, ℕ, ◌+◌, ◌<◌, ◌≡◌, ◌↔◌, ◌⊎◌, inl, inr, false, Option, none, some, arith, Option-cases, ok,
  err, refl, ap, ◌∙◌, subst, ◌||◌, leb, Bool-cases,
}
use a2a_red_panda_server_con.Identity.{Identity, owner_key}
use a2a_red_panda_server_con.Storage.Store.{
  StoreError, invalid_params, Codec, Faults, max_bigint, is_stale, updated_row, prepare,
  update_transaction, update, IsFaithful, no_faults, get,
}
use a2a_red_panda_server_con.Storage.Store.Create.{
  on_table-eq-ok, answered, IsAtomic, on_table-IsAtomic, get_found,
}
use a2a_red_panda_server_con.Storage.Store.Lookup.{IsPrepared, prepare-IsPrepared}
use a2a_red_panda_server_con.Storage.Table.{Task, Row, Table, find_row, update_rows}
use a2a_red_panda_server_con.Storage.Table.Rows.{KeepsKey, find_row-update_self}

-- A version that an update accepts: none given, or the stored one.
abbrev pub IsCurrent : Option ℕ → ℕ → Type 0
IsCurrent previous stored = (previous ≡ none) ⊎ (previous ≡ some stored)

is_stale-IsCurrent :
    (previous : Option ℕ) (v : ℕ) → (is_stale previous v ≡ false) ↔ IsCurrent previous v
unfolding is_stale
is_stale-IsCurrent none v = ground arith
is_stale-IsCurrent (some p) v = ground arith

module _ {M A : Type 0} (codec : Codec M A) where
  -- An update that went through: the row it found, and the table behind it.
  pub record IsUpdated (now : ℕ) (context : Option Identity) (task : Option (Task M A))
      (previous : Option ℕ) (v : ℕ) (table table' : Table) : Type 0 where
    pub t : Task M A
    pub i : Identity
    pub payload : Text
    pub json : Text
    pub prepared : IsPrepared codec context task t i payload
    pub cast : codec.to_jsonb payload ≡ some json
    pub row : Row
    pub found : find_row i t.id table ≡ some row
    pub current : IsCurrent previous row.version
    pub bounded : row.version < max_bigint
    pub version : v ≡ row.version + 1
    pub changed : table' ≡ update_rows i t.id (updated_row now t json) table

  transaction_found :
      (faults : Faults) (now : ℕ) (i : Identity) (t : Task M A) (payload : Text)
      (previous : Option ℕ) (table table' : Table) (v : ℕ)
      → update_transaction codec faults now i t payload previous table ≡ (ok v, table')
      → (row : Row) × (json : Text) × (find_row i t.id table ≡ some row)
        × (codec.to_jsonb payload ≡ some json)
        × IsCurrent previous row.version
        × (row.version < max_bigint)
        × (v ≡ row.version + 1)
        × (table' ≡ update_rows i t.id (updated_row now t json) table)
  unfolding update_transaction
  transaction_found faults now i t payload previous table table' v h =
      elim (Option-cases (find_row i t.id table)) [
        | inl absent ↦ absurd (ground arith)
        | inr (row, found) ↦ elim (Option-cases (codec.to_jsonb payload)) [
          | inl refused ↦ absurd (ground arith)
          | inr (json, cast) ↦ (
            row,
            json,
            found,
            cast,
            ground (arith, is_stale-IsCurrent previous row.version),
            ground arith,
            ground arith,
            ground arith,
          )
        ]
      ]

  transaction-IsAtomic :
      (faults : Faults) (now : ℕ) (i : Identity) (t : Task M A) (payload : Text)
      (previous : Option ℕ) (table table' : Table) (e : StoreError)
      → update_transaction codec faults now i t payload previous table ≡ (err e, table')
      → IsAtomic faults e
          (update_transaction codec (answered faults) now i t payload previous table)
          table
          table'
  unfolding update_transaction
  transaction-IsAtomic faults now i t payload previous table table' e h =
      elim (Option-cases (find_row i t.id table)) [
        | inl absent ↦ inl (ground arith)
        | inr (row, found) ↦ elim (Option-cases (codec.to_jsonb payload)) [
          | inl refused ↦ inl (ground arith)
          | inr (json, cast) ↦
              elim (Bool-cases (
                faults.begin
                || faults.lock
                || is_stale previous row.version
                || faults.statement
                || leb max_bigint row.version
                || faults.commit)) [
                  | inl stopped ↦ inl (ground arith)
                  | inr sent ↦ inr (ground arith, ground arith, (row.version + 1, ground arith))
                ]
        ]
      ]

  pub update-IsUpdated :
      (faults : Faults) (now : ℕ) (context : Option Identity) (task : Option (Task M A))
      (previous : Option ℕ) (v : ℕ) (table table' : Table)
      → update codec faults now context task previous table ≡ (ok v, table')
      → IsUpdated now context task previous v table table'
  unfolding update
  update-IsUpdated faults now context task previous v table table' h =
      let ((t, i, payload), ready, h') =
        on_table-eq-ok (prepare codec invalid_params context task) table table' _ h in
      let (row, json, found, cast, current, bounded, version, changed) =
        transaction_found faults now i t payload previous table table' v h' in
      record {
        t = t;
        i = i;
        payload = payload;
        json = json;
        prepared = prepare-IsPrepared codec invalid_params context task t i payload ready;
        cast = cast;
        row = row;
        found = found;
        current = current;
        bounded = bounded;
        version = version;
        changed = changed;
      }

  pub update-IsAtomic :
      (faults : Faults) (now : ℕ) (context : Option Identity) (task : Option (Task M A))
      (previous : Option ℕ) (e : StoreError) (table table' : Table)
      → update codec faults now context task previous table ≡ (err e, table')
      → IsAtomic faults e
          (update codec (answered faults) now context task previous table)
          table
          table'
  unfolding update
  update-IsAtomic faults now context task previous e table table' =
      on_table-IsAtomic faults (prepare codec invalid_params context task) table table' _ _
        λ p. transaction-IsAtomic faults now p.1 p.0 p.2 previous table table' e

  pub updated_row-KeepsKey :
      (now : ℕ) (t : Task M A) (json : Text) → KeepsKey (updated_row now t json)
  unfolding updated_row
  updated_row-KeepsKey now t json r = (refl, refl, refl, refl)

  -- What `update` promises its caller `i` for the task `t`: the stored version was the one that the
  -- caller named, if it named one; it has grown by one; `get` returns the new task at the new
  -- version.
  pub record UpdateContract (i : Identity) (t : Task M A) (previous : Option ℕ) (v : ℕ)
      (table table' : Table) : Type 0 where
    pub stored : ℕ
    pub row : Row
    pub found : find_row i t.id table ≡ some row
    pub was : row.version ≡ stored
    pub current : IsCurrent previous stored
    pub version : v ≡ stored + 1
    pub present :
        get codec no_faults (some i) t.id table'
        ≡ ok (record { task = t; version = stored + 1; user = owner_key i })

  updated_contract :
      (faithful : IsFaithful codec) (now : ℕ) (context : Option Identity) (task : Option (Task M A))
      (previous : Option ℕ) (v : ℕ) (table table' : Table)
      (u : IsUpdated now context task previous v table table')
      → UpdateContract u.i u.t previous v table table'
  unfolding updated_row
  updated_contract faithful now context task previous v table table' u =
      let p = u.prepared in
      let keeps = updated_row-KeepsKey now u.t u.json in
      record {
        stored = u.row.version;
        row = u.row;
        found = u.found;
        was = refl;
        current = u.current;
        version = u.version;
        present = rw u.changed (
            get_found codec u.i u.t.id _ (updated_row now u.t u.json u.row) u.t p.named p.whole
              (find_row-update_self u.i u.t.id (updated_row now u.t u.json) table keeps
                ∙ ap (Option.map (updated_row now u.t u.json)) u.found)
              (faithful.decode-encode u.t u.payload u.json p.encoded u.cast));
      }

  -- Where encoding is faithful, an `update` that returns a version has replaced the caller's task,
  -- whose version was the one that the caller named, if any, and is now one more.
  pub update-UpdateContract :
      (faithful : IsFaithful codec) (faults : Faults) (now : ℕ) (i : Identity) (t : Task M A)
      (previous : Option ℕ) (v : ℕ) (table table' : Table)
      → update codec faults now (some i) (some t) previous table ≡ (ok v, table')
      → UpdateContract i t previous v table table'
  update-UpdateContract faithful faults now i t previous v table table' h =
      let u = update-IsUpdated faults now (some i) (some t) previous v table table' h in
      let same_task : u.t ≡ t = cc u.prepared.given in
      let same_caller : u.i ≡ i = cc u.prepared.caller in
      subst (λ x. UpdateContract x t previous v table table') same_caller
        (subst (λ x. UpdateContract u.i x previous v table table') same_task
          (updated_contract faithful now (some i) (some t) previous v table table' u))
