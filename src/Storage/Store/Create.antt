-- ===== src/Storage/Store/Create.antt =====
-- What a successful `create` has done, and what a failed one may have done.
use a2a_red_panda_server_con.Prelude.{
  ◌≢◌, text_eq_refl, text_eq_iff, length, ◌==◌, Text, ℕ, ◌≡◌, refl, true, false, Option, some, ◌∷◌,
  arith, Result, ok, err, or_fail, or_fail-eq-ok, none, [], subst, ◌⊎◌, inl, inr, ◌||◌, not,
  Bool-cases,
}
use a2a_red_panda_server_con.Identity.{Identity, owner_key}
use a2a_red_panda_server_con.Storage.Store.{
  StoreError, invalid_params, Codec, Faults, new_row, insert_row, prepare, on_table, create,
  database_failed, IsFaithful, no_faults, decode_row, get, Answer,
}
use a2a_red_panda_server_con.Storage.Store.Lookup.{
  IsPrepared, prepare-IsPrepared, IsWhole, verified_identity_of_IsWhole,
}
use a2a_red_panda_server_con.Storage.Table.{
  in_scope, is_key, find_row, Task, Row, Table, has_id, satisfies_checks,
}
use a2a_red_panda_server_con.Storage.Table.Rows.{IsApart, find_row_free}

-- Inversion of a step that needs a result first.
pub on_table-eq-ok {ℓ κ} :
    {A : Type ℓ} {B : Type κ} (r : Result StoreError A) (t t' : Table)
    (f : A → Result StoreError B × Table) {b : B}
    → on_table r t f ≡ (ok b, t')
    → (a : A) × (r ≡ ok a) × (f a ≡ (ok b, t'))
on_table-eq-ok (ok a) t t' f h = (a, refl, h)
on_table-eq-ok (err e) t t' f h = cc

-- The same calls to the database, with their answers.
abbrev pub answered : Faults → Faults
answered faults = record faults { answer_lost = false }

-- What is left by a call that failed with `e`: the table as it was, or where the answer to the
-- commit was lost, the table that the same call makes when it is answered, which is `success`.
abbrev pub IsAtomic {κ} :
    {B : Type κ} → Faults → StoreError → (success : Answer B) → (table table' : Table) → Type κ
IsAtomic {B = B} faults e success table table' =
    (table' ≡ table)
    ⊎ ((e ≡ database_failed) × (faults.answer_lost ≡ true) × ((b : B) × (success ≡ (ok b, table'))))

pub on_table-IsAtomic {ℓ κ} :
    {A : Type ℓ} {B : Type κ} (faults : Faults) (r : Result StoreError A) (t t' : Table)
    (f g : A → Answer B) {e : StoreError}
    → ((a : A) → f a ≡ (err e, t') → IsAtomic faults e (g a) t t')
    → on_table r t f ≡ (err e, t')
    → IsAtomic faults e (on_table r t g) t t'
on_table-IsAtomic faults (ok a) t t' f g keep h = keep a h
on_table-IsAtomic faults (err x) t t' f g keep h = inl cc

insert_row-eq-ok :
    (faults : Faults) (row : Row) (t t' : Table) (v : ℕ)
    → insert_row faults row t ≡ (ok v, t')
    → (has_id row.task_id t ≡ false)
      × (v ≡ row.version)
      × (t' ≡ row ∷ t)
      × (satisfies_checks row ≡ true)
unfolding insert_row
insert_row-eq-ok faults row t t' v h = ground arith

insert_row-IsAtomic :
    (faults : Faults) (row : Row) (t t' : Table) (e : StoreError)
    → insert_row faults row t ≡ (err e, t')
    → IsAtomic faults e (insert_row (answered faults) row t) t t'
unfolding insert_row
insert_row-IsAtomic faults row t t' e h =
    elim (Bool-cases (faults.statement || not (satisfies_checks row))) [
      | inl stopped ↦ inl (ground (arith, stopped, h))
      | inr sent ↦ elim (Bool-cases (has_id row.task_id t)) [
        | inl taken ↦ inl (ground (arith, sent, taken, h))
        | inr fresh ↦ inr (ground (arith, h), ground (arith, h), (row.version, ground (arith, h)))
      ]
    ]

pub length_ne_zero : (s : Text) → s ≢ [] → (length s == 0) ≡ false
length_ne_zero [] ne = absurd (ne refl)
length_ne_zero (c ∷ s) ne = ground arith

module _ {M A : Type 0} (codec : Codec M A) where
  -- A created task: its row is new and stands before the old table.
  pub record IsCreated (now : ℕ) (context : Option Identity) (task : Option (Task M A)) (v : ℕ)
      (table table' : Table) : Type 0 where
    pub t : Task M A
    pub i : Identity
    pub payload : Text
    pub json : Text
    pub prepared : IsPrepared codec context task t i payload
    pub cast : codec.to_jsonb payload ≡ some json
    pub fresh : has_id t.id table ≡ false
    pub version : v ≡ 1
    pub grown : table' ≡ new_row now i t json ∷ table
    pub checked : satisfies_checks (new_row now i t json) ≡ true

  pub create-IsCreated :
      (faults : Faults) (now : ℕ) (context : Option Identity) (task : Option (Task M A)) (v : ℕ)
      (table table' : Table)
      → create codec faults now context task table ≡ (ok v, table')
      → IsCreated now context task v table table'
  unfolding create new_row
  create-IsCreated faults now context task v table table' h =
      let ((t, i, payload), ready, h') =
        on_table-eq-ok (prepare codec invalid_params context task) table table' _ h in
      let (json, cast, h'') =
        on_table-eq-ok (or_fail (codec.to_jsonb payload) database_failed) table table' _ h' in
      let (fresh, version, grown, checked) = insert_row-eq-ok faults _ table table' v h'' in
      record {
        t = t;
        i = i;
        payload = payload;
        json = json;
        prepared = prepare-IsPrepared codec invalid_params context task t i payload ready;
        cast = or_fail-eq-ok (codec.to_jsonb payload) database_failed cast;
        fresh = fresh;
        version = version;
        grown = grown;
        checked = checked;
      }

  pub create-IsAtomic :
      (faults : Faults) (now : ℕ) (context : Option Identity) (task : Option (Task M A))
      (e : StoreError) (table table' : Table)
      → create codec faults now context task table ≡ (err e, table')
      → IsAtomic faults e (create codec (answered faults) now context task table) table table'
  unfolding create
  create-IsAtomic faults now context task e table table' =
      on_table-IsAtomic faults (prepare codec invalid_params context task) table table' _ _ λ p.
        on_table-IsAtomic faults (or_fail (codec.to_jsonb p.2) database_failed) table table' _ _
          λ json. insert_row-IsAtomic faults _ table table' e

  found_key :
      (now : ℕ) (i : Identity) (t : Task M A) (json : Text) (table : Table)
      → find_row i t.id (new_row now i t json ∷ table) ≡ some (new_row now i t json)
  unfolding find_row is_key in_scope new_row
  found_key now i t json table = simp (
    text_eq_refl (t.id),
    text_eq_refl (i.tenant),
    text_eq_refl (i.issuer),
    text_eq_refl (i.subject),
  )

  pub missed_key :
      (now : ℕ) (i j : Identity) (t : Task M A) (k json : Text) (table : Table)
      → IsApart i t.id j k
      → find_row j k (new_row now i t json ∷ table) ≡ find_row j k table
  unfolding find_row is_key in_scope new_row
  missed_key now i j t k json table apart = ground (
    arith,
    text_eq_iff t.id k,
    text_eq_iff i.tenant j.tenant,
    text_eq_iff i.issuer j.issuer,
    text_eq_iff i.subject j.subject,
  )

  -- What `create` promises its caller `i` for the task `t`, in terms of `get`: the version is 1,
  -- the task was there for no owner, and `get` now returns it.
  pub record CreateContract (i : Identity) (t : Task M A) (v : ℕ) (table table' : Table)
      : Type 0 where
    pub version : v ≡ 1
    pub absent : (j : Identity) → find_row j t.id table ≡ none
    pub present :
        get codec no_faults (some i) t.id table'
        ≡ ok (record { task = t; version = 1; user = owner_key i })

  pub get_found :
      (i : Identity) (id : Text) (table : Table) (row : Row) (t : Task M A)
      → id ≢ []
      → IsWhole i
      → find_row i id table ≡ some row
      → codec.decode row.task_json ≡ some t
      → get codec no_faults (some i) id table
        ≡ ok (record { task = t; version = row.version; user = owner_key i })
  unfolding get decode_row
  get_found i id table row t named whole found decoded =
      simp (verified_identity_of_IsWhole i whole, found, decoded, length_ne_zero id named)

  created_contract :
      (faithful : IsFaithful codec) (now : ℕ) (context : Option Identity) (task : Option (Task M A))
      (v : ℕ) (table table' : Table) (c : IsCreated now context task v table table')
      → CreateContract c.i c.t v table table'
  unfolding new_row
  created_contract faithful now context task v table table' c =
      let p = c.prepared in
      record {
        version = c.version;
        absent = λ j. find_row_free j c.t.id table c.fresh;
        present = rw c.grown (
            get_found c.i c.t.id _ (new_row now c.i c.t c.json) c.t p.named p.whole
              (found_key now c.i c.t c.json table)
              (faithful.decode-encode c.t c.payload c.json p.encoded c.cast));
      }

  -- Where encoding is faithful, a `create` that returns a version has stored the task for its
  -- caller, at version 1, under an ID that no owner had.
  pub create-CreateContract :
      (faithful : IsFaithful codec) (faults : Faults) (now : ℕ) (i : Identity) (t : Task M A)
      (v : ℕ) (table table' : Table)
      → create codec faults now (some i) (some t) table ≡ (ok v, table')
      → CreateContract i t v table table'
  create-CreateContract faithful faults now i t v table table' h =
      let c = create-IsCreated faults now (some i) (some t) v table table' h in
      let same_task : c.t ≡ t = cc c.prepared.given in
      let same_caller : c.i ≡ i = cc c.prepared.caller in
      subst (λ x. CreateContract x t v table table') same_caller
        (subst (λ x. CreateContract c.i x v table table') same_task
          (created_contract faithful now (some i) (some t) v table table' c))
