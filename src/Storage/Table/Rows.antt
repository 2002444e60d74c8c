-- ===== src/Storage/Table/Rows.antt =====
-- What a key finds after an insertion or an update.
use mathlib.Core.Option
use a2a_red_panda_server_con.Prelude.{
  Text, ◌≡◌, ◌≢◌, ◌⊎◌, refl, true, false, none, [], ◌∷◌, arith, text_eq_iff, Bool-cases, inl, inr,
  if◌then◌else◌,
}
use a2a_red_panda_server_con.Identity.{Identity}
use a2a_red_panda_server_con.Storage.Table.{
  Row, Table, in_scope, is_key, find_row, has_id, update_rows,
}

-- The two identities own the same tasks.
abbrev pub IsSameOwner : Identity → Identity → Type 0
IsSameOwner i j = (i.tenant ≡ j.tenant) × (i.issuer ≡ j.issuer) × (i.subject ≡ j.subject)

-- A change of a row that keeps its key.
abbrev pub KeepsKey : (Row → Row) → Type 0
KeepsKey f =
    (r : Row)
    → ((f r).task_id ≡ r.task_id)
      × ((f r).tenant_id ≡ r.tenant_id)
      × ((f r).owner_issuer ≡ r.owner_issuer)
      × ((f r).owner_subject ≡ r.owner_subject)

is_key_kept :
    (j : Identity) (k : Text) (f : Row → Row) (r : Row)
    → KeepsKey f
    → is_key j k (f r) ≡ is_key j k r
unfolding is_key in_scope
is_key_kept j k f r keeps = ground (arith, keeps r)

-- The key of an update finds the changed row.
pub find_row-update_self :
    (i : Identity) (id : Text) (f : Row → Row) (t : Table)
    → KeepsKey f
    → find_row i id (update_rows i id f t) ≡ Option.map f (find_row i id t)
unfolding find_row update_rows
find_row-update_self i id f [] keeps = refl
find_row-update_self i id f (r ∷ t) keeps =
    ground (arith, is_key_kept i id f r keeps, find_row-update_self i id f t keeps)

-- No row stands under both keys.
abbrev pub IsApart : Identity → Text → Identity → Text → Type 0
IsApart i id j k = (id ≢ k) ⊎ (¬ IsSameOwner i j)

key_apart :
    (i j : Identity) (id k : Text) (r : Row)
    → IsApart i id j k
    → is_key i id r ≡ true
    → is_key j k r ≡ false
unfolding is_key in_scope
key_apart i j id k r apart h = ground (
  arith,
  text_eq_iff r.task_id id,
  text_eq_iff r.task_id k,
  text_eq_iff r.tenant_id i.tenant,
  text_eq_iff r.tenant_id j.tenant,
  text_eq_iff r.owner_issuer i.issuer,
  text_eq_iff r.owner_issuer j.issuer,
  text_eq_iff r.owner_subject i.subject,
  text_eq_iff r.owner_subject j.subject,
)

-- Any other key finds what it found before.
pub find_row-update_ne :
    (i j : Identity) (id k : Text) (f : Row → Row) (t : Table)
    → KeepsKey f
    → IsApart i id j k
    → find_row j k (update_rows i id f t) ≡ find_row j k t
unfolding find_row update_rows
find_row-update_ne i j id k f [] keeps apart = refl
find_row-update_ne i j id k f (r ∷ t) keeps apart = elim (Bool-cases (is_key i id r)) [
  | inl here ↦ ground (
    arith,
    is_key_kept j k f r keeps,
    key_apart i j id k r apart,
    find_row-update_ne i j id k f t keeps apart,
  )
  | inr there ↦ ground (arith, find_row-update_ne i j id k f t keeps apart)
]

-- Where the primary key is free no owner finds a row.
pub find_row_free :
    (j : Identity) (id : Text) (t : Table) → has_id id t ≡ false → find_row j id t ≡ none
unfolding find_row has_id is_key
find_row_free j id [] h = refl
find_row_free j id (r ∷ t) h = ground (arith, find_row_free j id t)

pub has_id-update :
    (i : Identity) (id k : Text) (f : Row → Row) (t : Table)
    → KeepsKey f
    → has_id k (update_rows i id f t) ≡ has_id k t
unfolding has_id update_rows
has_id-update i id k f [] keeps = refl
has_id-update i id k f (r ∷ t) keeps = ground (arith, keeps r, has_id-update i id k f t keeps)

-- Whatever the key, an update changes the found row or leaves it, by its own key.
pub find_row-update :
    (i j : Identity) (id k : Text) (f : Row → Row) (t : Table)
    → KeepsKey f
    → find_row j k (update_rows i id f t)
      ≡ Option.map (λ r. if is_key i id r then f r else r) (find_row j k t)
unfolding find_row update_rows
find_row-update i j id k f [] keeps = refl
find_row-update i j id k f (r ∷ t) keeps =
    ground (arith, is_key_kept j k f r keeps, find_row-update i j id k f t keeps)
