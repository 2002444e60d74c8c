-- ===== src/Storage/Migrations/Verify/Accepts.antt =====
-- Which ledgers `verifyMigrationSet` accepts.
use a2a_red_panda_server_con.Prelude.{
  ℕ, ◌<◌, ◌≡◌, ◌↔◌, ◌⊎◌, inl, inr, refl, Bool, true, not, some, List, [], ◌∷◌, arith, ok, ltb, All,
  ℤ, pos, negsuc, Option-cases, Bool-cases, text_eq, text_eq_iff, if◌then◌else◌, or_fail,
  or_fail-eq-ok, refuse_if, refuse_if-eq-ok, >>=-eq-ok,
}
use a2a_red_panda_server_con.Storage.Migrations.{
  Migration, LedgerRow, Ledger, is_version, find_migration, is_applied,
}
use a2a_red_panda_server_con.Storage.Migrations.Verify.{
  verify_applied, verify_pending, verify_migration_set,
}

-- The row stands for a migration of the binary, under its name and checksum.
abbrev pub IsRecorded : List Migration → LedgerRow → Type 0
IsRecorded migrations row =
    (item : Migration) × (find_migration row.version migrations ≡ some item)
    × (row.name ≡ item.name)
    × (row.checksum ≡ item.checksum)

abbrev pub IsBelow : ℤ → ℕ → Type 0
IsBelow (pos m) n = m < n
IsBelow (negsuc m) n = Unit

-- The migration is in the ledger, or it may still be pending: then all of the ledger is older.
abbrev pub IsInOrder : Ledger → Bool → Migration → Type 0
IsInOrder applied allow_pending item =
    (is_applied item.version applied ≡ true)
    ⊎ ((allow_pending ≡ true) × All (λ row. IsBelow row.version item.version) applied)

version_case : (v : ℤ) (m : Migration) → is_version m.version v ≡ true → v ≡ pos m.version
unfolding is_version
version_case (pos n) m h = ground arith
version_case (negsuc n) m h = cc

pub find_migration_version :
    (v : ℤ) (ms : List Migration) (item : Migration)
    → find_migration v ms ≡ some item
    → v ≡ pos item.version
unfolding find_migration
find_migration_version v [] item h = cc
find_migration_version v (m ∷ ms) item h = elim (Option-cases (find_migration v ms)) [
  | inl none_later ↦ elim (Bool-cases (is_version m.version v)) [
    | inl here ↦ ground (arith, version_case v m here)
    | inr elsewhere ↦ absurd (ground arith)
  ]
  | inr (later, found) ↦
      (let same : later ≡ item = ground arith in
        rw same at (find_migration_version v ms later found))
]

higher_of : (k m v : ℕ) → ((if ltb k m then m else k) < v) ↔ ((k < v) × (m < v))
higher_of k m v = elim (Bool-cases (ltb k m)) [
  | inl above ↦ ground arith
  | inr below ↦ ground arith
]

highest_step :
    (k m v : ℕ) {max : ℕ} (P : Type 0)
    → (max < v) ↔ (((if ltb k m then m else k) < v) × P)
    → (max < v) ↔ ((k < v) × ((m < v) × P))
highest_step k m v P h = (
  λ x. let (l, p) = h.0 x in let (a, b) = (higher_of k m v).0 l in (a, (b, p)),
  λ y. h.1 ((higher_of k m v).1 (y.0, y.1.0), y.1.1),
)

-- What the first loop finds out: every row is recorded, and what the highest version is.
applied-IsRecorded :
    (ms : List Migration) (rows : Ledger) (k max : ℕ)
    → verify_applied ms rows k ≡ ok max
    → All (IsRecorded ms) rows
      × ((v : ℕ) → (max < v) ↔ ((k < v) × All (λ row. IsBelow row.version v) rows))
unfolding verify_applied
applied-IsRecorded ms [] k max h = (tt, λ v. ground arith)
applied-IsRecorded ms (row ∷ rows) k max h =
    let (item, given, h') = >>=-eq-ok (or_fail (find_migration row.version ms) _) _ h in
    let (_, named, h'') = >>=-eq-ok (refuse_if (not (text_eq row.name item.name)) _) _ h' in
    let (_, summed, h''') =
      >>=-eq-ok (refuse_if (not (text_eq row.checksum item.checksum)) _) _ h'' in
    let (recorded, highest) = applied-IsRecorded ms rows _ max h''' in
    let found = or_fail-eq-ok (find_migration row.version ms) _ given in
    (
      (
        (
          item,
          found,
          ground (arith, refuse_if-eq-ok _ _ named, text_eq_iff row.name item.name),
          ground (arith, refuse_if-eq-ok _ _ summed, text_eq_iff row.checksum item.checksum),
        ),
        recorded,
      ),
      λ v.
          rw (find_migration_version row.version ms item found)
            (highest_step k item.version v _ (highest v)),
    )

IsRecorded-applied :
    (ms : List Migration) (rows : Ledger) (k : ℕ)
    → All (IsRecorded ms) rows
    → (max : ℕ) × (verify_applied ms rows k ≡ ok max)
unfolding verify_applied
IsRecorded-applied ms [] k h = (k, refl)
IsRecorded-applied ms (row ∷ rows) k ((item, found, name, checksum), h) =
    let (max, rest) =
      IsRecorded-applied ms rows (if ltb k item.version then item.version else k) h in
    (
      max,
      ground (arith, found, text_eq_iff row.name item.name, text_eq_iff row.checksum item.checksum),
    )

pending-eq-ok :
    (ms : List Migration) (applied : Ledger) (max : ℕ) (allow : Bool)
    → (verify_pending ms applied max allow ≡ ok tt)
      ↔ All (λ m. (is_applied m.version applied ≡ true) ⊎ ((allow ≡ true) × (max < m.version))) ms
unfolding verify_pending
pending-eq-ok [] applied max allow = (λ h. tt, λ h. refl)
pending-eq-ok (m ∷ ms) applied max allow = ground (arith, pending-eq-ok ms applied max allow)

in_order_step :
    {A B P : Type 0} (v max : ℕ)
    → 0 < v
    → (max < v) ↔ ((0 < v) × P)
    → (A ⊎ (B × (max < v))) ↔ (A ⊎ (B × P))
in_order_step v max positive h = (
  λ x. elim x [ inl a ↦ inl a | inr (b, l) ↦ inr (b, (h.0 l).1) ],
  λ x. elim x [ inl a ↦ inl a | inr (b, p) ↦ inr (b, h.1 (positive, p)) ],
)

highest-IsInOrder :
    (ms : List Migration) (applied : Ledger) (allow : Bool) (max : ℕ)
    → All (λ m. 0 < m.version) ms
    → ((v : ℕ) → (max < v) ↔ ((0 < v) × All (λ row. IsBelow row.version v) applied))
    → All (λ m. (is_applied m.version applied ≡ true) ⊎ ((allow ≡ true) × (max < m.version))) ms
      ↔ All (IsInOrder applied allow) ms
highest-IsInOrder [] applied allow max p h = (λ x. tt, λ x. tt)
highest-IsInOrder (m ∷ ms) applied allow max (p, ps) h =
    let one = in_order_step m.version max p (h m.version) in
    let rest = highest-IsInOrder ms applied allow max ps h in
    (λ x. (one.0 x.0, rest.0 x.1), λ x. (one.1 x.0, rest.1 x.1))

-- A ledger is accepted exactly when each of its rows is a migration of the binary with the same
-- name and checksum, and each migration of the binary is in the ledger or, where pending ones are
-- allowed, has a higher version than all that are. So no migration is slipped in below an applied
-- one.
pub verify_migration_set-eq-ok :
    (migrations : List Migration) (applied : Ledger) (allow_pending : Bool)
    → All (λ m. 0 < m.version) migrations
    → (verify_migration_set migrations applied allow_pending ≡ ok tt)
      ↔ (All (IsRecorded migrations) applied × All (IsInOrder applied allow_pending) migrations)
unfolding verify_migration_set
verify_migration_set-eq-ok ms applied allow positive = (
  λ h.
      let (max, first, second) = >>=-eq-ok (verify_applied ms applied 0) _ h in
      let (recorded, highest) = applied-IsRecorded ms applied 0 max first in
      (
        recorded,
        (highest-IsInOrder ms applied allow max positive highest).0
            ((pending-eq-ok ms applied max allow).0 second),
      ),
  λ (recorded, ordered).
      let (max, first) = IsRecorded-applied ms applied 0 recorded in
      let (_, highest) = applied-IsRecorded ms applied 0 max first in
      rw first (
        (pending-eq-ok ms applied max allow).1
          ((highest-IsInOrder ms applied allow max positive highest).1 ordered)),
)
