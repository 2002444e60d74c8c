-- ===== src/Storage/Migrations/Source/Current.antt =====
-- `CurrentSchemaVersion` is the highest version.
use a2a_red_panda_server_con.Prelude.{
  Text, ◌≤◌, ◌≡◌, refl, Option, some, List, [], ◌∷◌, arith, ok, All, Among, get_last?, inl, inr,
  ltb→lt,
}
use a2a_red_panda_server_con.Sorting.Laws.{IsSorted}
use a2a_red_panda_server_con.Storage.Migrations.{Migration}
use a2a_red_panda_server_con.Storage.Migrations.Source.{
  Entry, version_less, read_migrations, current_schema_version,
}
use a2a_red_panda_server_con.Storage.Migrations.Source.Ordered.{read_migrations-IsSorted}

-- The last migration of a sorted list is in it, and no version is above its version.
last_highest :
    (m : Migration) (ms : List Migration)
    → IsSorted version_less (m ∷ ms)
    → (last : Migration) × (get_last? (m ∷ ms) ≡ some last)
      × Among last (m ∷ ms)
      × All (λ x. x.version ≤ last.version) (m ∷ ms)
unfolding version_less
last_highest m [] s = (m, refl, inl refl, (omega arith, tt))
last_highest m (n ∷ ms) ((below, _), s) =
    let (last, found, among, highest) = last_highest n ms s in
    (last, found, inr among, (omega (arith, highest.0, ltb→lt m.version n.version below), highest))

-- Where the migrations can be read and there are some, the current schema version is that of one
-- of them, and none has a higher one.
pub current_schema_version_highest :
    (sha256 : Text → Text) (directory : Option (List Entry)) (m : Migration) (ms : List Migration)
    → read_migrations sha256 directory ≡ ok (m ∷ ms)
    → (last : Migration) × (current_schema_version sha256 directory ≡ last.version)
      × Among last (m ∷ ms)
      × All (λ x. x.version ≤ last.version) (m ∷ ms)
unfolding current_schema_version
current_schema_version_highest sha256 directory m ms read =
    let (last, found, among, highest) =
      last_highest m ms (read_migrations-IsSorted sha256 directory (m ∷ ms) read).0 in
    (last, ground (arith, read, found), among, highest)
