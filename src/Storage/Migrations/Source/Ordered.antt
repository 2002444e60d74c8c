-- ===== src/Storage/Migrations/Source/Ordered.antt =====
-- What the migrations that were read satisfy.
use a2a_red_panda_server_con.Prelude.{
  Text, ℕ, ◌≤◌, ◌<◌, ◌≡◌, inl, inr, refl, true, false, not, ◌||◌, Option, none, some, List, [], ◌∷◌,
  ◌++◌, arith, ok, ltb, ◌==◌, length, All, All-append, pos, Bool-cases, or_fail, or_fail-eq-ok,
  refuse_if, refuse_if-eq-ok, >>=-eq-ok, str, text_eq,
}
use a2a_red_panda_server_con.Sorting.{sort}
use a2a_red_panda_server_con.Sorting.Laws.{IsSorted, IsLinear, All-sort, sort-IsSorted}
use a2a_red_panda_server_con.Storage.Migrations.{Migration, is_version, find_migration}
use a2a_red_panda_server_con.Storage.Migrations.Source.{
  Entry, parse_version, has_version, version_less, read_entry, read_entries, read_migrations,
  extension,
}
use a2a_red_panda_server_con.Storage.Store.{max_bigint}
use a2a_red_panda_server_con.Strings.{cut, trim_space}

parse_version_positive : (s : Text) (n : ℕ) → parse_version s ≡ some n → (0 < n) × (n ≤ max_bigint)
unfolding parse_version
parse_version_positive s n h = ground arith

module _ (sha256 : Text → Text) where
  -- What one migration satisfies: a positive `bigint` as its version, and its checksum is that of
  -- its contents.
  abbrev pub IsSound : Migration → Type 0
  IsSound m = (0 < m.version) × (m.version ≤ max_bigint) × (m.checksum ≡ sha256 m.contents)

  read_entry-IsSound :
      (entry : Entry) (result : List Migration) (m : Migration)
      → read_entry sha256 entry result ≡ ok m
      → IsSound m × (has_version m.version result ≡ false)
  unfolding read_entry
  read_entry-IsSound entry result m h =
      let ((prefix, _), _, h1) = >>=-eq-ok (or_fail (cut b'_' entry.name) _) _ h in
      let (_, _, h2) = >>=-eq-ok (refuse_if (length prefix == 0) _) _ h1 in
      let (version, parsed, h3) = >>=-eq-ok (or_fail (parse_version prefix) _) _ h2 in
      let (_, fresh, h4) = >>=-eq-ok (refuse_if (has_version version result) _) _ h3 in
      let (contents, given, h5) = >>=-eq-ok (or_fail entry.contents _) _ h4 in
      let (_, filled, h6) = >>=-eq-ok (refuse_if (length (trim_space contents) == 0) _) _ h5 in
      let (positive, small) =
        parse_version_positive prefix version (or_fail-eq-ok (parse_version prefix) _ parsed) in
      let same : m ≡ record {
        version = version;
        name = entry.name;
        contents = contents;
        checksum = sha256 contents;
      } =
        ground arith in
      rw same ((positive, small, refl), refuse_if-eq-ok _ _ fresh)

  -- What the result satisfies round by round: versions differ.
  abbrev pub IsGood : List Migration → Type 0
  IsGood ms = All IsSound ms × IsLinear version_less ms

  IsLinear-append :
      (m : Migration) (ms : List Migration)
      → has_version m.version ms ≡ false
      → IsLinear version_less ms
      → IsLinear version_less (ms ++ m ∷ [])
  unfolding has_version version_less
  IsLinear-append m [] fresh h = (tt, tt)
  IsLinear-append m (x ∷ ms) fresh (c, h) =
      (All-append _ ms (m ∷ []) c (ground arith, tt), IsLinear-append m ms (ground arith) h)

  read_entries-IsGood :
      (entries : List Entry) (result ms : List Migration)
      → read_entries sha256 entries result ≡ ok ms
      → IsGood result
      → IsGood ms
  unfolding read_entries
  read_entries-IsGood [] result ms h good = let same : result ≡ ms = ground arith in rw same at good
  read_entries-IsGood (entry ∷ entries) result ms h (sound, linear) =
      elim (Bool-cases (entry.is_dir || not (text_eq (extension entry.name) (str ".sql")))) [
        | inl skipped ↦ read_entries-IsGood entries result ms (ground arith) (sound, linear)
        | inr taken ↦
            (let (m, read, h') = >>=-eq-ok (read_entry sha256 entry result) _ (rw taken at h) in
              let (fine, fresh) = read_entry-IsSound entry result m read in
              read_entries-IsGood entries (result ++ m ∷ []) ms h' (
                All-append IsSound result (m ∷ []) sound (fine, tt),
                IsLinear-append m result fresh linear,
              ))
      ]

  version_less_trans :
      (x y z : Migration)
      → version_less x y ≡ true
      → version_less y z ≡ true
      → version_less x z ≡ true
  unfolding version_less
  version_less_trans x y z h k = ground arith

  -- The migrations that are read from a directory are sorted by strictly rising versions; every
  -- version is a positive `bigint`, every checksum that of the contents.
  pub read_migrations-IsSorted :
      (directory : Option (List Entry)) (ms : List Migration)
      → read_migrations sha256 directory ≡ ok ms
      → IsSorted version_less ms × All IsSound ms
  unfolding read_migrations
  read_migrations-IsSorted directory ms h =
      let (entries, _, h1) = >>=-eq-ok (or_fail directory _) _ h in
      let (result, read, h2) = >>=-eq-ok (read_entries sha256 entries []) _ h1 in
      let (_, _, h3) = >>=-eq-ok (refuse_if (length result == 0) _) _ h2 in
      let (sound, linear) = read_entries-IsGood entries [] result read (tt, tt) in
      let same : ms ≡ sort version_less result = ground arith in
      rw same (
        sort-IsSorted version_less version_less_trans result linear,
        All-sort version_less IsSound result sound,
      )

-- In a list with rising versions every migration is found under its version.
missing_below :
    (v : ℕ) (ms : List Migration)
    → All (λ m. ltb v m.version ≡ true) ms
    → find_migration (pos v) ms ≡ none
unfolding find_migration is_version
missing_below v [] h = refl
missing_below v (m ∷ ms) (p, h) = ground (arith, missing_below v ms h)

found_behind :
    (x : Migration) (found : List Migration) (ms : List Migration)
    → All (λ m. find_migration (pos m.version) ms ≡ some m) found
    → All (λ m. find_migration (pos m.version) (x ∷ ms) ≡ some m) found
unfolding find_migration
found_behind x [] ms h = tt
found_behind x (m ∷ found) ms (p, h) = (ground arith, found_behind x found ms h)

pub found_each :
    (ms : List Migration)
    → IsSorted version_less ms
    → All (λ m. find_migration (pos m.version) ms ≡ some m) ms
unfolding version_less find_migration is_version
found_each [] s = tt
found_each (m ∷ ms) (s, ss) =
    (ground (arith, missing_below m.version ms s), found_behind m ms ms (found_each ms ss))
