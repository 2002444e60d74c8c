-- ===== src/Storage/Migrations/Source.antt =====
-- `readMigrations` and `CurrentSchemaVersion`. The directory that is embedded into the binary is a
-- list of entries, and SHA-256 is a parameter.
pub mod Ordered
pub mod Current
use mathlib.Core.List.{reverse}
use a2a_red_panda_server_con.Prelude.{
  Text, text_eq, str, ℕ, zero, suc, ◌+◌, ◌*◌, ◌-◌, Bool, true, false, ◌&&◌, ◌||◌, not, Option, none,
  some, List, [], ◌∷◌, ◌++◌, length, ltb, leb, ◌==◌, if◌then◌else◌, Result, ok, err, ◌>>=◌, ◌>>◌,
  refuse_if, or_fail, get_last?, pos,
}
use a2a_red_panda_server_con.Sorting.{sort}
use a2a_red_panda_server_con.Strings.{cut, trim_space}
use a2a_red_panda_server_con.Storage.Store.{max_bigint}
use a2a_red_panda_server_con.Storage.Migrations.{
  Migration, SchemaError, read_failed, no_version, invalid_version, duplicate_version,
  empty_migration, no_migrations,
}

-- An entry of the directory; `contents` is `none` where reading it fails.
pub record Entry : Type 0 where
  pub is_dir : Bool
  pub name : Text
  pub contents : Option Text

-- The suffix of a name from its last dot on, read from the end.
extension_loop : Text → Text → Text
extension_loop found [] = []
extension_loop found (c ∷ s) =
    let more = extension_loop (c ∷ found) s in
    if c == b'/' then [] else if c == b'.' then c ∷ found else more

-- `filepath.Ext(name)`
unfoldable pub extension : Text → Text
unfolding extension_loop
extension name = extension_loop [] (reverse name)

-- The digits of a number in base 10; anything else is a syntax error.
unfoldable pub digits : ℕ → Text → Option ℕ
digits n [] = some n
digits n (c ∷ s) =
    let rest = digits (n * 10 + (c - b'0')) s in if leb b'0' c && leb c b'9' then rest else none

-- `strconv.ParseInt(text, 10, 64)` and `version <= 0`: a sign, at least one digit, a positive value
-- in range. A minus sign leaves only values that are refused.
unfoldable pub parse_version : Text → Option ℕ
parse_version text =
    let unsigned : Text = elim text [ [] ↦ [] | c ∷ s ↦ if c == b'+' then s else c ∷ s ] in
    if length unsigned == 0 then none else elim (digits 0 unsigned) [
      | none ↦ none
      | some n ↦ if n == 0 || ltb max_bigint n then none else some n
    ]

-- `_, ok := seen[version]`: the versions seen are those of the result so far.
unfoldable pub has_version : ℕ → List Migration → Bool
has_version n [] = false
has_version n (m ∷ ms) = n == m.version || has_version n ms

-- `result[i].version < result[j].version`
unfoldable pub version_less : Migration → Migration → Bool
version_less m n = ltb m.version n.version

module _ (sha256 : Text → Text) where
  -- What one file gives, behind the files of the result so far.
  unfoldable pub read_entry : Entry → List Migration → Result SchemaError Migration
  read_entry entry result = do
    (prefix, _) ← or_fail (cut b'_' entry.name) no_version
    refuse_if (length prefix == 0) no_version
    version ← or_fail (parse_version prefix) invalid_version
    refuse_if (has_version version result) duplicate_version
    contents ← or_fail entry.contents read_failed
    refuse_if (length (trim_space contents) == 0) empty_migration
    ok (record {
      version = version;
      name = entry.name;
      contents = contents;
      checksum = sha256 contents;
    })

  unfoldable pub read_entries : List Entry → List Migration → Result SchemaError (List Migration)
  read_entries [] result = ok result
  read_entries (entry ∷ entries) result =
      if entry.is_dir || not (text_eq (extension entry.name) (str ".sql"))
      then read_entries entries result
      else read_entry entry result >>= λ item. read_entries entries (result ++ item ∷ [])

  -- The directory is `none` where it cannot be read.
  unfoldable pub read_migrations : Option (List Entry) → Result SchemaError (List Migration)
  read_migrations directory = do
    entries ← or_fail directory read_failed
    result ← read_entries entries []
    refuse_if (length result == 0) no_migrations
    ok (sort version_less result)

  unfoldable pub current_schema_version : Option (List Entry) → ℕ
  current_schema_version directory = elim (read_migrations directory) [
    | err e ↦ 0
    | ok migrations ↦ elim (get_last? migrations) [ none ↦ 0 | some m ↦ m.version ]
  ]
