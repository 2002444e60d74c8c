-- ===== src/Prelude/Dicts.antt =====
-- Go's maps with string keys, as association lists: `m[k]`, `delete(m, k)`, `m[k] = v`.
use mathlib.Core.Path.{◌≡◌}
use mathlib.Core.Option.{Option, none, some}
use mathlib.Core.List.{List, [], ◌∷◌}
use native.Mathlib.Omega.{arith}
use a2a_red_panda_server_con.Prelude.Tests.{if◌then◌else◌}
use a2a_red_panda_server_con.Prelude.Texts.{Text, text_eq, text_eq_iff}

abbrev pub Assoc {ℓ} : Type ℓ → Type ℓ
Assoc V = List (Text × V)

module _ {ℓ} {V : Type ℓ} where
  unfoldable pub lookup : Text → Assoc V → Option V
  lookup k [] = none
  lookup k ((j, v) ∷ m) = if text_eq j k then some v else lookup k m

  unfoldable pub without : Text → Assoc V → Assoc V
  without k [] = []
  without k ((j, v) ∷ m) = let rest = without k m in if text_eq j k then rest else (j, v) ∷ rest

  unfoldable pub insert : Text → V → Assoc V → Assoc V
  insert k v m = (k, v) ∷ without k m

  pub lookup-without :
      (k j : Text) (m : Assoc V)
      → lookup j (without k m) ≡ (if text_eq k j then none else lookup j m)
  unfolding lookup without
  lookup-without k j [] = ground arith
  lookup-without k j ((i, v) ∷ m) =
      ground (arith, lookup-without k j m, text_eq_iff i k, text_eq_iff i j, text_eq_iff k j)

  pub lookup-insert :
      (k j : Text) (v : V) (m : Assoc V)
      → lookup j (insert k v m) ≡ (if text_eq k j then some v else lookup j m)
  unfolding lookup insert
  lookup-insert k j v m = ground (arith, lookup-without k j m)
