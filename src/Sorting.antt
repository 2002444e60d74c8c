-- ===== src/Sorting.antt =====
-- Sorting by a Boolean order: the model of SQL's `ORDER BY` and of Go's `sort.Slice`, whose result
-- the order determines where it is linear on the list.
pub mod Laws
use a2a_red_panda_server_con.Prelude.{Bool, List, [], ◌∷◌, if◌then◌else◌}

module _ {ℓ} {A : Type ℓ} (before : A → A → Bool) where
  unfoldable pub insert_sorted : A → List A → List A
  insert_sorted x [] = x ∷ []
  insert_sorted x (y ∷ l) =
      let rest = insert_sorted x l in if before x y then x ∷ y ∷ l else y ∷ rest

  unfoldable pub sort : List A → List A
  unfolding insert_sorted
  sort [] = []
  sort (x ∷ l) = insert_sorted x (sort l)
