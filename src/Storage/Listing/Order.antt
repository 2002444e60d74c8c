-- ===== src/Storage/Listing/Order.antt =====
-- The order of a page: strict, and linear on the rows of a table, whose IDs are unique.
use a2a_red_panda_server_con.Prelude.{
  Text, text_eq_iff, ◌≡◌, ◌≢◌, ◌⊎◌, inl, inr, Bool, true, false, [], ◌∷◌, arith, Bool-cases, select,
  All,
}
use a2a_red_panda_server_con.Sorting.Laws.{IsLinear}
use a2a_red_panda_server_con.Storage.Listing.{row_before}
use a2a_red_panda_server_con.Storage.Table.{Row, Table, has_id}
use a2a_red_panda_server_con.Storage.Table.WellFormed.{IsWellFormed}

-- What the database's collation promises: a strict linear order of texts.
pub record IsCollation (less : Text → Text → Bool) : Type 0 where
  pub less_trans : (a b c : Text) → less a b ≡ true → less b c ≡ true → less a c ≡ true
  pub less_asym : (a b : Text) → less a b ≡ true → less b a ≡ false
  pub less_total : (a b : Text) → a ≢ b → (less a b ≡ true) ⊎ (less b a ≡ true)

module _ (less : Text → Text → Bool) (c : IsCollation less) where
  pub row_before_trans :
      (r s t : Row)
      → row_before less r s ≡ true
      → row_before less s t ≡ true
      → row_before less r t ≡ true
  unfolding row_before
  row_before_trans r s t h k = ground (arith, c.less_trans t.task_id s.task_id r.task_id)

  pub row_before-asym : (r s : Row) → row_before less r s ≡ true → row_before less s r ≡ false
  unfolding row_before
  row_before-asym r s h = ground (arith, c.less_asym s.task_id r.task_id)

  row_before-total :
      (r s : Row)
      → r.task_id ≢ s.task_id
      → (row_before less r s ≡ true) ⊎ (row_before less s r ≡ true)
  unfolding row_before
  row_before-total r s ne = ground (arith, c.less_total r.task_id s.task_id)

  row_before-total_of_has_id :
      (r : Row) (t : Table)
      → has_id r.task_id t ≡ false
      → All (λ s. (row_before less r s ≡ true) ⊎ (row_before less s r ≡ true)) t
  unfolding has_id
  row_before-total_of_has_id r [] h = tt
  row_before-total_of_has_id r (s ∷ t) h = (
    row_before-total r s (ground (arith, text_eq_iff s.task_id r.task_id)),
    row_before-total_of_has_id r t (ground arith),
  )

  pub IsLinear-of_IsWellFormed : (t : Table) → IsWellFormed t → IsLinear (row_before less) t
  IsLinear-of_IsWellFormed [] w = tt
  IsLinear-of_IsWellFormed (r ∷ t) w =
      (row_before-total_of_has_id r t w.0, IsLinear-of_IsWellFormed t w.4)

  pub All-select_of_All :
      (P : Row → Type 0) (p : Row → Bool) (t : Table) → All P t → All P (select p t)
  All-select_of_All P p [] h = tt
  All-select_of_All P p (r ∷ t) (h, hs) = ground (arith, All-select_of_All P p t hs)

  pub IsLinear-select :
      (p : Row → Bool) (t : Table)
      → IsLinear (row_before less) t
      → IsLinear (row_before less) (select p t)
  IsLinear-select p [] h = tt
  IsLinear-select p (r ∷ t) (h, hs) = elim (Bool-cases (p r)) [
    | inl kept ↦ rw kept (All-select_of_All _ p t h, IsLinear-select p t hs)
    | inr dropped ↦ rw dropped (IsLinear-select p t hs)
  ]
