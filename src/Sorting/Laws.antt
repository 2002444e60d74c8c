-- ===== src/Sorting/Laws.antt =====
-- Sorting gives an ordered list of the same items, and commutes with selecting.
use a2a_red_panda_server_con.Prelude.{
  suc, ◌≡◌, refl, ◌⊎◌, inl, inr, Bool, true, List, [], ◌∷◌, arith, if◌then◌else◌, Bool-cases,
  length, select, All, false, ◌++◌,
}
use a2a_red_panda_server_con.Sorting.{insert_sorted, sort}

module _ {ℓ} {A : Type ℓ} (before : A → A → Bool) where
  -- Each item comes before all that follow it.
  abbrev pub IsSorted : List A → Type 0
  IsSorted [] = Unit
  IsSorted (x ∷ l) = All (λ y. before x y ≡ true) l × IsSorted l

  -- Of any two items one comes before the other.
  abbrev pub IsLinear : List A → Type 0
  IsLinear [] = Unit
  IsLinear (x ∷ l) = All (λ y. (before x y ≡ true) ⊎ (before y x ≡ true)) l × IsLinear l

  All-insert_sorted {κ} :
      (P : A → Type κ) (x : A) (l : List A) → P x → All P l → All P (insert_sorted before x l)
  unfolding insert_sorted
  All-insert_sorted P x [] p h = (p, tt)
  All-insert_sorted P x (y ∷ l) p (q, h) = elim (Bool-cases (before x y)) [
    | inl first ↦ rw first (p, (q, h))
    | inr later ↦ rw later (q, All-insert_sorted P x l p h)
  ]

  pub All-sort {κ} : (P : A → Type κ) (l : List A) → All P l → All P (sort before l)
  unfolding sort
  All-sort P [] h = tt
  All-sort P (x ∷ l) (p, h) = All-insert_sorted P x (sort before l) p (All-sort P l h)

  length-insert_sorted : (x : A) (l : List A) → length (insert_sorted before x l) ≡ suc (length l)
  unfolding insert_sorted
  length-insert_sorted x [] = refl
  length-insert_sorted x (y ∷ l) = ground (arith, length-insert_sorted x l)

  pub length-sort : (l : List A) → length (sort before l) ≡ length l
  unfolding sort
  length-sort [] = refl
  length-sort (x ∷ l) = omega (arith, length-insert_sorted x (sort before l), length-sort l)

  module _
      (before_trans : (x y z : A) → before x y ≡ true → before y z ≡ true → before x z ≡ true) where
    before-All :
        (x y : A) (l : List A)
        → before x y ≡ true
        → All (λ z. before y z ≡ true) l
        → All (λ z. before x z ≡ true) l
    before-All x y [] h k = tt
    before-All x y (z ∷ l) h (p, k) = (before_trans x y z h p, before-All x y l h k)

    insert_sorted-IsSorted :
        (x : A) (l : List A)
        → All (λ y. (before x y ≡ true) ⊎ (before y x ≡ true)) l
        → IsSorted l
        → IsSorted (insert_sorted before x l)
    unfolding insert_sorted
    insert_sorted-IsSorted x [] c s = (tt, tt)
    insert_sorted-IsSorted x (y ∷ l) (c, cs) (s, ss) = elim (Bool-cases (before x y)) [
      | inl first ↦ rw first ((first, before-All x y l first s), (s, ss))
      | inr later ↦ rw later (
        All-insert_sorted (λ z. before y z ≡ true) x l (ground arith) s,
        insert_sorted-IsSorted x l cs ss,
      )
    ]

    pub sort-IsSorted : (l : List A) → IsLinear l → IsSorted (sort before l)
    unfolding sort
    sort-IsSorted [] h = tt
    sort-IsSorted (x ∷ l) (c, h) =
        insert_sorted-IsSorted x (sort before l) (All-sort _ l c) (sort-IsSorted l h)

    select_none :
        (p : A → Bool) (x y : A) (l : List A)
        → before x y ≡ true
        → All (λ z. before y z ≡ true) l
        → insert_sorted before x (select p l) ≡ x ∷ select p l
    unfolding insert_sorted
    select_none p x y [] h s = refl
    select_none p x y (z ∷ l) h (s, ss) = elim (Bool-cases (p z)) [
      | inl kept ↦ rw kept (ground (arith, before_trans x y z h s))
      | inr dropped ↦ rw dropped (select_none p x y l h ss)
    ]

    select-insert_sorted :
        (p : A → Bool) (x : A) (l : List A)
        → IsSorted l
        → select p (insert_sorted before x l)
          ≡ (if p x then insert_sorted before x (select p l) else select p l)
    unfolding insert_sorted
    select-insert_sorted p x [] s = refl
    select-insert_sorted p x (y ∷ l) (s, ss) =
        ground
          (arith, select-insert_sorted p x l ss, λ (h : before x y ≡ true). select_none p x y l h s)

    pub select-sort :
        (p : A → Bool) (l : List A)
        → IsLinear l
        → select p (sort before l) ≡ sort before (select p l)
    unfolding sort
    select-sort p [] h = refl
    select-sort p (x ∷ l) (c, h) =
        ground
          (arith, select-insert_sorted p x (sort before l) (sort-IsSorted l h), select-sort p l h)

    module _ (before_asym : (x y : A) → before x y ≡ true → before y x ≡ false) where
      before_irrefl : (x : A) → before x x ≡ false
      before_irrefl x = elim (Bool-cases (before x x)) [ inl h ↦ before_asym x x h | inr h ↦ h ]

      select-All : (x : A) (l : List A) → All (λ y. before x y ≡ true) l → select (before x) l ≡ l
      select-All x [] h = refl
      select-All x (y ∷ l) (h, hs) = ground (arith, select-All x l hs)

      behind :
          {y : A} (front : List A) (x : A) (rest : List A)
          → All (λ z. before y z ≡ true) (front ++ (x ∷ rest))
          → before y x ≡ true
      behind [] x rest (h, _) = h
      behind (z ∷ front) x rest (_, h) = behind front x rest h

      -- What comes after an item of a sorted list is what stands behind it.
      pub select-behind :
          (front : List A) (x : A) (rest : List A)
          → IsSorted (front ++ (x ∷ rest))
          → select (before x) (front ++ (x ∷ rest)) ≡ rest
      select-behind [] x rest (h, s) = ground (arith, before_irrefl x, select-All x rest h)
      select-behind (y ∷ front) x rest (h, s) =
          ground (arith, before_asym y x (behind front x rest h), select-behind front x rest s)
