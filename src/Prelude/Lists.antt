-- ===== src/Prelude/Lists.antt =====
-- Lists measured by native numbers, and predicates by recursion on a list.
use Prim.Native.Nat.{ℕ, zero, suc, ◌+◌, ◌-◌, ◌≤◌}
use mathlib.Core.Bool.{Bool, true, false, ◌&&◌}
use mathlib.Core.List.{List, [], ◌∷◌, ◌++◌}
use mathlib.Core.Logic.{◌⊎◌, ◌≢◌}
use mathlib.Core.Option.{Option, none, some}
use mathlib.Core.Path.{◌≡◌, refl, ap}
use native.Mathlib.Omega.{arith}
use a2a_red_panda_server_con.Prelude.Tests.{◌==◌, if◌then◌else◌}

-- The type with no element, at every level.
pub data Nothing {ℓ} : Type ℓ where

module _ {ℓ} {A : Type ℓ} where
  abbrev pub length : List A → ℕ
  length [] = 0
  length (x ∷ xs) = suc (length xs)

  abbrev pub take : ℕ → List A → List A
  take zero xs = []
  take (suc n) [] = []
  take (suc n) (x ∷ xs) = x ∷ take n xs

  abbrev pub drop : ℕ → List A → List A
  drop zero xs = xs
  drop (suc n) [] = []
  drop (suc n) (x ∷ xs) = drop n xs

  abbrev pub all : (A → Bool) → List A → Bool
  all p [] = true
  all p (x ∷ xs) = p x && all p xs

  abbrev pub select : (A → Bool) → List A → List A
  select p [] = []
  select p (x ∷ xs) = let rest = select p xs in if p x then x ∷ rest else rest

  abbrev pub get_last? : List A → Option A
  get_last? [] = none
  get_last? (x ∷ []) = some x
  get_last? (x ∷ y ∷ l) = get_last? (y ∷ l)

  pub take-append-drop : (n : ℕ) (l : List A) → take n l ++ drop n l ≡ l
  take-append-drop zero l = refl
  take-append-drop (suc n) [] = refl
  take-append-drop (suc n) (x ∷ l) = rw (take-append-drop n l)

  pub length-drop : (n : ℕ) (l : List A) → length (drop n l) ≡ length l - n
  length-drop zero l = omega arith
  length-drop (suc n) [] = omega arith
  length-drop (suc n) (x ∷ l) = omega (arith, length-drop n l)

  pub length-take : (n : ℕ) (l : List A) → n ≤ length l → length (take n l) ≡ n
  length-take zero l h = refl
  length-take (suc n) [] h = omega arith
  length-take (suc n) (x ∷ l) h = omega (arith, length-take n l)

  pub take_all : (n : ℕ) (l : List A) → length l ≤ n → take n l ≡ l
  take_all zero [] h = refl
  take_all zero (x ∷ l) h = absurd (omega arith)
  take_all (suc n) [] h = refl
  take_all (suc n) (x ∷ l) h = rw (take_all n l (omega arith))

  pub take-take-suc : (n : ℕ) (l : List A) → take n (take (suc n) l) ≡ take n l
  take-take-suc zero l = refl
  take-take-suc (suc n) [] = refl
  take-take-suc (suc n) (x ∷ l) = rw (take-take-suc n l)

  -- The last of the first `n` items, and what stands round it.
  pub split_at_last :
      (n : ℕ) (l : List A)
      → suc n ≤ length l
      → (front : List A) × (x : A) × (l ≡ front ++ (x ∷ drop (suc n) l))
        × (get_last? (take (suc n) l) ≡ some x)
  split_at_last n [] h = absurd (omega arith)
  split_at_last zero (x ∷ l) h = ([], x, refl, refl)
  split_at_last (suc n) (x ∷ []) h = absurd (omega arith)
  split_at_last (suc n) (x ∷ y ∷ l) h =
      let (front, z, e, last) = split_at_last n (y ∷ l) (omega arith) in
      (x ∷ front, z, ap (λ t. x ∷ t) e, last)

  pub length-append : (xs ys : List A) → length (xs ++ ys) ≡ length xs + length ys
  length-append [] ys = omega arith
  length-append (x ∷ xs) ys = omega (arith, length-append xs ys)

  -- `a` stands in the list.
  abbrev pub Among : A → List A → Type ℓ
  Among a [] = Nothing {ℓ}
  Among a (x ∷ xs) = (a ≡ x) ⊎ Among a xs

  abbrev pub All {κ} : (A → Type κ) → List A → Type κ
  All P [] = Unit
  All P (x ∷ xs) = P x × All P xs

  pub All-append {κ} : (P : A → Type κ) (xs ys : List A) → All P xs → All P ys → All P (xs ++ ys)
  All-append P [] ys h k = k
  All-append P (x ∷ xs) ys (p, h) k = (p, All-append P xs ys h k)

  pub All-select {κ} :
      (P : A → Type κ) (p : A → Bool) (xs : List A)
      → ((x : A) → p x ≡ true → P x)
      → All P (select p xs)
  All-select P p [] h = tt
  All-select P p (x ∷ xs) h = ground (arith, h x, All-select P p xs h)

  pub length_not_zero : (xs : List A) → (length xs == 0) ≡ false → xs ≢ []
  length_not_zero [] h = cc
  length_not_zero (x ∷ xs) h = cc

  pub length_given : (xs : List A) → xs ≢ [] → (length xs == 0) ≡ false
  length_given [] h = absurd (h refl)
  length_given (x ∷ xs) h = ground arith
