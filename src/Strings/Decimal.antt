-- ===== src/Strings/Decimal.antt =====
-- Decimal digits determine the number, and hold no other byte than the ten digits.
use a2a_red_panda_server_con.Prelude.{
  Text, ℕ, zero, suc, ◌+◌, ◌-◌, ◌*◌, ◌/◌, ◌%◌, ◌<◌, ◌≤◌, ◌≡◌, refl, sym, ap, ◌∙◌, [], ◌∷◌, ◌++◌,
  arith, ltb, All, All-append, Bool-cases, inl, inr,
}
use a2a_red_panda_server_con.Strings.{decimal, decimal_loop}

abbrev IsDigit : ℕ → Type 0
IsDigit c = (48 ≤ c) × (c ≤ 57)

decimal_loop-IsDigit : (f n : ℕ) → All IsDigit (decimal_loop f n)
unfolding decimal_loop
decimal_loop-IsDigit zero n = tt
decimal_loop-IsDigit (suc f) n = elim (Bool-cases (ltb n 10)) [
  | inl small ↦ rw small (ground arith, tt)
  | inr large ↦ rw large (
      All-append IsDigit (decimal_loop f (n / 10)) _ (decimal_loop-IsDigit f (n / 10))
        (omega arith, tt))
]

pub decimal-IsDigit : (n : ℕ) → All (λ c. (48 ≤ c) × (c ≤ 57)) (decimal n)
unfolding decimal
decimal-IsDigit n = decimal_loop-IsDigit (suc n) n

read : ℕ → Text → ℕ
read acc [] = acc
read acc (c ∷ s) = read (acc * 10 + (c - 48)) s

read-append : (acc : ℕ) (s : Text) (c : ℕ) → read acc (s ++ c ∷ []) ≡ read acc s * 10 + (c - 48)
unfolding read
read-append acc [] c = refl
read-append acc (d ∷ s) c = read-append (acc * 10 + (d - 48)) s c

read-decimal_loop : (f n : ℕ) → n < f → read 0 (decimal_loop f n) ≡ n
unfolding decimal_loop read
read-decimal_loop zero n h = elim h [ ]
read-decimal_loop (suc f) n h = elim (Bool-cases (ltb n 10)) [
  | inl small ↦ rw small (omega arith)
  | inr large ↦ rw large (
      read-append 0 (decimal_loop f (n / 10)) (48 + n % 10)
      ∙ omega (arith, read-decimal_loop f (n / 10) (ground arith)))
]

pub decimal_injective : (m n : ℕ) → decimal m ≡ decimal n → m ≡ n
unfolding decimal
decimal_injective m n h =
    sym (read-decimal_loop (suc m) m (omega arith))
    ∙ ap (read 0) h
    ∙ read-decimal_loop (suc n) n (omega arith)
