-- ===== src/Platform/Ranges.antt =====
-- What the tests on an integer establish.
use a2a_red_panda_server_con.Prelude.{ℕ, ◌≤◌, ◌≡◌, refl, false, ◌||◌, not, arith, pos, negsuc, ℤ}
use a2a_red_panda_server_con.Platform.{int_lt}

-- The integer is not negative, and lies between the bounds.
abbrev pub IsBetween : (low high : ℕ) → ℤ → Type 0
IsBetween low high v = (n : ℕ) × (v ≡ pos n) × (low ≤ n) × (n ≤ high)

abbrev pub IsPositive : ℤ → Type 0
IsPositive v = (n : ℕ) × (v ≡ pos n) × (1 ≤ n)

pub int_lt-IsBetween :
    (v : ℤ) (low high : ℕ)
    → (int_lt v (pos low) || int_lt (pos high) v) ≡ false
    → IsBetween low high v
unfolding int_lt
int_lt-IsBetween (pos n) low high h = (n, refl, ground arith, ground arith)
int_lt-IsBetween (negsuc n) low high h = ground arith

pub int_lt-IsPositive : (v : ℤ) → not (int_lt (pos 0) v) ≡ false → IsPositive v
unfolding int_lt
int_lt-IsPositive (pos n) h = (n, refl, ground arith)
int_lt-IsPositive (negsuc n) h = ground arith
