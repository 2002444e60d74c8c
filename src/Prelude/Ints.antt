-- ===== src/Prelude/Ints.antt =====
-- Go's `int`, as far as the program tests it: `negsuc n` is -(n + 1).
use Prim.Native.Nat.{ℕ}

pub data ℤ : Type 0 where
  pos : ℕ → ℤ
  negsuc : ℕ → ℤ
