-- ===== src/Prelude/Texts.antt =====
-- A Go string is a sequence of bytes: a list of numbers below 256. Go's `==` on strings, and
-- `slices.Contains` on a list of them.
use Prim.Native.Nat.{ℕ}
use Prim.Native.Char.{code}
use Prim.Native.String.{String}
use mathlib.Core.Path.{◌≡◌, refl}
use mathlib.Core.Logic.{◌↔◌}
use mathlib.Core.Bool.{Bool, true, false, ◌&&◌, ◌||◌}
use mathlib.Core.List.{List, [], ◌∷◌}
use native.Mathlib.Omega.{arith}
use a2a_red_panda_server_con.Prelude.Lists.{Among}
use a2a_red_panda_server_con.Prelude.Tests.{◌==◌}

abbrev pub Text : Type 0
Text = List ℕ

-- The bytes of an ASCII literal.
unfoldable pub str : String → Text
str String.[] = []
str (String.◌∷◌ c s) = code c ∷ str s

unfoldable pub text_eq : Text → Text → Bool
text_eq [] [] = true
text_eq [] (y ∷ ys) = false
text_eq (x ∷ xs) [] = false
text_eq (x ∷ xs) (y ∷ ys) = x == y && text_eq xs ys

pub text_eq_iff : (a b : Text) → (text_eq a b ≡ true) ↔ (a ≡ b)
unfolding text_eq
text_eq_iff [] [] = ground arith
text_eq_iff [] (y ∷ ys) = ground arith
text_eq_iff (x ∷ xs) [] = ground arith
text_eq_iff (x ∷ xs) (y ∷ ys) = ground (arith, text_eq_iff xs ys)

pub text_eq_refl : (a : Text) → text_eq a a ≡ true
text_eq_refl a = (text_eq_iff a a).1 refl

pub text_eq_sym : (a b : Text) → text_eq a b ≡ text_eq b a
text_eq_sym a b = ground (arith, text_eq_iff a b, text_eq_iff b a)

pub ruleset text_laws = (text_eq_iff, text_eq_refl)

-- `slices.Contains(texts, a)`
unfoldable pub contains : List Text → Text → Bool
contains [] a = false
contains (x ∷ xs) a = text_eq x a || contains xs a

pub contains_iff : (xs : List Text) (a : Text) → (contains xs a ≡ true) ↔ Among a xs
unfolding contains
contains_iff [] a = ((λ h. cc), λ h. elim h [ ])
contains_iff (x ∷ xs) a = ground (arith, text_eq_iff x a, contains_iff xs a)
