-- ===== src/Prelude/Options.antt =====
-- Functions that return a value, and tell nothing of the error where they have none. The names of
-- this module are used from it, since those for `Result` are the same.
use mathlib.Core.Path.{◌≡◌, refl}
use mathlib.Core.Bool.{Bool, true, false}
use mathlib.Core.Option.{Option, none, some}

infixl 5 ◌>>=◌
-- `if err != nil { return …, ErrInvalidToken }` between one call and the next.
abbrev pub ◌>>=◌ {ℓ κ} : {A : Type ℓ} {B : Type κ} → Option A → (A → Option B) → Option B
none >>= next = none
some a >>= next = next a

abbrev pub require : Bool → Option (Unit {0})
require true = some tt
require false = none

pub bind-eq-some {ℓ κ} :
    {A : Type ℓ} {B : Type κ} (o : Option A) (f : A → Option B) {b : B}
    → (o >>= f) ≡ some b
    → (a : A) × (o ≡ some a) × (f a ≡ some b)
bind-eq-some none f h = cc
bind-eq-some (some a) f h = (a, refl, h)

pub require-eq-some : (b : Bool) {u : Unit {0}} → require b ≡ some u → b ≡ true
require-eq-some true h = refl
require-eq-some false h = cc
