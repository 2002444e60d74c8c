-- ===== src/Prelude/Results.antt =====
-- Functions that return a value or an error.
use mathlib.Core.Bool.{Bool, true, false}
use mathlib.Core.Logic.{◌⊎◌, inl, inr}
use mathlib.Core.Option.{Option, none, some}
use mathlib.Core.Path.{◌≡◌, refl, ap}

-- What a function with an error result returns: the error, or the value where the error is nil.
pub data Result {ℓ} (Error : Type 0) (Value : Type ℓ) : Type ℓ where
  err : Error → Result Error Value
  ok : Value → Result Error Value

module _ {Error : Type 0} where
  infixl 5 ◌>>◌ ◌>>=◌
  -- `if err != nil { return err }` between one call and the next.
  abbrev pub ◌>>=◌ {κ μ} :
      {Value : Type κ} {Next : Type μ}
      → Result Error Value
      → (Value → Result Error Next)
      → Result Error Next
  err problem >>= next = err problem
  ok value >>= next = next value

  abbrev pub ◌>>◌ {κ} :
      {Next : Type κ} → Result Error (Unit {0}) → Result Error Next → Result Error Next
  first >> rest = first >>= λ done. rest

-- `if bad { return err }`
abbrev pub refuse_if : {E : Type 0} → Bool → E → Result E (Unit {0})
refuse_if true e = err e
refuse_if false e = ok tt

-- A value, or the error where there is none.
abbrev pub or_fail {ℓ} : {E : Type 0} {A : Type ℓ} → Option A → E → Result E A
or_fail none e = err e
or_fail (some a) e = ok a

pub >>=-eq-ok {κ μ} :
    {Error : Type 0} {Value : Type κ} {Next : Type μ} (first : Result Error Value)
    (next : Value → Result Error Next) {last : Next}
    → (first >>= next) ≡ ok last
    → (value : Value) × (first ≡ ok value) × (next value ≡ ok last)
>>=-eq-ok (err problem) next h = cc
>>=-eq-ok (ok value) next h = (value, refl, h)

pub refuse_if-eq-ok :
    {E : Type 0} (b : Bool) (e : E) {u : Unit {0}} → refuse_if b e ≡ ok u → b ≡ false
refuse_if-eq-ok true e h = cc
refuse_if-eq-ok false e h = refl

pub or_fail-eq-ok {ℓ} :
    {E : Type 0} {A : Type ℓ} (o : Option A) (e : E) {a : A} → or_fail o e ≡ ok a → o ≡ some a
or_fail-eq-ok none e h = cc
or_fail-eq-ok (some b) e h = cc

pub Result-cases {ℓ} :
    {E : Type 0} {A : Type ℓ} (r : Result E A) → ((a : A) × (r ≡ ok a)) ⊎ ((e : E) × (r ≡ err e))
Result-cases (ok a) = inl (a, refl)
Result-cases (err e) = inr (e, refl)

-- A last test that does not refuse.
pub >>=-ok {ℓ} : {E : Type 0} {A : Type ℓ} (r : Result E A) → (r >>= λ a. ok tt >> ok a) ≡ r
>>=-ok (ok a) = refl
>>=-ok (err e) = refl

-- A value that is there, and that a test does not refuse.
pub checked-eq-ok {ℓ} :
    {E : Type 0} {A : Type ℓ} (o : Option A) (e : E) (test : A → Bool) (e' : E) {v : A}
    → (or_fail o e >>= λ a. refuse_if (test a) e' >> ok a) ≡ ok v
    → (o ≡ some v) × (test v ≡ false)
checked-eq-ok none e test e' h = cc
checked-eq-ok (some a) e test e' {v = v} h =
    let (_, passes, same) = >>=-eq-ok (refuse_if (test a) e') _ h in
    let equal : a ≡ v = cc in (ap some equal, rw (← equal) (refuse_if-eq-ok (test a) e' passes))

pub ok-injective {ℓ} :
    {E : Type 0} {A : Type ℓ} {a b : A} → ◌≡◌ {A = Result E A} (ok a) (ok b) → a ≡ b
ok-injective h = cc
