-- ===== src/Common/Raising.antt =====
-- A call that returns a value or raises an error of the caller's own type, and `demand`.
use mathlib.Core.Path.{◌≡◌, refl, ap}
use mathlib.Core.Option.{Option, none, some}
use mathlib.Core.Bool.{Bool, true, false}

pub data Outcome {ι ℓ} (Fault : Type ι) (Value : Type ℓ) : Type (ι ⊔ ℓ) where
  err : Fault → Outcome Fault Value
  ok : Value → Outcome Fault Value

infixl 5 ◌>>=◌ ◌>>◌
module _ {ι ℓ κ} {Fault : Type ι} {Before : Type ℓ} {After : Type κ} where
  -- The rest of a method runs on the value, and not at all after a raise.
  abbrev pub ◌>>=◌ : Outcome Fault Before → (Before → Outcome Fault After) → Outcome Fault After
  ◌>>=◌ (err fault) rest = err fault
  ◌>>=◌ (ok value) rest = rest value

  -- If a chain returned, so did its first call, and the rest returned from its value.
  pub >>=-eq-ok :
      (first : Outcome Fault Before) (rest : Before → Outcome Fault After) {result : After}
      → ◌>>=◌ first rest ≡ ok result
      → (value : Before) × (first ≡ ok value) × (rest value ≡ ok result)
  >>=-eq-ok (err fault) rest returned = cc
  >>=-eq-ok (ok value) rest returned = (value, refl, returned)

module _ {ι κ} {Fault : Type ι} {After : Type κ} where
  abbrev pub ◌>>◌ : Outcome Fault (Unit {0}) → Outcome Fault After → Outcome Fault After
  ◌>>◌ first rest = first >>= λ _. rest

module _ {ι} {Fault : Type ι} where
  -- `if not condition: raise ...`
  abbrev pub demand : Bool → Fault → Outcome Fault (Unit {0})
  demand false fault = err fault
  demand true fault = ok tt

  pub demand-eq-ok :
      (condition : Bool) (fault : Fault) {u : Unit {0}}
      → demand condition fault ≡ ok u
      → condition ≡ true
  demand-eq-ok false fault returned = cc
  demand-eq-ok true fault returned = refl

  pub ok-injective {ℓ} :
      {Value : Type ℓ} {a b : Value} → ◌≡◌ {A = Outcome Fault Value} (ok a) (ok b) → a ≡ b
  ok-injective same = cc

module _ {ι ℓ} {Fault : Type ι} {Value : Type ℓ} where
  -- A value that has to be there.
  abbrev pub required : Option Value → Fault → Outcome Fault Value
  required none fault = err fault
  required (some value) fault = ok value

  pub required-eq-ok :
      (found : Option Value) (fault : Fault) {value : Value}
      → required found fault ≡ ok value
      → found ≡ some value
  required-eq-ok none fault returned = cc
  required-eq-ok (some other) fault returned = ap some (ok-injective returned)
