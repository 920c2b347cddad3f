-- ===== src/Common/Lists.antt =====
-- Lists over native numbers: Python's `len`, `sum`, `any` and `all`, and predicates on every item.
use Prim.Native.Nat.{ℕ, zero, suc, ◌+◌}
use mathlib.Core.Path.{◌≡◌, refl}
use mathlib.Core.Bool.{Bool, true, false, ◌&&◌, ◌||◌}
use mathlib.Core.Option.{Option, none, some}
use mathlib.Core.List.{List, [], ◌∷◌, ◌++◌, map, reverse_aux, reverse}
use hp_http_server.Common.Tests.{if◌then◌else◌}
use native.Mathlib.Omega.{arith}

abbrev pub sum : List ℕ → ℕ
sum [] = 0
sum (x ∷ xs) = x + sum xs

pub sum-append : (xs ys : List ℕ) → sum (xs ++ ys) ≡ sum xs + sum ys
sum-append [] ys = omega arith
sum-append (x ∷ xs) ys = omega (arith, sum-append xs ys)

module _ {ℓ} {A : Type ℓ} where
  abbrev pub length : List A → ℕ
  length [] = 0
  length (x ∷ xs) = suc (length xs)

  abbrev pub get_elem? : List A → ℕ → Option A
  get_elem? [] i = none
  get_elem? (x ∷ xs) zero = some x
  get_elem? (x ∷ xs) (suc i) = get_elem? xs i

  abbrev pub any : (A → Bool) → List A → Bool
  any p [] = false
  any p (x ∷ xs) = p x || any p xs

  abbrev pub all : (A → Bool) → List A → Bool
  all p [] = true
  all p (x ∷ xs) = p x && all p xs

  -- The items that pass the test.
  abbrev pub filter : (A → Bool) → List A → List A
  filter p [] = []
  filter p (x ∷ xs) = let rest = filter p xs in if p x then x ∷ rest else rest

  -- A predicate that holds of every item.
  abbrev pub All {κ} : (A → Type κ) → List A → Type κ
  All Holds [] = Unit
  All Holds (item ∷ rest) = Holds item × All Holds rest

  pub length-append : (xs ys : List A) → length (xs ++ ys) ≡ length xs + length ys
  length-append [] ys = omega arith
  length-append (x ∷ xs) ys = omega (arith, length-append xs ys)

  pub any-append : (p : A → Bool) (xs ys : List A) → any p (xs ++ ys) ≡ (any p xs || any p ys)
  any-append p [] ys = refl
  any-append p (x ∷ xs) ys = ground (arith, any-append p xs ys)

  any-reverse_aux :
      (p : A → Bool) (xs ys : List A) → any p (reverse_aux xs ys) ≡ (any p xs || any p ys)
  any-reverse_aux p [] ys = refl
  any-reverse_aux p (x ∷ xs) ys = ground (arith, any-reverse_aux p xs (x ∷ ys))

  pub any-reverse : (p : A → Bool) (xs : List A) → any p (reverse xs) ≡ any p xs
  any-reverse p xs = ground (arith, any-reverse_aux p xs [])

  sum-map-reverse_aux :
      (f : A → ℕ) (xs ys : List A)
      → sum (map f (reverse_aux xs ys)) ≡ sum (map f xs) + sum (map f ys)
  sum-map-reverse_aux f [] ys = omega arith
  sum-map-reverse_aux f (x ∷ xs) ys = omega (arith, sum-map-reverse_aux f xs (x ∷ ys))

  pub sum-map-reverse : (f : A → ℕ) (xs : List A) → sum (map f (reverse xs)) ≡ sum (map f xs)
  sum-map-reverse f xs = omega (arith, sum-map-reverse_aux f xs [])

pub All-append {ℓ κ} :
    {A : Type ℓ} (P : A → Type κ) (xs : List A) (x : A) → All P xs → P x → All P (xs ++ x ∷ [])
All-append P [] x h p = (p, tt)
All-append P (y ∷ xs) x h p = (h.0, All-append P xs x h.1 p)

pub All-mono {ℓ κ μ} :
    {A : Type ℓ} (P : A → Type κ) (Q : A → Type μ) (xs : List A)
    → ((x : A) → P x → Q x)
    → All P xs
    → All Q xs
All-mono P Q [] f h = tt
All-mono P Q (x ∷ xs) f h = (f x h.0, All-mono P Q xs f h.1)

pub append_nil {ℓ} : {A : Type ℓ} (s t : List A) → s ++ t ≡ [] → (s ≡ []) × (t ≡ [])
append_nil [] t h = (refl, h)
append_nil (x ∷ s) t h = absurd (cc h)
