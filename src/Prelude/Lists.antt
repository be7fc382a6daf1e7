-- ===== src/Prelude/Lists.antt =====
-- Lists measured by native numbers, and the predicate that every element has a property.
use Prim.Native.Nat.{ℕ, zero, suc, ◌+◌, ◌≤◌}
use mathlib.Core.Path.{◌≡◌, refl, ap}
use mathlib.Core.List.{List, [], ◌∷◌, ◌++◌}
use mathlib.Core.Option.{Option, none, some}
use native.Mathlib.Omega.{arith}

module _ {ℓ} {A : Type ℓ} where
  abbrev pub length : List A → ℕ
  length [] = 0
  length (x ∷ xs) = suc (length xs)

  pub length-append : (xs ys : List A) → length (xs ++ ys) ≡ length xs + length ys
  length-append [] ys = omega arith
  length-append (x ∷ xs) ys = omega (arith, length-append xs ys)

abbrev pub All {ℓ κ} : {A : Type ℓ} → (A → Type κ) → List A → Type κ
All P [] = Unit
All P (x ∷ xs) = P x × All P xs

module _ {ℓ} {A : Type ℓ} where
  -- The element at a place.
  abbrev pub get_elem? : ℕ → List A → Option A
  get_elem? i [] = none
  get_elem? zero (x ∷ xs) = some x
  get_elem? (suc i) (x ∷ xs) = get_elem? i xs

  abbrev pub take : ℕ → List A → List A
  take i [] = []
  take zero (x ∷ xs) = []
  take (suc i) (x ∷ xs) = x ∷ take i xs

  abbrev pub drop : ℕ → List A → List A
  drop i [] = []
  drop zero (x ∷ xs) = x ∷ xs
  drop (suc i) (x ∷ xs) = drop i xs

  pub take-drop : (i : ℕ) (xs : List A) → take i xs ++ drop i xs ≡ xs
  take-drop i [] = refl
  take-drop zero (x ∷ xs) = refl
  take-drop (suc i) (x ∷ xs) = ap (λ ys. x ∷ ys) (take-drop i xs)

  pub length-take : (i : ℕ) (xs : List A) → i ≤ length xs → length (take i xs) ≡ i
  length-take i [] h = omega (arith, h)
  length-take zero (x ∷ xs) h = omega arith
  length-take (suc i) (x ∷ xs) h = omega (arith, length-take i xs (omega arith))

  pub length-drop : (i : ℕ) (xs : List A) → i ≤ length xs → length (drop i xs) + i ≡ length xs
  length-drop i [] h = omega (arith, h)
  length-drop zero (x ∷ xs) h = omega arith
  length-drop (suc i) (x ∷ xs) h = omega (arith, length-drop i xs (omega arith))
