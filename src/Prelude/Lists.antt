-- ===== src/Prelude/Lists.antt =====
-- Vectors (std::vector, std::array, std::queue) as lists, measured and indexed by native numbers.
use Prim.Native.Nat.{ℕ, zero, suc, ◌+◌, ◌-◌, ◌<◌}
use mathlib.Core.Path.{◌≡◌, refl, ap}
use mathlib.Core.Logic.{◌≢◌}
use mathlib.Core.List.{List, [], ◌∷◌, ◌++◌, map}
use mathlib.Core.Option.{Option, none, some}
use native.Mathlib.Omega.{arith}

module _ {ℓ} {A : Type ℓ} where
  abbrev pub length : List A → ℕ
  length [] = 0
  length (x ∷ xs) = suc (length xs)

  abbrev pub get_elem? : List A → ℕ → Option A
  get_elem? [] i = none
  get_elem? (x ∷ xs) zero = some x
  get_elem? (x ∷ xs) (suc i) = get_elem? xs i

  -- A write out of bounds changes nothing.
  abbrev pub set : List A → ℕ → A → List A
  set [] i v = []
  set (x ∷ xs) zero v = v ∷ xs
  set (x ∷ xs) (suc i) v = x ∷ set xs i v

  abbrev pub take : ℕ → List A → List A
  take zero xs = []
  take (suc n) [] = []
  take (suc n) (x ∷ xs) = x ∷ take n xs

  abbrev pub drop : ℕ → List A → List A
  drop zero xs = xs
  drop (suc n) [] = []
  drop (suc n) (x ∷ xs) = drop n xs

  pub length-drop : (n : ℕ) (xs : List A) → length (drop n xs) ≡ length xs - n
  length-drop zero xs = omega arith
  length-drop (suc n) [] = omega arith
  length-drop (suc n) (x ∷ xs) = omega (arith, length-drop n xs)

  pub length-append : (xs ys : List A) → length (xs ++ ys) ≡ length xs + length ys
  length-append [] ys = omega arith
  length-append (x ∷ xs) ys = omega (arith, length-append xs ys)

module _ {ℓ} {A : Type ℓ} where
  pub length-set : (xs : List A) (i : ℕ) (v : A) → length (set xs i v) ≡ length xs
  length-set [] i v = refl
  length-set (x ∷ xs) zero v = refl
  length-set (x ∷ xs) (suc i) v = ap suc (length-set xs i v)

  pub get_elem?-set_self :
      (xs : List A) (i : ℕ) (v : A) → i < length xs → get_elem? (set xs i v) i ≡ some v
  get_elem?-set_self [] i v h = elim h [ ]
  get_elem?-set_self (x ∷ xs) zero v h = refl
  get_elem?-set_self (x ∷ xs) (suc i) v h = get_elem?-set_self xs i v (omega arith)

  pub get_elem?-set_ne :
      (xs : List A) (i j : ℕ) (v : A) → i ≢ j → get_elem? (set xs i v) j ≡ get_elem? xs j
  get_elem?-set_ne [] i j v h = refl
  get_elem?-set_ne (x ∷ xs) zero zero v h = absurd (h refl)
  get_elem?-set_ne (x ∷ xs) zero (suc j) v h = refl
  get_elem?-set_ne (x ∷ xs) (suc i) zero v h = refl
  get_elem?-set_ne (x ∷ xs) (suc i) (suc j) v h = get_elem?-set_ne xs i j v (λ e. h (ap suc e))

  -- An index in bounds holds an element, and an index that holds one is in bounds.
  pub get_elem?-some : (xs : List A) (i : ℕ) → i < length xs → (x : A) × (get_elem? xs i ≡ some x)
  get_elem?-some [] i h = elim h [ ]
  get_elem?-some (x ∷ xs) zero h = (x, refl)
  get_elem?-some (x ∷ xs) (suc i) h = get_elem?-some xs i (omega arith)

  pub lt_of_get_elem? : (xs : List A) (i : ℕ) (x : A) → get_elem? xs i ≡ some x → i < length xs
  lt_of_get_elem? [] i x e = ground arith
  lt_of_get_elem? (y ∷ ys) zero x e = omega arith
  lt_of_get_elem? (y ∷ ys) (suc i) x e = omega (arith, lt_of_get_elem? ys i x e)

  pub map-set {κ} :
      {B : Type κ} (f : A → B) (xs : List A) (i : ℕ) (x v : A)
      → get_elem? xs i ≡ some x
      → f v ≡ f x
      → map f (set xs i v) ≡ map f xs
  map-set f [] i x v e h = refl
  map-set f (y ∷ ys) zero x v e h = ground arith
  map-set f (y ∷ ys) (suc i) x v e h = ap (λ t. f y ∷ t) (map-set f ys i x v e h)

-- The sum of a number over the elements of a list.
module _ {ℓ} {A : Type ℓ} (f : A → ℕ) where
  abbrev pub sum_by : List A → ℕ
  sum_by [] = 0
  sum_by (x ∷ xs) = f x + sum_by xs

  pub sum_by-append : (xs ys : List A) → sum_by (xs ++ ys) ≡ sum_by xs + sum_by ys
  sum_by-append [] ys = omega arith
  sum_by-append (x ∷ xs) ys = omega (arith, sum_by-append xs ys)

  pub sum_by-set :
      (xs : List A) (i : ℕ) (x v : A)
      → get_elem? xs i ≡ some x
      → sum_by (set xs i v) + f x ≡ sum_by xs + f v
  sum_by-set [] i x v e = ground arith
  sum_by-set (y ∷ ys) zero x v e = ground arith
  sum_by-set (y ∷ ys) (suc i) x v e = omega (arith, sum_by-set ys i x v e)

  pub sum_by-take-drop : (n : ℕ) (xs : List A) → sum_by (take n xs) + sum_by (drop n xs) ≡ sum_by xs
  sum_by-take-drop zero xs = omega arith
  sum_by-take-drop (suc n) [] = omega arith
  sum_by-take-drop (suc n) (x ∷ xs) = omega (arith, sum_by-take-drop n xs)
