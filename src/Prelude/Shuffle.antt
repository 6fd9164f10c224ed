-- ===== src/Prelude/Shuffle.antt =====
-- The shuffles of src/Uno.hpp and src/Splendor.hpp.
-- What rand() returns is an argument, a function from the loop's index.
use Prim.Native.Nat.{ℕ, zero, suc, ◌%◌}
use mathlib.Core.Path.{◌≡◌, refl, ◌∙◌}
use mathlib.Core.Logic.{inl, inr}
use mathlib.Core.List.{List}
use mathlib.Core.Option.{none, some}
use native.Mathlib.Omega.{arith}
use native.Mathlib.Decide.{ℕ_discrete}
use unopp_server.Prelude.Tests.{Option-cases}
use unopp_server.Prelude.Lists.{
  length, get_elem?, set, length-set, lt_of_get_elem?, get_elem?-set_self, get_elem?-set_ne, sum_by,
  sum_by-set,
}

-- std::swap(xs[i], xs[j])
unfoldable pub swap {ℓ} : {A : Type ℓ} → ℕ → ℕ → List A → List A
swap i j xs = elim (get_elem? xs i) [
  | none ↦ xs
  | some x ↦ elim (get_elem? xs j) [ none ↦ xs | some y ↦ set (set xs i y) j x ]
]

-- The loop from index i down to 1, which swaps xs[i] with xs[rand() % i].
unfoldable pub shuffle {ℓ} : {A : Type ℓ} → (ℕ → ℕ) → ℕ → List A → List A
shuffle rand ℕ.zero xs = xs
shuffle rand (suc i) xs = shuffle rand i (swap (suc i) (rand (suc i) % suc i) xs)

module _ {ℓ} {A : Type ℓ} where
  get_after_set :
      (xs : List A) (i j : ℕ) (x y : A)
      → get_elem? xs i ≡ some x
      → get_elem? xs j ≡ some y
      → get_elem? (set xs i y) j ≡ some y
  get_after_set xs i j x y ei ej = elim (ℕ_discrete i j) [
    | yes p ↦ rw (← p) (get_elem?-set_self xs i y (lt_of_get_elem? xs i x ei))
    | no n ↦ get_elem?-set_ne xs i j y n ∙ ej
  ]

  pub swap_weight : (w : A → ℕ) (i j : ℕ) (xs : List A) → sum_by w (swap i j xs) ≡ sum_by w xs
  unfolding swap
  swap_weight w i j xs = elim (Option-cases (get_elem? xs i)) [
    | inl e ↦ rw (e, swap)
    | inr (x, e) ↦ elim (Option-cases (get_elem? xs j)) [
      | inl e' ↦ rw (e, swap, e')
      | inr (y, e') ↦
          rw (e, swap, e')
            (omega (
              arith,
              sum_by-set w xs i x y e,
              sum_by-set w (set xs i y) j y x (get_after_set xs i j x y e e'),
            ))
    ]
  ]

  pub length-swap : (i j : ℕ) (xs : List A) → length (swap i j xs) ≡ length xs
  unfolding swap
  length-swap i j xs = elim (Option-cases (get_elem? xs i)) [
    | inl e ↦ rw (e, swap)
    | inr (x, e) ↦ elim (Option-cases (get_elem? xs j)) [
      | inl e' ↦ rw (e, swap, e')
      | inr (y, e') ↦ rw (e, swap, e') (length-set (set xs i y) j x ∙ length-set xs i y)
    ]
  ]

  -- A shuffle keeps every element as often as it stood there.
  pub shuffle_weight :
      (w : A → ℕ) (rand : ℕ → ℕ) (i : ℕ) (xs : List A) → sum_by w (shuffle rand i xs) ≡ sum_by w xs
  unfolding shuffle
  shuffle_weight w rand zero xs = refl
  shuffle_weight w rand (suc i) xs = shuffle_weight w rand i _ ∙ swap_weight w (suc i) _ xs

  pub length-shuffle : (rand : ℕ → ℕ) (i : ℕ) (xs : List A) → length (shuffle rand i xs) ≡ length xs
  unfolding shuffle
  length-shuffle rand zero xs = refl
  length-shuffle rand (suc i) xs = length-shuffle rand i _ ∙ length-swap (suc i) _ xs
