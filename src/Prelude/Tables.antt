-- ===== src/Prelude/Tables.antt =====
-- Tables of rows under a numeric primary key, as the stores keep them: the first row with a key is
-- the row of that key.
use Prim.Native.Nat.{ℕ, ◌+◌, ◌≤◌}
use mathlib.Core.Path.{◌≡◌}
use mathlib.Core.List.{List, [], ◌∷◌}
use mathlib.Core.Option.{Option, none, some}
use native.Mathlib.Omega.{arith}
use acoding_agent.Prelude.Tests.{◌==◌, if◌then◌else◌}

module _ {ℓ} {A : Type ℓ} where
  unfoldable pub sum : (A → ℕ) → List A → ℕ
  sum g [] = 0
  sum g (x ∷ xs) = g x + sum g xs

module _ {ℓ} {A : Type ℓ} (key : A → ℕ) where
  unfoldable pub find : ℕ → List A → Option A
  find k [] = none
  find k (x ∷ xs) = if key x == k then some x else find k xs

  -- An update of the row that has the key of `y`.
  unfoldable pub replace : A → List A → List A
  replace y [] = []
  replace y (x ∷ xs) = if key x == key y then y ∷ xs else x ∷ replace y xs

  pub find-key : (k : ℕ) (xs : List A) (x : A) → find k xs ≡ some x → key x ≡ k
  unfolding find
  find-key k [] w h = cc
  find-key k (x ∷ xs) w h = ground (arith, find-key k xs w)

  pub find-replace :
      (k : ℕ) (xs : List A) (x y : A)
      → find (key y) xs ≡ some x
      → find k (replace y xs) ≡ (if key y == k then some y else find k xs)
  unfolding find replace
  find-replace k [] w y h = cc
  find-replace k (x ∷ xs) w y h = ground (arith, find-replace k xs w y)

  -- An update changes a total by the row that it replaces.
  pub sum-replace :
      (g : A → ℕ) (xs : List A) (x y : A)
      → find (key y) xs ≡ some x
      → sum g (replace y xs) + g x ≡ sum g xs + g y
  unfolding find replace sum
  sum-replace g [] w y h = cc
  sum-replace g (x ∷ xs) w y h = ground (arith, sum-replace g xs w y)

  pub le-sum_of_find :
      (g : A → ℕ) (k : ℕ) (xs : List A) (x : A) → find k xs ≡ some x → g x ≤ sum g xs
  unfolding find sum
  le-sum_of_find g k [] w h = cc
  le-sum_of_find g k (x ∷ xs) w h = ground (arith, le-sum_of_find g k xs w)
