-- ===== src/Prelude/Counts.antt =====
-- How often a number occurs in a list, and what that says about lengths.
use Prim.Native.Nat.{ℕ, zero, suc, ◌+◌, ◌≤◌}
use mathlib.Core.Path.{◌≡◌, refl}
use mathlib.Core.Logic.{inl, inr}
use mathlib.Core.Bool.{Bool, true, false}
use mathlib.Core.List.{List, [], ◌∷◌, ◌++◌}
use native.Mathlib.Omega.{arith}
use acoding_agent.Prelude.Tests.{◌==◌, leb, if◌then◌else◌, Bool-cases}
use acoding_agent.Prelude.Lists.{length, take, drop, any}

unfoldable pub count : ℕ → List ℕ → ℕ
count x [] = 0
count x (y ∷ ys) = (if x == y then 1 else 0) + count x ys

-- `x in xs`
abbrev pub mem : ℕ → List ℕ → Bool
mem x xs = any (λ y. x == y) xs

pub count-mem : (x : ℕ) (xs : List ℕ) → mem x xs ≡ true → 1 ≤ count x xs
unfolding count
count-mem x [] h = cc
count-mem x (y ∷ ys) h = ground (arith, count-mem x ys)

pub count-not_mem : (x : ℕ) (xs : List ℕ) → mem x xs ≡ false → count x xs ≡ 0
unfolding count
count-not_mem x [] h = refl
count-not_mem x (y ∷ ys) h = ground (arith, count-not_mem x ys)

pub mem_of_count : (x : ℕ) (xs : List ℕ) → 1 ≤ count x xs → mem x xs ≡ true
unfolding count
mem_of_count x [] h = absurd (omega arith)
mem_of_count x (y ∷ ys) h = ground (arith, mem_of_count x ys)

pub count-append : (x : ℕ) (xs ys : List ℕ) → count x (xs ++ ys) ≡ count x xs + count x ys
unfolding count
count-append x [] ys = omega arith
count-append x (y ∷ xs) ys = omega (arith, count-append x xs ys)

pub count-take-drop :
    (x n : ℕ) (xs : List ℕ) → count x (take n xs) + count x (drop n xs) ≡ count x xs
unfolding count
count-take-drop x zero xs = omega arith
count-take-drop x (suc n) [] = refl
count-take-drop x (suc n) (y ∷ xs) = omega (arith, count-take-drop x n xs)

-- The list without the first `x`.
remove : ℕ → List ℕ → List ℕ
remove x [] = []
remove x (y ∷ ys) = if x == y then ys else y ∷ remove x ys

count-remove :
    (x y : ℕ) (ys : List ℕ)
    → 1 ≤ count x ys
    → count y (remove x ys) + (if y == x then 1 else 0) ≡ count y ys
unfolding count remove
count-remove x y [] h = absurd (omega arith)
count-remove x y (z ∷ ys) h = ground (arith, count-remove x y ys)

length-remove : (x : ℕ) (ys : List ℕ) → 1 ≤ count x ys → length (remove x ys) + 1 ≡ length ys
unfolding count remove
length-remove x [] h = absurd (omega arith)
length-remove x (z ∷ ys) h = ground (arith, length-remove x ys)

-- A list that holds nothing more often than another is no longer.
pub length_le_of_count :
    (xs ys : List ℕ) → ((x : ℕ) → count x xs ≤ count x ys) → length xs ≤ length ys
unfolding count
length_le_of_count [] ys h = omega arith
length_le_of_count (x ∷ xs) ys h =
    let present : 1 ≤ count x ys = ground (arith, h x) in
    let rest =
      length_le_of_count xs (remove x ys) λ y. ground (arith, h y, count-remove x y ys present) in
    omega (arith, length-remove x ys present)

-- And if it is as long, it holds everything as often.
pub count_eq_of_length :
    (xs ys : List ℕ)
    → ((x : ℕ) → count x xs ≤ count x ys)
    → length xs ≡ length ys
    → (x : ℕ) → count x xs ≡ count x ys
unfolding count
count_eq_of_length xs ys h same x = elim (Bool-cases (leb (count x ys) (count x xs))) [
  | inl le ↦ ground (arith, h x)
  | inr more ↦ absurd (
      let longer = length_le_of_count (x ∷ xs) ys λ y. ground (arith, h y) in omega (arith, longer))
]

pub insert_sorted : ℕ → List ℕ → List ℕ
insert_sorted x [] = x ∷ []
insert_sorted x (y ∷ ys) = if leb x y then x ∷ y ∷ ys else y ∷ insert_sorted x ys

-- `sorted(ids, key=str)`: the texts of identifiers stand in the order of their numbers.
unfoldable pub sorted_ids : List ℕ → List ℕ
unfolding insert_sorted
sorted_ids [] = []
sorted_ids (x ∷ xs) = insert_sorted x (sorted_ids xs)

count-insert_sorted :
    (x y : ℕ) (ys : List ℕ) → count x (insert_sorted y ys) ≡ (if x == y then 1 else 0) + count x ys
unfolding count insert_sorted
count-insert_sorted x y [] = refl
count-insert_sorted x y (z ∷ ys) = ground (arith, count-insert_sorted x y ys)

pub count-sorted_ids : (x : ℕ) (xs : List ℕ) → count x (sorted_ids xs) ≡ count x xs
unfolding sorted_ids count
count-sorted_ids x [] = refl
count-sorted_ids x (y ∷ ys) =
    omega (arith, count-insert_sorted x y (sorted_ids ys), count-sorted_ids x ys)

pub not_mem_of_count : (x : ℕ) (xs : List ℕ) → count x xs ≡ 0 → mem x xs ≡ false
unfolding count
not_mem_of_count x [] h = refl
not_mem_of_count x (y ∷ ys) h = ground (arith, not_mem_of_count x ys)
