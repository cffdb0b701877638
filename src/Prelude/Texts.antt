-- ===== src/Prelude/Texts.antt =====
-- Texts as lists of code points, with the methods of `str` that the program calls, and sorted lists
-- of texts without repetition, which is what `sorted(set(…))` builds.
use Prim.Native.Nat.{ℕ, ◌+◌, compare, Ordering}
use Prim.Native.Char.{code}
use Prim.Native.String.{String}
use mathlib.Core.Path.{◌≡◌, refl, ap, subst}
use mathlib.Core.Logic.{◌⊎◌, inl, inr}
use native.Mathlib.Omega.{arith}
use mathlib.Core.Bool.{Bool, true, false, ◌&&◌, ◌||◌}
use mathlib.Core.List.{List, [], ◌∷◌, ◌++◌, map, reverse}
use acoding_agent.Prelude.Tests.{◌==◌, leb, if◌then◌else◌, Bool-cases}

abbrev pub Text : Type 0
Text = List ℕ

abbrev pub codes : String → Text
codes String.[] = []
codes (String.◌∷◌ c s) = code c ∷ codes s

abbrev pub text_eq : Text → Text → Bool
text_eq [] [] = true
text_eq (x ∷ xs) (y ∷ ys) = x == y && text_eq xs ys
text_eq _ _ = false

abbrev pub mem_text : Text → List Text → Bool
mem_text t [] = false
mem_text t (u ∷ us) = text_eq t u || mem_text t us

-- `text.startswith(prefix)`, the prefix first.
abbrev pub starts_with : Text → Text → Bool
starts_with [] xs = true
starts_with (p ∷ ps) [] = false
starts_with (p ∷ ps) (x ∷ xs) = p == x && starts_with ps xs

abbrev pub ends_with : Text → Text → Bool
ends_with suffix xs = starts_with (reverse suffix) (reverse xs)

abbrev pub drop_length : Text → Text → Text
drop_length [] xs = xs
drop_length (p ∷ ps) [] = []
drop_length (p ∷ ps) (x ∷ xs) = drop_length ps xs

-- `text.removeprefix(prefix)`
abbrev pub remove_prefix : Text → Text → Text
remove_prefix prefix xs = if starts_with prefix xs then drop_length prefix xs else xs

-- `text.replace("\\", "/")`
abbrev pub to_slashes : Text → Text
to_slashes = map (λ c. if c == 0x5c then b'/' else c)

-- `text.lower()`, for ASCII.
abbrev pub to_lower : Text → Text
to_lower = map (λ c. if leb b'A' c && leb c b'Z' then c + 32 else c)

-- `text.split(separator)` at one character: at least one part, and the separators are gone.
unfoldable pub split_step : ℕ → ℕ → List Text → List Text
split_step sep c [] = []
split_step sep c (part ∷ parts) = if c == sep then [] ∷ part ∷ parts else (c ∷ part) ∷ parts

unfoldable pub split_on : ℕ → Text → List Text
unfolding split_step
split_on sep [] = [] ∷ []
split_on sep (c ∷ cs) = split_step sep c (split_on sep cs)

-- `text.rsplit(separator, 1)[-1]`
abbrev pub last_part : Text → List Text → Text
last_part d [] = d
last_part d (p ∷ ps) = last_part p ps

-- The order of texts by their code points.
abbrev pub compare_texts : Text → Text → Ordering
compare_texts [] [] = Ordering.eq
compare_texts [] (y ∷ ys) = Ordering.lt
compare_texts (x ∷ xs) [] = Ordering.gt
compare_texts (x ∷ xs) (y ∷ ys) = elim (compare x y) [
  | Ordering.lt ↦ Ordering.lt
  | Ordering.gt ↦ Ordering.gt
  | Ordering.eq ↦ compare_texts xs ys
]

-- A text is put in its place, unless it is there.
unfoldable pub insert_text : Text → List Text → List Text
insert_text t [] = t ∷ []
insert_text t (u ∷ us) = elim (compare_texts t u) [
  | Ordering.lt ↦ t ∷ u ∷ us
  | Ordering.eq ↦ u ∷ us
  | Ordering.gt ↦ u ∷ insert_text t us
]

-- `sorted(set(texts))`
unfoldable pub sorted_set : List Text → List Text
unfolding insert_text
sorted_set [] = []
sorted_set (t ∷ ts) = insert_text t (sorted_set ts)

-- `sorted(texts)`, which keeps repetitions.
unfoldable pub insert_in_order : Text → List Text → List Text
insert_in_order t [] = t ∷ []
insert_in_order t (u ∷ us) = elim (compare_texts t u) [
  | Ordering.gt ↦ u ∷ insert_in_order t us
  | _ ↦ t ∷ u ∷ us
]

unfoldable pub sorted_texts : List Text → List Text
unfolding insert_in_order
sorted_texts [] = []
sorted_texts (t ∷ ts) = insert_in_order t (sorted_texts ts)

-- `tuple(dict.fromkeys(texts))`: each text once, in the order of the first places.
unfoldable pub without : Text → List Text → List Text
without t [] = []
without t (u ∷ us) = let rest = without t us in if text_eq t u then rest else u ∷ rest

unfoldable pub from_keys : List Text → List Text
from_keys [] = []
from_keys (t ∷ ts) = t ∷ without t (from_keys ts)

pub text_eq_sound : (t u : Text) → text_eq t u ≡ true → t ≡ u
text_eq_sound [] [] h = refl
text_eq_sound [] (y ∷ u) h = cc
text_eq_sound (x ∷ t) [] h = cc
text_eq_sound (x ∷ t) (y ∷ u) h = ground (arith, text_eq_sound t u)

mem_text-without :
    (x t : Text) (us : List Text) → text_eq x t ≡ false → mem_text x (without t us) ≡ mem_text x us
unfolding without
mem_text-without x t [] h = refl
mem_text-without x t (u ∷ us) h = elim (Bool-cases (text_eq t u)) [
  | inl same ↦
      let other : text_eq x u ≡ false =
        subst (λ y. text_eq x y ≡ false) (text_eq_sound t u same) h in
      ground (arith, mem_text-without x t us h)
  | inr other ↦ ground (arith, mem_text-without x t us h)
]

pub mem_text-from_keys : (x : Text) (ts : List Text) → mem_text x (from_keys ts) ≡ mem_text x ts
unfolding from_keys
mem_text-from_keys x [] = refl
mem_text-from_keys x (t ∷ ts) = elim (Bool-cases (text_eq x t)) [
  | inl same ↦ ground arith
  | inr other ↦ ground (arith, mem_text-without x t (from_keys ts) other, mem_text-from_keys x ts)
]

pub mem_text-append :
    (x : Text) (ts us : List Text) → mem_text x (ts ++ us) ≡ (mem_text x ts || mem_text x us)
mem_text-append x [] us = refl
mem_text-append x (t ∷ ts) us = ground (arith, mem_text-append x ts us)

pub text_eq_refl : (t : Text) → text_eq t t ≡ true
text_eq_refl [] = refl
text_eq_refl (c ∷ t) = ground (arith, text_eq_refl t)

compare_texts_sound : (t u : Text) → compare_texts t u ≡ Ordering.eq → t ≡ u
compare_texts_sound [] [] h = refl
compare_texts_sound [] (y ∷ u) h = cc
compare_texts_sound (x ∷ t) [] h = cc
compare_texts_sound (x ∷ t) (y ∷ u) h = ground (arith, compare_texts_sound t u)

Ordering-cases : (o : Ordering) → (o ≡ Ordering.lt) ⊎ ((o ≡ Ordering.eq) ⊎ (o ≡ Ordering.gt))
Ordering-cases Ordering.lt = inl refl
Ordering-cases Ordering.eq = inr (inl refl)
Ordering-cases Ordering.gt = inr (inr refl)

mem_text-insert_text :
    (x t : Text) (us : List Text) → mem_text x (insert_text t us) ≡ (text_eq x t || mem_text x us)
unfolding insert_text
mem_text-insert_text x t [] = refl
mem_text-insert_text x t (u ∷ us) = elim (Ordering-cases (compare_texts t u)) [
  | inl less ↦ rw (less, insert_text) refl
  | inr (inl same) ↦
      let e : text_eq x t ≡ text_eq x u = ap (λ y. text_eq x y) (compare_texts_sound t u same) in
      rw (same, insert_text) (ground (arith, e))
  | inr (inr more) ↦ rw (more, insert_text) (ground (arith, mem_text-insert_text x t us))
]

pub mem_text-sorted_set : (x : Text) (ts : List Text) → mem_text x (sorted_set ts) ≡ mem_text x ts
unfolding sorted_set
mem_text-sorted_set x [] = refl
mem_text-sorted_set x (t ∷ ts) =
    ground (arith, mem_text-insert_text x t (sorted_set ts), mem_text-sorted_set x ts)
