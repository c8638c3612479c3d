-- ===== src/Prelude/Counting.antt =====
-- Counting in lists without repetition: the pigeonhole behind quorum intersection.
use Prim.Native.Nat.{ℕ, suc, ◌+◌, ◌≤◌, ◌<◌}
use mathlib.Core.Path.{◌≡◌, refl}
use mathlib.Core.Logic.{inl, inr}
use mathlib.Core.Bool.{true, false}
use mathlib.Core.List.{List, [], ◌∷◌}
use native.Mathlib.Omega.{arith}
use substrate_hot_stuff.Prelude.Tests.{if◌then◌else◌, ◌==◌, Bool-cases}
use substrate_hot_stuff.Prelude.Lists.{length, elem, Distinct, Within}

-- The elements of the first list that occur in the second.
abbrev pub common : List ℕ → List ℕ → List ℕ
common [] ys = []
common (x ∷ xs) ys = let rest = common xs ys in if elem x ys then x ∷ rest else rest

remove : ℕ → List ℕ → List ℕ
remove a [] = []
remove a (x ∷ xs) = let rest = remove a xs in if x == a then xs else x ∷ rest

length-remove : (a : ℕ) (xs : List ℕ) → elem a xs ≡ true → suc (length (remove a xs)) ≡ length xs
unfolding remove
length-remove a [] h = ground arith
length-remove a (x ∷ xs) h = ground (arith, length-remove a xs)

elem-remove :
    (a b : ℕ) (xs : List ℕ) → (b == a) ≡ false → elem a xs ≡ true → elem a (remove b xs) ≡ true
unfolding remove
elem-remove a b [] ne h = h
elem-remove a b (x ∷ xs) ne h = ground (arith, elem-remove a b xs)

Within-remove :
    (b : ℕ) (xs ys : List ℕ) → elem b xs ≡ false → Within xs ys → Within xs (remove b ys)
Within-remove b [] ys h w = tt
Within-remove b (x ∷ xs) ys h w =
    (elem-remove x b ys (ground arith) w.0, Within-remove b xs ys (ground arith) w.1)

-- A list without repetition is no longer than one that holds all its elements.
pub length-Within : (xs ys : List ℕ) → Distinct xs → Within xs ys → length xs ≤ length ys
length-Within [] ys d w = omega arith
length-Within (x ∷ xs) ys d w = omega (
  arith,
  length-Within xs (remove x ys) d.1 (Within-remove x xs ys d.0 w.1),
  length-remove x ys w.0,
)

-- The union of the two lists, each element of `ys` that `xs` lacks put once.
union : List ℕ → List ℕ → List ℕ
union [] ys = ys
union (x ∷ xs) ys = let rest = union xs ys in if elem x ys then rest else x ∷ rest

length-union :
    (xs ys : List ℕ) → length (union xs ys) + length (common xs ys) ≡ length xs + length ys
unfolding union
length-union [] ys = omega arith
length-union (x ∷ xs) ys = ground (arith, length-union xs ys)

elem-union :
    (a : ℕ) (xs ys : List ℕ) → elem a xs ≡ false → elem a ys ≡ false → elem a (union xs ys) ≡ false
unfolding union
elem-union a [] ys h k = k
elem-union a (x ∷ xs) ys h k = ground (arith, elem-union a xs ys)

Distinct-union : (xs ys : List ℕ) → Distinct xs → Distinct ys → Distinct (union xs ys)
unfolding union
Distinct-union [] ys d e = e
Distinct-union (x ∷ xs) ys d e = ground (arith, Distinct-union xs ys, elem-union x xs ys)

Within-union : (xs ys zs : List ℕ) → Within xs zs → Within ys zs → Within (union xs ys) zs
unfolding union
Within-union [] ys zs v w = w
Within-union (x ∷ xs) ys zs v w = ground (arith, Within-union xs ys zs)

-- Two lists without repetition inside a third share what exceeds its length.
pub length-common :
    (xs ys zs : List ℕ)
    → Distinct xs
    → Distinct ys
    → Within xs zs
    → Within ys zs
    → length xs + length ys ≤ length zs + length (common xs ys)
length-common xs ys zs d e v w = omega (
  arith,
  length-union xs ys,
  length-Within (union xs ys) zs (Distinct-union xs ys d e) (Within-union xs ys zs v w),
)

-- What the two lists share occurs in both.
pub elem-common :
    (a : ℕ) (xs ys : List ℕ)
    → elem a (common xs ys) ≡ true
    → (elem a xs ≡ true) × (elem a ys ≡ true)
elem-common a [] ys h = ground arith
elem-common a (x ∷ xs) ys h = ground (arith, elem-common a xs ys)

elem-common_right : (a : ℕ) (xs ys : List ℕ) → elem a xs ≡ false → elem a (common xs ys) ≡ false
elem-common_right a [] ys h = refl
elem-common_right a (x ∷ xs) ys h = ground (arith, elem-common_right a xs ys)

pub Distinct-common : (xs ys : List ℕ) → Distinct xs → Distinct (common xs ys)
Distinct-common [] ys d = tt
Distinct-common (x ∷ xs) ys d =
    ground (arith, Distinct-common xs ys d.1, elem-common_right x xs ys d.0)

outside_remove :
    (x a : ℕ) (ys : List ℕ) → (x == a) ≡ false → elem a (remove x ys) ≡ false → elem a ys ≡ false
unfolding remove
outside_remove x a [] ne h = refl
outside_remove x a (y ∷ ys) ne h = ground (arith, outside_remove x a ys)

elem-ne : (x a : ℕ) (xs : List ℕ) → elem x xs ≡ false → elem a xs ≡ true → (x == a) ≡ false
elem-ne x a [] h k = ground arith
elem-ne x a (y ∷ ys) h k = ground (arith, elem-ne x a ys)

-- A longer list without repetition has an element outside the other.
pub outside :
    (xs ys : List ℕ)
    → Distinct xs
    → length ys < length xs
    → (a : ℕ) × (elem a xs ≡ true) × (elem a ys ≡ false)
outside [] ys d h = absurd (omega arith)
outside (x ∷ xs) ys d h = elim (Bool-cases (elem x ys)) [
  | inr out ↦ (x, ground arith, out)
  | inl hit ↦
      let (a, p, q) = outside xs (remove x ys) d.1 (omega (arith, length-remove x ys hit)) in
      (a, ground arith, outside_remove x a ys (elem-ne x a xs d.0 p) q)
]
