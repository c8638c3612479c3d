-- ===== src/Prelude/Orders.antt =====
-- What a permutation of a list keeps.
use Prim.Native.Nat.{ℕ, suc}
use mathlib.Core.Path.{◌≡◌, refl, ap, ◌∙◌, subst}
use mathlib.Core.List.{List, [], ◌∷◌, Permᴰ}
use native.Mathlib.Omega.{arith}
use substrate_hot_stuff.Prelude.Lists.{length, elem, All, Distinct}

pub length-Permᴰ {ℓ} : {A : Type ℓ} (xs ys : List A) → Permᴰ xs ys → length xs ≡ length ys
length-Permᴰ [] [] Permᴰ.nil = refl
length-Permᴰ (x ∷ xs) (y ∷ ys) (Permᴰ.cons e p) = ap suc (length-Permᴰ xs ys p)
length-Permᴰ (a ∷ b ∷ xs) (c ∷ d ∷ ys) (Permᴰ.swap e f) = refl
length-Permᴰ xs ys (Permᴰ.trans {l₂ = zs} p q) = length-Permᴰ xs zs p ∙ length-Permᴰ zs ys q

pub All-Permᴰ {ℓ κ} :
    {A : Type ℓ} (P : A → Type κ) (xs ys : List A) → Permᴰ xs ys → All P xs → All P ys
All-Permᴰ P [] [] Permᴰ.nil h = h
All-Permᴰ P (x ∷ xs) (y ∷ ys) (Permᴰ.cons e p) h = (subst P e h.0, All-Permᴰ P xs ys p h.1)
All-Permᴰ P (x ∷ y ∷ xs) (v ∷ w ∷ _) (Permᴰ.swap e f) h = (subst P f h.1.0, (subst P e h.0, h.1.1))
All-Permᴰ P xs ys (Permᴰ.trans {l₂ = zs} p q) h = All-Permᴰ P zs ys q (All-Permᴰ P xs zs p h)

pub elem-Permᴰ : (a : ℕ) (xs ys : List ℕ) → Permᴰ xs ys → elem a xs ≡ elem a ys
elem-Permᴰ a [] [] Permᴰ.nil = refl
elem-Permᴰ a (x ∷ xs) (y ∷ ys) (Permᴰ.cons e p) = rw (e, elem-Permᴰ a xs ys p) refl
elem-Permᴰ a (x ∷ y ∷ xs) (v ∷ w ∷ _) (Permᴰ.swap e f) = rw (e, f) (ground arith)
elem-Permᴰ a xs ys (Permᴰ.trans {l₂ = zs} p q) = elem-Permᴰ a xs zs p ∙ elem-Permᴰ a zs ys q

Distinct-swap : (x y : ℕ) (l : List ℕ) → Distinct (x ∷ y ∷ l) → Distinct (y ∷ x ∷ l)
Distinct-swap x y l d = (ground (arith, d), (ground (arith, d), d.1.1))

pub Distinct-Permᴰ : (xs ys : List ℕ) → Permᴰ xs ys → Distinct xs → Distinct ys
Distinct-Permᴰ [] [] Permᴰ.nil d = d
Distinct-Permᴰ (x ∷ xs) (y ∷ ys) (Permᴰ.cons e p) d =
    (rw (← elem-Permᴰ y xs ys p, ← e) d.0, Distinct-Permᴰ xs ys p d.1)
Distinct-Permᴰ (x ∷ y ∷ xs) (v ∷ w ∷ _) (Permᴰ.swap e f) d =
    subst (λ a. Distinct (a ∷ w ∷ xs)) f
      (subst (λ a. Distinct (y ∷ a ∷ xs)) e (Distinct-swap x y xs d))
Distinct-Permᴰ xs ys (Permᴰ.trans {l₂ = zs} p q) d =
    Distinct-Permᴰ zs ys q (Distinct-Permᴰ xs zs p d)
