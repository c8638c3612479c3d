-- ===== src/Prelude/Maps.antt =====
-- A `HashMap` with numbers for keys, as an association list: the program only looks entries up,
-- so their order is not modelled. `entry(k).or_default()` is `get_or` and then `put`.
use mathlib.Core.Path.{◌≡◌, refl}
use mathlib.Core.List.{List, [], ◌∷◌}
use native.Mathlib.Omega.{arith}
use Prim.Native.Nat.{ℕ}
use substrate_hot_stuff.Prelude.Tests.{if◌then◌else◌, ◌==◌}

abbrev pub Map {ℓ} : Type ℓ → Type ℓ
Map V = List (ℕ × V)

module _ {ℓ} {V : Type ℓ} where
  unfoldable pub get_or : V → ℕ → Map V → V
  get_or default k [] = default
  get_or default k ((j, v) ∷ m) = if j == k then v else get_or default k m

  unfoldable pub put : ℕ → V → Map V → Map V
  put k v [] = (k, v) ∷ []
  put k v ((j, w) ∷ m) = let rest = put k v m in if j == k then (k, v) ∷ m else (j, w) ∷ rest

  pub get_or-put :
      (default : V) (k j : ℕ) (v : V) (m : Map V)
      → get_or default j (put k v m) ≡ (if k == j then v else get_or default j m)
  unfolding get_or put
  get_or-put default k j v [] = refl
  get_or-put default k j v ((i, w) ∷ m) = ground (arith, get_or-put default k j v m)
