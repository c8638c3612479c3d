-- ===== src/Worker/Termination/Fuel.antt =====
-- consensus.rs: how many rounds the last voted view leaves.
use substrate_hot_stuff.Prelude.{
  ℕ, suc, ◌+◌, ◌<◌, ◌≤◌, ◌≡◌, refl, Bool, true, false, if◌then◌else◌, arith,
}
use substrate_hot_stuff.Primitives.{u64_mod, Result, ok, err, panic, exhausted}
use substrate_hot_stuff.Exec.{Exec, continue, logged, ignore_err}
use substrate_hot_stuff.Worker.Defs.{Worker}
use substrate_hot_stuff.Worker.Safety.Views.{Moves}
use substrate_hot_stuff.Worker.Termination.Total.{Returns}

-- What a call of `m`, and then of `f` with its result, needs to return.
pub continue-Returns {ℓ κ} :
    {S : Type 0} {A : Type ℓ} {B : Type κ} (r : Result A) (f : A → Exec S B) (s : S)
    → Returns r
    → ((a : A) → r ≡ ok a → Returns (f a s).0)
    → Returns (continue r f s).0
continue-Returns (ok a) f s h k = k a refl
continue-Returns (err e) f s h k = tt
continue-Returns panic f s h k = tt
continue-Returns exhausted f s h k = h

pub choice-Returns :
    {S : Type 0} (b : Bool) (m n : Exec S (Unit {0})) (s : S)
    → (b ≡ true → Returns (m s).0)
    → (b ≡ false → Returns (n s).0)
    → Returns ((if b then m else n) s).0
choice-Returns true m n s h k = h refl
choice-Returns false m n s h k = k refl

ignored-Returns {ℓ} :
    {S : Type 0} {A : Type ℓ} (r : Result A) (s : S) → Returns r → Returns (ignore_err r s).0
ignored-Returns (ok a) s h = tt
ignored-Returns (err e) s h = tt
ignored-Returns panic s h = tt
ignored-Returns exhausted s h = h

pub logged-Returns {ℓ} :
    {S : Type 0} {A : Type ℓ} (m : Exec S A) (s : S) → Returns (m s).0 → Returns (logged m s).0
logged-Returns m s h = ignored-Returns (m s).0 (m s).1 h

pub pair-Returns :
    {S : Type 0} (b : Bool) (x y : Result (Unit {0}) × S)
    → Returns x.0
    → Returns y.0
    → Returns (if b then x else y).0
pair-Returns true x y h k = h
pair-Returns false x y h k = k

module _ {Chain : Type 0} where
  -- The views are u64, and the last voted view can rise at most `n` times.
  pub record Live (n : ℕ) (w : Worker Chain) : Type 0 where
    pub small : w.state.view < u64_mod
    pub voted_small : w.state.last_voted_view < u64_mod
    pub left : u64_mod ≤ w.state.last_voted_view + n

  pub Live-Moves : {n : ℕ} {w u : Worker Chain} → Live n w → Moves w u → Live n u
  Live-Moves h m = record {
    small = m.small h.small;
    voted_small = m.voted_small h.small h.voted_small;
    left = omega (arith, h.left, m.voted);
  }

  -- A vote leaves one less.
  pub Live-voted :
      {n : ℕ} {w u : Worker Chain}
      → Live (suc n) w
      → Moves w u
      → w.state.last_voted_view < u.state.last_voted_view
      → Live n u
  Live-voted h m above = record {
    small = m.small h.small;
    voted_small = m.voted_small h.small h.voted_small;
    left = omega (arith, h.left, above);
  }

  pub Live-zero : (w : Worker Chain) → Live 0 w → ⊥
  Live-zero w h = omega (arith, h.left, h.voted_small)
