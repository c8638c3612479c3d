-- ===== src/Exec.antt =====
-- Methods of `&mut self` that may fail: the new state comes back beside the result, since what was
-- written before an early return stays written.
use substrate_hot_stuff.Primitives.{Result, ok, err, panic, exhausted}

abbrev pub Exec {ℓ} : Type 0 → Type ℓ → Type ℓ
Exec S A = S → Result A × S

module _ {ℓ} {S : Type 0} {A : Type ℓ} where
  abbrev pub pure : A → Exec S A
  pure a s = (ok a, s)

  -- A call that only reads the state.
  abbrev pub lift : Result A → Exec S A
  lift r s = (r, s)

  -- `if let Err(_) = m { … }`, and `match m { Ok(_) => {}, Err(e) => debug!(…) }`: an error is
  -- only logged.
  abbrev pub ignore_err : Result A → S → Result (Unit {0}) × S
  ignore_err (ok a) s = (ok tt, s)
  ignore_err (err e) s = (ok tt, s)
  ignore_err panic s = (panic, s)
  ignore_err exhausted s = (exhausted, s)

  abbrev pub logged : Exec S A → Exec S (Unit {0})
  logged m s = let (r, s') = m s in ignore_err r s'

module _ {S : Type 0} where
  abbrev pub get : Exec S S
  get s = (ok s, s)

  abbrev pub modify : (S → S) → Exec S (Unit {0})
  modify f s = (ok tt, f s)

module _ {ℓ κ} {S : Type 0} {A : Type ℓ} {B : Type κ} where
  abbrev pub continue : Result A → (A → Exec S B) → Exec S B
  continue (ok a) f s = f a s
  continue (err e) f s = (err e, s)
  continue panic f s = (panic, s)
  continue exhausted f s = (exhausted, s)

  infixl 5 ◌>>=◌
  unfoldable pub ◌>>=◌ : Exec S A → (A → Exec S B) → Exec S B
  ◌>>=◌ m f s = let (r, s') = m s in continue r f s'

module _ {κ} {S : Type 0} {B : Type κ} where
  infixl 5 ◌>>◌
  abbrev pub ◌>>◌ : Exec S (Unit {0}) → Exec S B → Exec S B
  m >> n = m >>= λ _. n
