-- ===== src/Message/Certificate.antt =====
-- message.rs: the certificates that `QC::verify` accepts, as a type.
use mathlib.Core.HLevel.{Σ_prop_path, prop→set}
use mathlib.Core.Path.{fun_ext}
use mathlib.Core.HProp.{h_prop_ext}
use Prim.Native.Char.{IsScalar}
use native.Mathlib.Bridge.{le_prop}
use native.Mathlib.Decide.{ℕ_discrete}
use text.Mathlib.TextEquality.{IsScalar-prop}
use substrate_hot_stuff.Prelude.{ℕ, ap, ◌≡◌, List, [], ◌∷◌, All, Distinct, true, length}
use substrate_hot_stuff.Primitives.{
  Hash, AuthorityId, AuthoritySignature, AuthorityList, Result, ok,
}
use substrate_hot_stuff.Crypto.{Crypto}
use substrate_hot_stuff.Message.Qc.{Qc, digest, verify}
use substrate_hot_stuff.Message.Quorum.{IsValidQc, voters, verify_sound, verify_complete}

Distinct-prop : (xs : List ℕ) → IsProp (Distinct xs)
Distinct-prop [] = hlevel
Distinct-prop (x ∷ xs) = hlevel (Distinct-prop xs)

IsScalar-set : (n : ℕ) → IsSet (IsScalar n)
IsScalar-set n = prop→set (IsScalar-prop n)

ok-prop : (r : Result (Unit {0})) → IsProp (r ≡ ok tt)
ok-prop r = hlevel (ℕ_discrete, IsScalar-set)

module _ (c : Crypto) where
  signed-prop :
      (d : Hash) (votes : List (AuthorityId × AuthoritySignature))
      → IsProp (All (λ v. c.verify_signature v.1 d v.0 ≡ true) votes)
  signed-prop d [] = hlevel
  signed-prop d (v ∷ votes) = hlevel (signed-prop d votes)

  -- Validity is a proposition.
  IsValidQc-prop : (qc : Qc) (n : ℕ) → IsProp (IsValidQc c qc n)
  IsValidQc-prop qc n x y = λ i. record {
    distinct = Distinct-prop (voters qc.votes) x.distinct y.distinct i;
    enough = le_prop x.enough y.enough i;
    signed = signed-prop (digest c qc) qc.votes x.signed y.signed i;
  }

  -- The QCs that `QC::verify` accepts with these authorities.
  abbrev pub Certificate : AuthorityList → Type 0
  Certificate authorities = (qc : Qc) × (verify c qc authorities ≡ ok tt)

  -- To be accepted and to be valid are the same proposition, and an accepted QC is known by the QC alone:
  -- two of them are equal if the QCs are. So the QCs that `QC::verify` accepts are, as a type, those
  -- in which no authority votes twice, with more than two thirds of the number of authorities, and
  -- each signature its voter's.
  pub Certificate-IsValidQc :
      (authorities : AuthorityList)
      → (Certificate authorities ≡ ((qc : Qc) × IsValidQc c qc (length authorities)))
        × ((a b : Certificate authorities) → a.0 ≡ b.0 → a ≡ b)
        × ((qc : Qc) → (verify c qc authorities ≡ ok tt) ≡ IsValidQc c qc (length authorities))
  Certificate-IsValidQc authorities = (
    ap (λ (P : Qc → Type 0). (qc : Qc) × P qc) (fun_ext same),
    (λ a b e. Σ_prop_path (λ qc. ok-prop (verify c qc authorities)) e),
    same,
  )
    where
      same : (qc : Qc) → (verify c qc authorities ≡ ok tt) ≡ IsValidQc c qc (length authorities)
      same qc =
          h_prop_ext (ok-prop (verify c qc authorities)) (IsValidQc-prop qc (length authorities))
            (verify_sound c qc authorities) (verify_complete c qc authorities)
