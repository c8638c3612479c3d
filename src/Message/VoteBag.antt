-- ===== src/Message/VoteBag.antt =====
-- The votes of a QC without their order (message.rs, `QC::verify`).
use mathlib.Core.List.{Permᴰ}
use mathlib.Core.List.Permᴰ as Perm
use mathlib.Core.Quot
use mathlib.Core.Quot.{Quot, Quot-set}
use substrate_hot_stuff.Prelude.{
  ◌↔◌, ◌≡◌, refl, sym, List, Bool, true, false, length-Permᴰ, All-Permᴰ, Distinct-Permᴰ, arith,
}
use substrate_hot_stuff.Primitives.{
  Hash, AuthorityId, AuthoritySignature, ViewNumber, AuthorityList, Result, ok, err, panic,
  exhausted,
}
use substrate_hot_stuff.Crypto.{Crypto}
use substrate_hot_stuff.Message.Qc.{Qc}
use substrate_hot_stuff.Message.Qc
use substrate_hot_stuff.Message.Quorum.{voters, verify_iff}

abbrev pub SignedVote : Type 0
SignedVote = AuthorityId × AuthoritySignature

-- Votes up to their order.
abbrev pub VoteBag : Type 0
VoteBag = Quot (λ (xs : List SignedVote) ys. Permᴰ xs ys)

abbrev pub bag_of : List SignedVote → VoteBag
bag_of = Quot.mk

abbrev is_ok : Result (Unit {0}) → Bool
is_ok (ok _) = true
is_ok _ = false

is_ok-eq : (r : Result (Unit {0})) → (is_ok r ≡ true) ↔ (r ≡ ok tt)
is_ok-eq (ok tt) = (λ e. refl, λ e. refl)
is_ok-eq (err x) = (λ e. absurd (ground arith), λ e. absurd (ground arith))
is_ok-eq panic = (λ e. absurd (ground arith), λ e. absurd (ground arith))
is_ok-eq exhausted = (λ e. absurd (ground arith), λ e. absurd (ground arith))

bools_eq : (a b : Bool) → (a ≡ true → b ≡ true) → (b ≡ true → a ≡ true) → a ≡ b
bools_eq true b h k = sym (h refl)
bools_eq false true h k = k refl
bools_eq false false h k = refl

module _ (c : Crypto) (authorities : AuthorityList) (h : Hash) (view : ViewNumber) where
  abbrev pub qc_with : List SignedVote → Qc
  qc_with votes = record { proposal_hash = h; view = view; votes = votes }

  verify-Permᴰ :
      (xs ys : List SignedVote)
      → Permᴰ xs ys
      → Qc.verify c (qc_with xs) authorities ≡ ok tt
      → Qc.verify c (qc_with ys) authorities ≡ ok tt
  unfolding Qc.digest
  verify-Permᴰ xs ys p good =
      let v = (verify_iff c (qc_with xs) authorities).0 good in
      (verify_iff c (qc_with ys) authorities).1 (record {
        distinct = Distinct-Permᴰ (voters xs) (voters ys) (Perm.map _ p) v.distinct;
        enough = rw (← length-Permᴰ xs ys p) v.enough;
        signed = All-Permᴰ _ xs ys p v.signed;
      })

  accepted : List SignedVote → Bool
  accepted votes = is_ok (Qc.verify c (qc_with votes) authorities)

  accepted-Permᴰ : (xs ys : List SignedVote) → Permᴰ xs ys → accepted xs ≡ accepted ys
  unfolding accepted
  accepted-Permᴰ xs ys p =
      let at_x = is_ok-eq (Qc.verify c (qc_with xs) authorities) in
      let at_y = is_ok-eq (Qc.verify c (qc_with ys) authorities) in
      bools_eq _ _ (λ e. at_y.1 (verify-Permᴰ xs ys p (at_x.0 e)))
        (λ e. at_x.1 (verify-Permᴰ ys xs (Perm.symm p) (at_y.0 e)))

  -- Whether a QC with these votes passes.
  pub accepts : VoteBag → Bool
  unfolding accepted accepted-Permᴰ
  accepts = Quot.lift (hlevel) accepted λ xs ys p. accepted-Permᴰ xs ys p

  accepts_iff :
      (votes : List SignedVote)
      → (accepts (bag_of votes) ≡ true) ↔ (Qc.verify c (qc_with votes) authorities ≡ ok tt)
  unfolding accepts accepted
  accepts_iff votes = is_ok-eq (Qc.verify c (qc_with votes) authorities)

  -- The order of its votes does not matter to whether `QC::verify` accepts a QC: for one proposal and
  -- view, it accepts both or neither of two lists that are the same bag, an element of the quotient
  -- of lists by permutation.
  pub verify-bag_of :
      (xs ys : List SignedVote)
      → bag_of xs ≡ bag_of ys
      → (Qc.verify c (qc_with xs) authorities ≡ ok tt)
        ↔ (Qc.verify c (qc_with ys) authorities ≡ ok tt)
  verify-bag_of xs ys e = (
    λ h. (accepts_iff ys).0 (rw (← e) ((accepts_iff xs).1 h)),
    λ h. (accepts_iff xs).0 (rw e ((accepts_iff ys).1 h)),
  )
