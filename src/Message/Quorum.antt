-- ===== src/Message/Quorum.antt =====
-- What a verified QC promises (message.rs, `QC::verify`).
use substrate_hot_stuff.Prelude.{
  ℕ, ◌+◌, ◌*◌, ◌/◌, ◌≤◌, ◌≡◌, refl, ◌↔◌, List, [], ◌∷◌, map, true, false, length, elem, All,
  Distinct, Within, common, arith, length-map, length-common, elem-common, outside, Distinct-common,
}
use substrate_hot_stuff.Primitives.{Hash, AuthorityId, AuthoritySignature, AuthorityList, ok}
use substrate_hot_stuff.Crypto.{Crypto}
use substrate_hot_stuff.Message.Qc.{Qc, count_grants, check_signatures, digest, verify}

abbrev pub voters : List (AuthorityId × AuthoritySignature) → List AuthorityId
voters = map (λ v. v.0)

abbrev pub ids : AuthorityList → List AuthorityId
ids = map (λ authority. authority.0)

-- The number of votes that a certificate needs among `n` authorities: more than two thirds.
abbrev pub quorum : ℕ → ℕ
quorum n = n * 2 / 3 + 1

-- A valid certificate: no authority twice, a quorum, and every signature is for the digest.
pub record IsValidQc (c : Crypto) (qc : Qc) (n : ℕ) : Type 0 where
  pub distinct : Distinct (voters qc.votes)
  pub enough : quorum n ≤ length qc.votes
  pub signed : All (λ v. c.verify_signature v.1 (digest c qc) v.0 ≡ true) qc.votes

-- No element of the first list is in the second.
abbrev pub Apart : List ℕ → List ℕ → Type 0
Apart used xs = All (λ x. elem x used ≡ false) xs

Apart-cons : (a : ℕ) (used xs : List ℕ) → Apart used xs → elem a xs ≡ false → Apart (a ∷ used) xs
Apart-cons a used [] p q = tt
Apart-cons a used (x ∷ xs) p q = (ground arith, Apart-cons a used xs p.1 (ground arith))

Apart-tail : (a : ℕ) (used xs : List ℕ) → Apart (a ∷ used) xs → Apart used xs
Apart-tail a used [] p = tt
Apart-tail a used (x ∷ xs) p = (ground arith, Apart-tail a used xs p.1)

Apart-head : (a : ℕ) (used xs : List ℕ) → Apart (a ∷ used) xs → elem a xs ≡ false
Apart-head a used [] p = refl
Apart-head a used (x ∷ xs) p = ground (arith, Apart-head a used xs p.1)

pub Apart-nil : (xs : List ℕ) → Apart [] xs
Apart-nil [] = tt
Apart-nil (x ∷ xs) = (refl, Apart-nil xs)

-- The loop over `used` accepts distinct voters and counts them.
pub count_grants_complete :
    (used : List ℕ) (votes : List (AuthorityId × AuthoritySignature)) (n : ℕ)
    → Distinct (voters votes)
    → Apart used (voters votes)
    → count_grants used votes n ≡ ok (n + length votes)
unfolding count_grants
count_grants_complete used [] n d p = ground arith
count_grants_complete used ((id, s) ∷ votes) n d p = ground (
  arith,
  count_grants_complete (id ∷ used) votes (n + 1) d.1 (Apart-cons id used (voters votes) p.1 d.0),
)

pub count_grants_sound :
    (used : List ℕ) (votes : List (AuthorityId × AuthoritySignature)) (n m : ℕ)
    → count_grants used votes n ≡ ok m
    → Distinct (voters votes) × Apart used (voters votes) × (m ≡ n + length votes)
unfolding count_grants
count_grants_sound used [] n m e = (tt, tt, ground arith)
count_grants_sound used ((id, s) ∷ votes) n m e =
    let rest : count_grants (id ∷ used) votes (n + 1) ≡ ok m = ground arith in
    let (d, p, q) = count_grants_sound (id ∷ used) votes (n + 1) m rest in
    (
      (Apart-head id used (voters votes) p, d),
      (ground arith, Apart-tail id used (voters votes) p),
      omega arith,
    )

module _ (c : Crypto) where
  check_signatures_sound :
      (d : Hash) (votes : List (AuthorityId × AuthoritySignature))
      → check_signatures c d votes ≡ ok tt
      → All (λ v. c.verify_signature v.1 d v.0 ≡ true) votes
  unfolding check_signatures
  check_signatures_sound d [] e = tt
  check_signatures_sound d ((id, s) ∷ votes) e =
      (ground arith, check_signatures_sound d votes (ground arith))

  check_signatures_complete :
      (d : Hash) (votes : List (AuthorityId × AuthoritySignature))
      → All (λ v. c.verify_signature v.1 d v.0 ≡ true) votes
      → check_signatures c d votes ≡ ok tt
  unfolding check_signatures
  check_signatures_complete d [] h = refl
  check_signatures_complete d ((id, s) ∷ votes) h =
      ground (arith, check_signatures_complete d votes h.1)

  pub verify_complete :
      (qc : Qc) (authorities : AuthorityList)
      → IsValidQc c qc (length authorities)
      → verify c qc authorities ≡ ok tt
  unfolding verify
  verify_complete qc authorities h = ground (
    arith,
    count_grants_complete [] qc.votes 0 h.distinct (Apart-nil (voters qc.votes)),
    check_signatures_complete (digest c qc) qc.votes h.signed,
  )

  -- The parts of a successful check.
  verify_parts :
      (qc : Qc) (authorities : AuthorityList)
      → verify c qc authorities ≡ ok tt
      → (m : ℕ) × (count_grants [] qc.votes 0 ≡ ok m)
        × (quorum (length authorities) ≤ m)
        × (check_signatures c (digest c qc) qc.votes ≡ ok tt)
  unfolding verify
  verify_parts qc authorities e = ground arith

  pub verify_sound :
      (qc : Qc) (authorities : AuthorityList)
      → verify c qc authorities ≡ ok tt
      → IsValidQc c qc (length authorities)
  verify_sound qc authorities e =
      let (m, grants, enough, signed) = verify_parts qc authorities e in
      let (d, p, q) = count_grants_sound [] qc.votes 0 m grants in
      record {
        distinct = d;
        enough = omega arith;
        signed = check_signatures_sound (digest c qc) qc.votes signed;
      }

  -- `QC::verify` accepts exactly the certificates in which no authority votes twice, the votes
  -- are more than two thirds of the number of authorities, and every signature is its voter's
  -- for the digest.
  pub verify_iff :
      (qc : Qc) (authorities : AuthorityList)
      → (verify c qc authorities ≡ ok tt) ↔ IsValidQc c qc (length authorities)
  verify_iff qc authorities = (verify_sound qc authorities, verify_complete qc authorities)

  -- `QC::verify` reads only the number of the authorities: any two lists of one length accept
  -- and refuse the same certificates, whether or not a voter is on the list.
  verify-length :
      (qc : Qc) (authorities others : AuthorityList)
      → length authorities ≡ length others
      → verify c qc authorities ≡ verify c qc others
  unfolding verify
  verify-length qc authorities others e = rw e

  -- Two verified certificates whose voters are authorities share a voter that is not faulty, if the
  -- faulty are at most a third of the authorities.
  pub quorum_intersection :
      (a b : Qc) (authorities : AuthorityList) (faulty : List AuthorityId)
      → verify c a authorities ≡ ok tt
      → verify c b authorities ≡ ok tt
      → Within (voters a.votes) (ids authorities)
      → Within (voters b.votes) (ids authorities)
      → 3 * length faulty ≤ length authorities
      → (id : AuthorityId) × (elem id (voters a.votes) ≡ true)
        × (elem id (voters b.votes) ≡ true)
        × (elem id faulty ≡ false)
  quorum_intersection a b authorities faulty p q v w few =
      let x = verify_sound a authorities p in
      let y = verify_sound b authorities q in
      let shared = common (voters a.votes) (voters b.votes) in
      let (id, within, honest) =
        outside shared faulty (Distinct-common (voters a.votes) (voters b.votes) x.distinct) (
          omega (
            arith,
            length-common (voters a.votes) (voters b.votes) (ids authorities) x.distinct y.distinct
                v w,
            length-map (λ (t : AuthorityId × AuthoritySignature). t.0) a.votes,
            length-map (λ (t : AuthorityId × AuthoritySignature). t.0) b.votes,
            length-map (λ (t : AuthorityId × ℕ). t.0) authorities,
            x.enough,
            y.enough,
          )) in
      let (in_a, in_b) = elem-common id (voters a.votes) (voters b.votes) within in
      (id, in_a, in_b, honest)
