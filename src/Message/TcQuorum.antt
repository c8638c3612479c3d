-- ===== src/Message/TcQuorum.antt =====
-- What a verified TC promises (message.rs, `TC::verify`).
use substrate_hot_stuff.Prelude.{
  ℕ, ◌+◌, ◌≤◌, ◌≡◌, refl, ◌↔◌, List, [], ◌∷◌, map, true, length, All, Distinct, arith, length-map,
}
use substrate_hot_stuff.Primitives.{AuthorityId, AuthoritySignature, ViewNumber, AuthorityList, ok}
use substrate_hot_stuff.Crypto.{Crypto}
use substrate_hot_stuff.Message.Qc
use substrate_hot_stuff.Message.Tc.{Tc, count_grants, check_signatures, vote_digest, verify}
use substrate_hot_stuff.Message.Quorum.{
  voters, quorum, count_grants_sound, count_grants_complete, Apart-nil,
}

abbrev pub TcVote : Type 0
TcVote = AuthorityId × AuthoritySignature × ViewNumber

-- A vote without its view, as a QC holds it.
abbrev pair : TcVote → AuthorityId × AuthoritySignature
pair v = (v.0, v.1)

abbrev pub tc_voters : List TcVote → List AuthorityId
tc_voters votes = voters (map pair votes)

-- The two certificates count their votes alike.
count_grants-pair :
    (used : List AuthorityId) (votes : List TcVote) (n : ℕ)
    → count_grants used votes n ≡ Qc.count_grants used (map pair votes) n
unfolding count_grants Qc.count_grants
count_grants-pair used [] n = refl
count_grants-pair used ((id, s, view) ∷ votes) n =
    ground (arith, count_grants-pair (id ∷ used) votes (n + 1))

module _ (c : Crypto) where
  -- Every signature is its voter's for the view of the certificate and the view beside it.
  abbrev pub AllSigned : ViewNumber → List TcVote → Type 0
  AllSigned tc_view = All (λ v. c.verify_signature v.1 (vote_digest c tc_view v.2) v.0 ≡ true)

  pub record IsValidTc (tc : Tc) (n : ℕ) : Type 0 where
    pub distinct : Distinct (tc_voters tc.votes)
    pub enough : quorum n ≤ length tc.votes
    pub signed : AllSigned tc.view tc.votes

  check_signatures_sound :
      (view : ViewNumber) (votes : List TcVote)
      → check_signatures c view votes ≡ ok tt
      → AllSigned view votes
  unfolding check_signatures
  check_signatures_sound view [] e = tt
  check_signatures_sound view ((id, s, w) ∷ votes) e =
      (ground arith, check_signatures_sound view votes (ground arith))

  check_signatures_complete :
      (view : ViewNumber) (votes : List TcVote)
      → AllSigned view votes
      → check_signatures c view votes ≡ ok tt
  unfolding check_signatures
  check_signatures_complete view [] h = refl
  check_signatures_complete view ((id, s, w) ∷ votes) h =
      ground (arith, check_signatures_complete view votes h.1)

  verify_complete :
      (tc : Tc) (authorities : AuthorityList)
      → IsValidTc tc (length authorities)
      → verify c tc authorities ≡ ok tt
  unfolding verify
  verify_complete tc authorities h = ground (
    arith,
    count_grants-pair [] tc.votes 0,
    count_grants_complete [] (map pair tc.votes) 0 h.distinct (Apart-nil (tc_voters tc.votes)),
    length-map pair tc.votes,
    check_signatures_complete tc.view tc.votes h.signed,
  )

  verify_parts :
      (tc : Tc) (authorities : AuthorityList)
      → verify c tc authorities ≡ ok tt
      → (m : ℕ) × (count_grants [] tc.votes 0 ≡ ok m)
        × (quorum (length authorities) ≤ m)
        × (check_signatures c tc.view tc.votes ≡ ok tt)
  unfolding verify
  verify_parts tc authorities e = ground arith

  pub verify_sound :
      (tc : Tc) (authorities : AuthorityList)
      → verify c tc authorities ≡ ok tt
      → IsValidTc tc (length authorities)
  verify_sound tc authorities e =
      let (m, grants, many, signed) = verify_parts tc authorities e in
      let (d, p, q) =
        count_grants_sound [] (map pair tc.votes) 0 m
          (ground (arith, count_grants-pair [] tc.votes 0)) in
      record {
        distinct = d;
        enough = omega (arith, length-map pair tc.votes);
        signed = check_signatures_sound tc.view tc.votes signed;
      }

  -- `TC::verify` accepts exactly the certificates in which no authority stands twice, the votes
  -- are more than two thirds of the number of authorities, and every signature is its voter's
  -- for the digest of the certificate's view and the view that stands beside it.
  verify_tc_iff :
      (tc : Tc) (authorities : AuthorityList)
      → (verify c tc authorities ≡ ok tt) ↔ IsValidTc tc (length authorities)
  verify_tc_iff tc authorities = (verify_sound tc authorities, verify_complete tc authorities)
