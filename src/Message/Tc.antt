-- ===== src/Message/Tc.antt =====
-- hotstuff/consensus/src/message.rs: `TC`, the certificate that a quorum timed out in a view.
use substrate_hot_stuff.Prelude.{
  ℕ, ◌+◌, ◌*◌, ◌/◌, List, [], ◌∷◌, ◌++◌, length, elem, leb, if◌then◌else◌,
}
use substrate_hot_stuff.Primitives.{
  Hash, AuthorityId, AuthoritySignature, ViewNumber, AuthorityList, authority_reuse,
  insufficient_quorum, invalid_signature, Result, ok, err, ◌>>=◌, ◌>>◌, fail_if,
}
use substrate_hot_stuff.Crypto.{Crypto}

pub record Tc : Type 0 where
  pub view : ViewNumber
  pub votes : List (AuthorityId × AuthoritySignature × ViewNumber)

unfoldable pub count_grants :
    List AuthorityId → List (AuthorityId × AuthoritySignature × ViewNumber) → ℕ → Result ℕ
count_grants used [] grant_votes = ok grant_votes
count_grants used ((id, signature, view) ∷ votes) grant_votes =
    let rest = count_grants (id ∷ used) votes (grant_votes + 1) in
    if elem id used then err (authority_reuse id) else rest

module _ (c : Crypto) where
  -- The digest that `TC::verify` builds for one vote, in place of `Timeout::digest`.
  unfoldable pub vote_digest : ViewNumber → ViewNumber → Hash
  vote_digest tc_view view = c.hash_of (c.encode_u64 tc_view ++ c.encode_u64 view)

  unfoldable pub check_signatures :
      ViewNumber → List (AuthorityId × AuthoritySignature × ViewNumber) → Result (Unit {0})
  unfolding vote_digest
  check_signatures tc_view [] = ok tt
  check_signatures tc_view ((voter, signature, view) ∷ votes) =
      let rest = check_signatures tc_view votes in
      if c.verify_signature signature (vote_digest tc_view view) voter
      then rest
      else err (invalid_signature voter)

  unfoldable pub verify : Tc → AuthorityList → Result (Unit {0})
  unfolding count_grants check_signatures
  verify tc authorities = do
    grant_votes ← count_grants [] tc.votes 0
    fail_if (leb grant_votes (length authorities * 2 / 3)) insufficient_quorum
    check_signatures tc.view tc.votes
