-- ===== src/Message/Qc.antt =====
-- hotstuff/consensus/src/message.rs: `QC`, the quorum certificate of a proposal.
use substrate_hot_stuff.Prelude.{
  ℕ, ◌+◌, ◌*◌, ◌/◌, List, [], ◌∷◌, ◌++◌, Bool, ◌&&◌, length, elem, leb, ◌==◌, if◌then◌else◌,
}
use substrate_hot_stuff.Primitives.{
  Hash, AuthorityId, AuthoritySignature, ViewNumber, AuthorityList, authority_reuse,
  insufficient_quorum, invalid_signature, Result, ok, err, ◌>>=◌, ◌>>◌, fail_if,
}
use substrate_hot_stuff.Crypto.{Crypto}

pub record Qc : Type 0 where
  pub proposal_hash : Hash
  pub view : ViewNumber
  pub votes : List (AuthorityId × AuthoritySignature)

-- `Default::default()`: the zero hash, view 0, no votes.
abbrev pub default : Qc
default = record { proposal_hash = 0; view = 0; votes = [] }

-- `PartialEq` ignores the votes.
abbrev pub equal : Qc → Qc → Bool
equal a b = a.proposal_hash == b.proposal_hash && a.view == b.view

unfoldable pub add_votes : Qc → AuthorityId → AuthoritySignature → Qc
add_votes qc id signature = record qc { votes = qc.votes ++ (id, signature) ∷ [] }

-- The loop over `used` and `grant_votes`.
unfoldable pub count_grants :
    List AuthorityId → List (AuthorityId × AuthoritySignature) → ℕ → Result ℕ
count_grants used [] grant_votes = ok grant_votes
count_grants used ((id, signature) ∷ votes) grant_votes =
    let rest = count_grants (id ∷ used) votes (grant_votes + 1) in
    if elem id used then err (authority_reuse id) else rest

module _ (c : Crypto) where
  unfoldable pub digest : Qc → Hash
  digest qc = c.hash_of (c.encode_hash qc.proposal_hash ++ c.encode_u64 qc.view)

  unfoldable pub check_signatures :
      Hash → List (AuthorityId × AuthoritySignature) → Result (Unit {0})
  check_signatures digest [] = ok tt
  check_signatures digest ((voter, signature) ∷ votes) =
      let rest = check_signatures digest votes in
      if c.verify_signature signature digest voter then rest else err (invalid_signature voter)

  unfoldable pub verify : Qc → AuthorityList → Result (Unit {0})
  unfolding count_grants check_signatures digest
  verify qc authorities = do
    grant_votes ← count_grants [] qc.votes 0
    fail_if (leb grant_votes (length authorities * 2 / 3)) insufficient_quorum
    check_signatures (digest qc) qc.votes
