-- ===== src/Message/Vote.antt =====
-- hotstuff/consensus/src/message.rs: `Vote`, an authority's vote for a proposal.
use substrate_hot_stuff.Prelude.{◌++◌, Option, none}
use substrate_hot_stuff.Primitives.{
  Hash, AuthorityId, AuthoritySignature, ViewNumber, AuthorityList, Result, ◌>>◌,
}
use substrate_hot_stuff.Crypto.{Crypto}
use substrate_hot_stuff.Message.Signed.{check_known, check_signature}

pub record Vote : Type 0 where
  pub proposal_hash : Hash
  pub view : ViewNumber
  pub voter : AuthorityId
  pub signature : Option AuthoritySignature

unfoldable pub new : Hash → ViewNumber → AuthorityId → Vote
new proposal_hash proposal_view voter = record {
  proposal_hash = proposal_hash;
  view = proposal_view;
  voter = voter;
  signature = none;
}

module _ (c : Crypto) where
  unfoldable pub digest : Vote → Hash
  digest vote = c.hash_of (c.encode_hash vote.proposal_hash ++ c.encode_u64 vote.view)

  unfoldable pub verify : Vote → AuthorityList → Result (Unit {0})
  unfolding digest check_known check_signature
  verify vote authorities = do
    check_known authorities vote.voter
    check_signature c vote.signature (digest vote) vote.voter
