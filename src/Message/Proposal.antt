-- ===== src/Message/Proposal.antt =====
-- hotstuff/consensus/src/message.rs: `Proposal`, what the leader of a view proposes.
use substrate_hot_stuff.Prelude.{◌++◌, Option, not, if◌then◌else◌}
use substrate_hot_stuff.Primitives.{
  Hash, AuthorityId, AuthoritySignature, ViewNumber, AuthorityList, Result, ok, ◌>>◌,
}
use substrate_hot_stuff.Crypto.{Crypto}
use substrate_hot_stuff.Message.Qc.{Qc}
use substrate_hot_stuff.Message.Qc
use substrate_hot_stuff.Message.Tc.{Tc}
use substrate_hot_stuff.Message.Payload.{Payload, encode}
use substrate_hot_stuff.Message.Signed.{check_known, check_signature}

pub record Proposal : Type 0 where
  pub qc : Qc
  pub tc : Option Tc
  pub payload : Payload
  pub view : ViewNumber
  pub author : AuthorityId
  pub signature : Option AuthoritySignature

unfoldable pub parent_hash : Proposal → Hash
parent_hash proposal = proposal.qc.proposal_hash

module _ (c : Crypto) where
  unfoldable pub digest : Proposal → Hash
  unfolding encode
  digest proposal = c.hash_of (
      c.encode_authority proposal.author
      ++ (encode c proposal.payload
          ++ (c.encode_u64 proposal.view ++ c.encode_hash proposal.qc.proposal_hash)))

  unfoldable pub verify : Proposal → AuthorityList → Result (Unit {0})
  unfolding digest check_known check_signature
  verify proposal authorities = do
    check_known authorities proposal.author
    check_signature c proposal.signature (digest proposal) proposal.author
    if not (Qc.equal proposal.qc Qc.default) then Qc.verify c proposal.qc authorities else ok tt
