-- ===== src/Message/Timeout.antt =====
-- hotstuff/consensus/src/message.rs: `Timeout`, an authority's notice that its view timed out.
use substrate_hot_stuff.Prelude.{◌++◌, Option, not, if◌then◌else◌}
use substrate_hot_stuff.Primitives.{
  Hash, AuthorityId, AuthoritySignature, ViewNumber, AuthorityList, Result, ok, ◌>>◌,
}
use substrate_hot_stuff.Crypto.{Crypto}
use substrate_hot_stuff.Message.Qc.{Qc}
use substrate_hot_stuff.Message.Qc
use substrate_hot_stuff.Message.Signed.{check_known, check_signature}

pub record Timeout : Type 0 where
  pub high_qc : Qc
  pub view : ViewNumber
  pub voter : AuthorityId
  pub signature : Option AuthoritySignature

module _ (c : Crypto) where
  unfoldable pub digest : Timeout → Hash
  digest timeout = c.hash_of (c.encode_u64 timeout.view ++ c.encode_u64 timeout.high_qc.view)

  unfoldable pub verify : Timeout → AuthorityList → Result (Unit {0})
  unfolding digest check_known check_signature
  verify timeout authorities = do
    check_known authorities timeout.voter
    check_signature c timeout.signature (digest timeout) timeout.voter
    if not (Qc.equal timeout.high_qc Qc.default)
        then Qc.verify c timeout.high_qc authorities
        else ok tt
