-- ===== src/Message/Codec.antt =====
-- What the consensus takes from the SCALE codec for whole messages: `encode` and `decode`, and the
-- bytes of a hash (`as_ref`).
use substrate_hot_stuff.Primitives.{Bytes, Hash, External}
use substrate_hot_stuff.Message.Proposal.{Proposal}
use substrate_hot_stuff.Message.ConsensusMessage.{ConsensusMessage}

pub record Codec : Type 0 where
  pub as_ref : Hash → Bytes
  pub encode_proposal : Proposal → Bytes
  pub decode_proposal : Bytes → External Proposal
  pub decode_message : Bytes → External ConsensusMessage
