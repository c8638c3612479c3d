-- ===== src/Message/ConsensusMessage.antt =====
-- hotstuff/consensus/src/message.rs: `ConsensusMessage`, and the topic that it is gossiped under.
use substrate_hot_stuff.Prelude.{codes}
use substrate_hot_stuff.Primitives.{Hash, AuthorityId}
use substrate_hot_stuff.Crypto.{Crypto}
use substrate_hot_stuff.Message.Tc.{Tc}
use substrate_hot_stuff.Message.Vote.{Vote}
use substrate_hot_stuff.Message.Timeout.{Timeout}
use substrate_hot_stuff.Message.Proposal.{Proposal}

pub data ConsensusMessage : Type 0 where
  propose : Proposal → ConsensusMessage
  vote : Vote → ConsensusMessage
  timeout : Timeout → ConsensusMessage
  tc : Tc → ConsensusMessage
  sync_request : Hash → AuthorityId → ConsensusMessage
  phantom : ConsensusMessage

unfoldable pub gossip_topic : Crypto → Hash
gossip_topic c = c.hash (codes "hotstuff/consensus")
