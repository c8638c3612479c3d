-- ===== src/Consensus.antt =====
-- hotstuff/consensus/src/consensus.rs: the replica. `State` is `ConsensusState`.
pub mod State
pub mod Leader
pub mod Voting
