-- ===== src/Message.antt =====
-- hotstuff/consensus/src/message.rs: the messages of the consensus, one module for each type.
pub mod Qc
pub mod Tc
pub mod Payload
pub mod Proposal
pub mod Vote
pub mod Timeout
pub mod Signed
pub mod ConsensusMessage
pub mod Codec
pub mod Quorum
pub mod VoteBag
pub mod Certificate
pub mod TcQuorum
pub mod Authenticity
