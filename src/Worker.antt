-- ===== src/Worker.antt =====
-- hotstuff/consensus/src/consensus.rs: `ConsensusWorker`.
pub mod Defs
pub mod Payloads
pub mod Proposals
pub mod Handlers
pub mod Steps
pub mod Constant
pub mod Refines
pub mod Safety
pub mod Termination
pub mod Progress
pub mod Responding
pub mod Finalizing
