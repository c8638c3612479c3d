-- ===== src/Worker/Refines.antt =====
-- The handlers of consensus.rs refine the step relation of `Steps`.
pub mod Proposing
pub mod Accepting
pub mod Events
