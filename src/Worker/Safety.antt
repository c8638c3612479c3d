-- ===== src/Worker/Safety.antt =====
-- What holds in every run of the worker (consensus.rs).
pub mod Votes
pub mod Views
pub mod Signing
pub mod Certified
pub mod Certificates
pub mod Traces
pub mod Outbox
pub mod Stores
pub mod Finality
