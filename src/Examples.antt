-- ===== src/Examples.antt =====
-- Concrete runs of the consensus: a small network, its messages, and what the theorems say of them.
pub mod World
pub mod Codec
pub mod Messages
pub mod Certificates
pub mod Aggregating
pub mod Local
pub mod Runs
pub mod Chain
pub mod Agreeing
pub mod Starting
pub mod Specs
pub mod Leading
pub mod Rounds
pub mod Sevens
pub mod Finalizing
pub mod Services
pub mod Authoring
pub mod Finishing
pub mod Remarks
