-- ===== src/Worker/Termination.antt =====
-- consensus.rs: the recursion of `handle_proposal` and `handle_vote`, which call each other. Each
-- round needs a vote, and a vote needs a view above the last voted one.
pub mod Total
pub mod Calls
pub mod Fuel
pub mod Accepting
pub mod Rounds
pub mod Running
