-- ===== src/Synchronizer.antt =====
-- hotstuff/consensus/src/store.rs and synchronizer.rs: proposals are kept in the client's
-- auxiliary store, each under its digest, and found again by the hash that a child's QC names.
-- `Timer` only delays; its firing is an event of the worker.
pub mod Ancestors
use substrate_hot_stuff.Prelude.{Option, none, some}
use substrate_hot_stuff.Primitives.{
  Bytes, Result, ok, err, ◌>>=◌, External, map_err, other, save_proposal as save_failed,
  proposal_no_parent,
}
use substrate_hot_stuff.Message.Proposal.{Proposal}
use substrate_hot_stuff.Message.Proposal
use substrate_hot_stuff.Environment.{Environment}

module _ (env : Environment) where
  -- `Store::get`
  unfoldable pub get : env.client.State → Bytes → External (Option Bytes)
  get s key = env.client.get_aux s key

  -- `Store::set`
  unfoldable pub set : env.client.State → Bytes → Bytes → External (Unit {0}) × env.client.State
  set s key value = env.client.insert_aux s key value

  unfoldable pub save_proposal : env.client.State → Proposal → Result (Unit {0}) × env.client.State
  unfolding set Proposal.digest
  save_proposal s proposal =
      let value = env.codec.encode_proposal proposal in
      let key = Proposal.digest env.crypto proposal in
      let (result, s') = set s (env.codec.as_ref key) value in (map_err save_failed result, s')

  unfoldable pub decoded : Option Bytes → Result Proposal
  decoded none = err proposal_no_parent
  decoded (some bytes) = map_err other (env.codec.decode_proposal bytes)

  unfoldable pub get_proposal_parent : env.client.State → Proposal → Result Proposal
  unfolding get decoded Proposal.parent_hash
  get_proposal_parent s proposal = do
    found ← map_err other (get s (env.codec.as_ref (Proposal.parent_hash proposal)))
    decoded found

  unfoldable pub get_proposal_ancestors : env.client.State → Proposal → Result (Proposal × Proposal)
  get_proposal_ancestors s proposal = do
    parent ← get_proposal_parent s proposal
    grandpa ← get_proposal_parent s parent
    ok (parent, grandpa)
