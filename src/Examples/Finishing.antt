-- ===== src/Examples/Finishing.antt =====
-- Authority 4 of seven has stored two proposals and gets a third one; its client keeps the blocks that it
-- finalizes.
use substrate_hot_stuff.Prelude.{◌+◌, ◌≡◌, refl, List, [], ◌∷◌, true, false, none, some}
use substrate_hot_stuff.Primitives.{Bytes, Hash, ok, answered}
use substrate_hot_stuff.Environment.{Client, Environment, in_chain}
use substrate_hot_stuff.Message.Qc
use substrate_hot_stuff.Message.Vote.{Vote}
use substrate_hot_stuff.Message.Vote
use substrate_hot_stuff.Message.Proposal
use substrate_hot_stuff.Synchronizer.{
  save_proposal, get_proposal_parent, get_proposal_ancestors, decoded,
}
use substrate_hot_stuff.Consensus.State.{
  make_vote, verify_proposal, view_leader, local_authority_id, advance_view_from_target,
  update_high_qc,
}
use substrate_hot_stuff.Consensus.State
use substrate_hot_stuff.Worker.Defs
use substrate_hot_stuff.Worker.Defs.{advance, handle_qc}
use substrate_hot_stuff.Worker.Proposals.{Node, check_payload, check_status, follow_tc}
use substrate_hot_stuff.Worker.Handlers.{handle_proposal}
use substrate_hot_stuff.Worker.Responding.{Answers, certified}
use substrate_hot_stuff.Worker.Finalizing.{handle_proposal-finalized_chain}
use substrate_hot_stuff.Examples.World.{toy_keystore, lookup}
use substrate_hot_stuff.Examples.Codec.{toy_codec}
use substrate_hot_stuff.Examples.Sevens.{seven, crypto, first, second, third, vote_digest}

-- The entries of the store, and the blocks that were finalized.
abbrev client : Client
client = record {
  State = List (Bytes × Bytes) × List Hash;
  info = λ s. record { finalized_hash = 7; finalized_number = 0; best_number = 3 };
  status = λ s hash. answered in_chain;
  block_hash_from_id = λ s number. answered none;
  finalize_block = λ s hash. (answered tt, (s.0, hash ∷ s.1));
  get_aux = λ s key. answered (lookup s.0 key);
  insert_aux = λ s key value. (answered tt, ((key, value) ∷ s.0, s.1));
}

abbrev env : Environment
env = record { crypto = crypto; codec = toy_codec; client = client }

abbrev stored : client.State
stored = (save_proposal env (save_proposal env ([], []) first).1 second).1

abbrev worker : Node env
worker = Defs.new (record (State.new (toy_keystore 4) seven) { view = 8 }) stored [] false

abbrev vote : Vote
vote = record {
  proposal_hash = Proposal.digest crypto (third 8 2);
  view = 8;
  voter = 4;
  signature = some (vote_digest (Proposal.digest crypto (third 8 2)) 8 + 4);
}

known : check_payload env (third 8 2) worker ≡ (ok true, worker)
unfolding check_payload check_status Defs.empty_payload_hash
known = refl

verified : verify_proposal crypto worker.state (third 8 2) ≡ ok tt
unfolding verify_proposal view_leader Proposal.verify Proposal.digest Qc.verify
verified = refl

saved : (save_proposal env worker.chain (third 8 2)).0 ≡ ok tt
unfolding save_proposal
saved = refl

ancestors :
    get_proposal_ancestors env (save_proposal env worker.chain (third 8 2)).1 (third 8 2)
    ≡ ok (second, first)
unfolding get_proposal_ancestors get_proposal_parent save_proposal Proposal.digest decoded
ancestors = refl

answers : Answers env (certified env (third 8 2) worker).state (third 8 2) vote
unfolding follow_tc handle_qc advance update_high_qc advance_view_from_target make_vote view_leader
    local_authority_id Vote.digest Proposal.digest
answers = record { current = refl; made = refl; leader = 3; leads_next = refl; another = refl }

-- The first block is finalized, its hash is 9.
handle_proposal-finalized_chain_example :
    (handle_proposal env 1 (third 8 2) worker).1.chain
    ≡ ((save_proposal env worker.chain (third 8 2)).1.0, 9 ∷ [])
unfolding Defs.empty_payload_hash save_proposal
handle_proposal-finalized_chain_example =
    handle_proposal-finalized_chain env 0 worker (third 8 2) second first vote known verified saved
      ancestors answers
