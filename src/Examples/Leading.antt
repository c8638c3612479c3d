-- ===== src/Examples/Leading.antt =====
-- Authority 4 collects the votes of view 6, and leads view 7.
use substrate_hot_stuff.Prelude.{◌+◌, ◌%◌, ◌≡◌, refl, [], ◌∷◌, true, false, none, some, arith}
use substrate_hot_stuff.Primitives.{ok, u64_mod}
use substrate_hot_stuff.Message.Vote
use substrate_hot_stuff.Message.Vote.{Vote}
use substrate_hot_stuff.Message.Qc
use substrate_hot_stuff.Synchronizer.{save_proposal}
use substrate_hot_stuff.Worker.Responding.{Answers, certified, voted, handle_proposal-voted}
use substrate_hot_stuff.Message.Payload.{Payload}
use substrate_hot_stuff.Message.Proposal.{Proposal}
use substrate_hot_stuff.Message.Proposal
use substrate_hot_stuff.Consensus.State
use substrate_hot_stuff.Consensus.State.{
  ConsensusState, verify_vote, add_vote, is_leader, verify_proposal, make_vote, view_leader,
  local_authority_id, make_proposal, update_high_qc, advance_view_from_target,
}
use substrate_hot_stuff.Worker.Defs
use substrate_hot_stuff.Worker.Defs.{advance, handle_qc}
use substrate_hot_stuff.Worker.Payloads.{get_proposal_payload, is_suppressed}
use substrate_hot_stuff.Worker.Proposals.{
  Node, next_payload, check_payload, check_status, follow_tc,
}
use substrate_hot_stuff.Worker.Handlers.{handle_vote, handle_proposal}
use substrate_hot_stuff.Worker.Safety.Traces.{In}
use substrate_hot_stuff.Worker.Progress.{proposed, Offers, handle_vote-In}
use substrate_hot_stuff.Examples.World.{number_of, toy_crypto, toy_keystore, four}
use substrate_hot_stuff.Examples.Codec.{toy}
use substrate_hot_stuff.Examples.Messages.{vote_by, proposal_digest}
use substrate_hot_stuff.Examples.Aggregating.{after_two, three_votes, third_vote}

abbrev collecting : ConsensusState
collecting = record (State.new (toy_keystore 4) four) { view = 6; aggregator = after_two }

-- No block is in process, and block 4 waits.
abbrev collector : Node toy
collector = record (Defs.new collecting [] (record { hash = some 104; number = 4 } ∷ []) false) {
  processing_block = none;
}

abbrev next : Payload
next = record { block_hash = 104; block_number = 4 }

abbrev pub seventh : Proposal
seventh = record {
  qc = three_votes;
  tc = none;
  payload = next;
  view = 7;
  author = 4;
  signature = some (number_of 0 (4 ∷ 104 ∷ 4 ∷ 7 ∷ 5 ∷ []) + 4);
}

abbrev leading : Node toy
leading =
    handle_qc three_votes
      (record collector { state = (add_vote toy_crypto collecting (vote_by 5 6 3)).1 })

verified : verify_vote toy_crypto collecting (vote_by 5 6 3) ≡ ok tt
unfolding verify_vote Vote.verify
verified = refl

completes : (add_vote toy_crypto collecting (vote_by 5 6 3)).0 ≡ ok (some three_votes)
unfolding add_vote
completes = third_vote

leads : is_leader leading.state ≡ ok true
unfolding is_leader handle_qc add_vote advance update_high_qc advance_view_from_target
leads = refl

offers : Offers toy leading next seventh
unfolding handle_qc add_vote advance update_high_qc advance_view_from_target next_payload
    get_proposal_payload is_suppressed make_proposal
offers = record { offered = refl; fresh = refl; made = refl }

handle_vote-In_example :
    In (proposed seventh) (handle_vote toy 9 (vote_by 5 6 3) collector).1.outbox
    × (7 ≡ 7 % u64_mod)
    × (three_votes ≡ three_votes)
    × (next ≡ next)
handle_vote-In_example =
    handle_vote-In toy 9 collector (vote_by 5 6 3) three_votes next seventh verified refl completes
      (omega arith) leads offers

-- Authority 2 gets the proposal of view 7, whose QC brings it there.
abbrev replica : Node toy
replica = Defs.new (record (State.new (toy_keystore 2) four) { view = 6 }) [] [] false

abbrev answer : Vote
answer = vote_by (proposal_digest seventh) 7 2

known : check_payload toy seventh replica ≡ (ok true, replica)
unfolding check_payload check_status Defs.empty_payload_hash
known = refl

proposal_verified : verify_proposal toy_crypto replica.state seventh ≡ ok tt
unfolding verify_proposal Proposal.verify view_leader Qc.verify
proposal_verified = refl

saved : (save_proposal toy (certified toy seventh replica).chain seventh).0 ≡ ok tt
unfolding save_proposal
saved = refl

answers : Answers toy (certified toy seventh replica).state seventh answer
unfolding follow_tc handle_qc advance update_high_qc advance_view_from_target make_vote view_leader
    local_authority_id
answers = record { current = refl; made = refl; leader = 1; leads_next = refl; another = refl }

handle_proposal-voted_example :
    ((handle_proposal toy 1 seventh replica).1.outbox ≡ voted toy answer ∷ [])
    × (answer.proposal_hash ≡ Proposal.digest toy_crypto seventh)
    × (answer.view ≡ seventh.view)
handle_proposal-voted_example =
    handle_proposal-voted toy 0 replica seventh answer known proposal_verified saved answers
