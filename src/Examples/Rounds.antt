-- ===== src/Examples/Rounds.antt =====
-- Authorities 2, 3 and 4 answer the proposal of view 7, whose QC brings them there.
use substrate_hot_stuff.Prelude.{◌≡◌, refl, [], ◌∷◌, All, some, false, arith}
use substrate_hot_stuff.Primitives.{AuthorityId, ok}
use substrate_hot_stuff.Message.Qc.{Qc}
use substrate_hot_stuff.Message.Qc
use substrate_hot_stuff.Message.Vote.{Vote}
use substrate_hot_stuff.Message.Proposal
use substrate_hot_stuff.Message.Quorum.{voters}
use substrate_hot_stuff.Aggregator.QcMaking.Progress.{answer}
use substrate_hot_stuff.Consensus.State
use substrate_hot_stuff.Consensus.State.{
  verify_proposal, make_vote, view_leader, local_authority_id, update_high_qc,
  advance_view_from_target,
}
use substrate_hot_stuff.Synchronizer.{save_proposal}
use substrate_hot_stuff.Worker.Defs
use substrate_hot_stuff.Worker.Defs.{advance, handle_qc}
use substrate_hot_stuff.Worker.Proposals.{Node, check_payload, check_status, follow_tc}
use substrate_hot_stuff.Worker.Responding.{Answers, certified}
use substrate_hot_stuff.Round.{Participates, Gossips, round_completes}
use substrate_hot_stuff.Examples.World.{toy_crypto, toy_keystore, four}
use substrate_hot_stuff.Examples.Codec.{toy}
use substrate_hot_stuff.Examples.Local.{toy_keystore-IsSigning}
use substrate_hot_stuff.Examples.Messages.{vote_by, proposal_digest}
use substrate_hot_stuff.Examples.Leading.{seventh}

abbrev replica : AuthorityId → Node toy
replica own = Defs.new (record (State.new (toy_keystore own) four) { view = 6 }) [] [] false

abbrev vote_of : AuthorityId → Vote
vote_of own = vote_by (proposal_digest seventh) 7 own

replica-Participates :
    (own : AuthorityId)
    → Answers toy (certified toy seventh (replica own)).state seventh (vote_of own)
    → Participates toy four seventh (replica own) (vote_of own)
unfolding check_payload check_status Defs.empty_payload_hash verify_proposal Proposal.verify
    view_leader Qc.verify save_proposal
replica-Participates own answers = record {
  same = refl;
  signing = toy_keystore-IsSigning own;
  known = refl;
  good = refl;
  saved = refl;
  answers = answers;
  signature = _;
  signed = refl;
}

second-Answers : Answers toy (certified toy seventh (replica 2)).state seventh (vote_of 2)
unfolding follow_tc handle_qc advance update_high_qc advance_view_from_target make_vote view_leader
    local_authority_id
second-Answers = record {
  current = refl;
  made = refl;
  leader = 1;
  leads_next = refl;
  another = refl;
}

third-Answers : Answers toy (certified toy seventh (replica 3)).state seventh (vote_of 3)
unfolding follow_tc handle_qc advance update_high_qc advance_view_from_target make_vote view_leader
    local_authority_id
third-Answers = record {
  current = refl;
  made = refl;
  leader = 1;
  leads_next = refl;
  another = refl;
}

fourth-Answers : Answers toy (certified toy seventh (replica 4)).state seventh (vote_of 4)
unfolding follow_tc handle_qc advance update_high_qc advance_view_from_target make_vote view_leader
    local_authority_id
fourth-Answers = record {
  current = refl;
  made = refl;
  leader = 1;
  leads_next = refl;
  another = refl;
}

round_completes_example :
    All (Gossips toy four seventh 3) ((replica 2, vote_of 2) ∷ (replica 3, vote_of 3) ∷ [])
    × Gossips toy four seventh 3 (replica 4, vote_of 4)
    × ((qc : Qc) × (answer toy_crypto four
            (proposal_digest seventh)
            7
            (vote_of 2 ∷ vote_of 3 ∷ [])
            (vote_of 4)
          ≡ ok (some qc))
        × (Qc.verify toy_crypto qc four ≡ ok tt)
        × (qc.proposal_hash ≡ Proposal.digest toy_crypto seventh)
        × (qc.view ≡ seventh.view)
        × (voters qc.votes ≡ 2 ∷ 3 ∷ 4 ∷ []))
unfolding Proposal.digest
round_completes_example =
    round_completes toy four seventh 3 ((replica 2, vote_of 2) ∷ (replica 3, vote_of 3) ∷ [])
      (replica 4) (vote_of 4)
      (replica-Participates 2 second-Answers, (replica-Participates 3 third-Answers, tt))
      (replica-Participates 4 fourth-Answers) (refl, (refl, (refl, tt))) (omega arith)
