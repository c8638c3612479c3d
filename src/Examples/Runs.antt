-- ===== src/Examples/Runs.antt =====
-- Runs of one worker (consensus.rs).
use substrate_hot_stuff.Prelude.{◌<◌, ◌≤◌, ◌≡◌, some, ◌≢◌, refl, ◌⊎◌, List, [], ◌∷◌, false, arith}
use substrate_hot_stuff.Primitives.{u64_mod, exhausted}
use substrate_hot_stuff.Message.Qc.{Qc}
use substrate_hot_stuff.Message.ConsensusMessage
use substrate_hot_stuff.Worker.Defs.{empty_payload_hash, Worker, Gossip, advance, handle_qc}
use substrate_hot_stuff.Worker.Defs
use substrate_hot_stuff.Worker.Proposals.{follow_tc, Node}
use substrate_hot_stuff.Worker.Handlers.{Event, timer, received, run}
use substrate_hot_stuff.Worker.Steps.{Steps}
use substrate_hot_stuff.Worker.Refines.Events.{run-Steps}
use substrate_hot_stuff.Worker.Safety.Votes.{Climbs, votes_in, run-Climbs}
use substrate_hot_stuff.Message.Payload.{Payload}
use substrate_hot_stuff.Worker.Payloads.{get_proposal_payload}
use substrate_hot_stuff.Worker.Payloads.Choice.{Chosen, get_proposal_payload-Chosen}
use substrate_hot_stuff.Worker.Termination.Running.{run-fuel}
use substrate_hot_stuff.Message.Tc.{Tc}
use substrate_hot_stuff.Worker.Safety.Views.{follow_tc-state, run-views, handle_qc_cases}
use substrate_hot_stuff.Examples.Codec.{toy}
use substrate_hot_stuff.Examples.Messages.{vote_by, qc_by, timeout_by}
use substrate_hot_stuff.Examples.Local.{third, sixth}

-- The worker of authority 3 in view 6, and what reaches it.
abbrev started : Node toy
started = record (Defs.new third [] [] false) { validator = record { view = 6 } }

abbrev arrivals : List Event
arrivals =
    received (ConsensusMessage.propose sixth)
    ∷ received (ConsensusMessage.propose sixth)
    ∷ received (ConsensusMessage.timeout (timeout_by 6 1))
    ∷ timer
    ∷ received (ConsensusMessage.vote (vote_by 5 7 1))
    ∷ []

run-Climbs_example :
    Climbs 5
      (votes_in (run toy 9 arrivals started).1.outbox)
      (run toy 9 arrivals started).1.state.last_voted_view
run-Climbs_example = run-Climbs toy 9 arrivals started refl

run-Steps_example : Steps toy started (run toy 9 arrivals started).1
run-Steps_example = run-Steps toy 9 arrivals started

run-views_example :
    (5 ≤ (run toy 9 arrivals started).1.state.last_voted_view)
    × (0 ≤ (run toy 9 arrivals started).1.state.high_qc.view)
    × ((run toy 9 arrivals started).1.state.view < u64_mod)
    × ((run toy 9 arrivals started).1.state.last_voted_view < u64_mod)
    × ((run toy 9 arrivals started).1.validator.view ≡ (run toy 9 arrivals started).1.state.view)
run-views_example = run-views toy 9 arrivals started (omega arith) (omega arith) refl

run-fuel_example : (run toy u64_mod arrivals started).0 ≢ exhausted
run-fuel_example = run-fuel toy u64_mod arrivals started (omega arith) (omega arith) (omega arith)

-- Block 4 is in process and finalized; the queue holds two later blocks.
abbrev waiting : Node toy
waiting = record started {
  processing_block = some (record { hash = some 104; number = 4 });
  pending_finalize_queue =
      record { hash = some 104; number = 4 } ∷ record { hash = some 105; number = 5 } ∷ [];
}

abbrev next_payload : Payload
next_payload = record { block_hash = 105; block_number = 5 }

chooses_next : (get_proposal_payload toy.crypto 4 waiting).0 ≡ some next_payload
unfolding get_proposal_payload
chooses_next = refl

get_proposal_payload-Chosen_example :
    Chosen
      (empty_payload_hash toy.crypto)
      4
      waiting.pending_finalize_queue
      waiting.processing_block
      (get_proposal_payload toy.crypto 4 waiting).1.processing_block
      next_payload
get_proposal_payload-Chosen_example =
    get_proposal_payload-Chosen toy.crypto 4 waiting next_payload chooses_next

-- A certificate of view 8 reaches the worker in view 6.
abbrev late : Qc
late = qc_by 5 8 (1 ∷ 2 ∷ 4 ∷ [])

handle_qc_cases_example :
    ((8 < 6) × (handle_qc late started ≡ started))
    ⊎ (((late.view ≡ 6)
          × ((handle_qc late started).state.view ≡ 9)
          × ((handle_qc late started).state.high_qc ≡ late))
        ⊎ ((6 < 8)
            × ((handle_qc late started).state.view ≡ 6)
            × ((handle_qc late started).state.high_qc ≡ late)))
handle_qc_cases_example = handle_qc_cases late started

abbrev later_tc : Tc
later_tc = record { view = 9; votes = [] }

follow_tc-state_example : (follow_tc toy (some later_tc) started).1.state ≡ started.state
follow_tc-state_example = follow_tc-state toy (some later_tc) started
