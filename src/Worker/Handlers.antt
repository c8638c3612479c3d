-- ===== src/Worker/Handlers.antt =====
-- consensus.rs: the handlers of `ConsensusWorker`, over the bodies of Proposals. The recursion of
-- `handle_proposal` and `handle_vote` is on fuel: `exhausted` is the result when it runs out.
use substrate_hot_stuff.Prelude.{
  ℕ, zero, suc, List, [], ◌∷◌, true, Option, none, some, ltb, leb, if◌then◌else◌,
}
use substrate_hot_stuff.Primitives.{exhausted}
use substrate_hot_stuff.Exec.{pure, lift, logged, get, modify, ◌>>=◌, ◌>>◌}
use substrate_hot_stuff.Environment.{Environment}
use substrate_hot_stuff.Message.Tc.{Tc}
use substrate_hot_stuff.Message.Vote.{Vote}
use substrate_hot_stuff.Message.Timeout.{Timeout}
use substrate_hot_stuff.Message.Proposal.{Proposal}
use substrate_hot_stuff.Message.ConsensusMessage.{ConsensusMessage}
use substrate_hot_stuff.Consensus.State.{
  is_leader, make_timeout, verify_timeout, verify_tc, add_timeout, increase_last_voted_view,
}
use substrate_hot_stuff.Worker.Defs.{gossip_message, reset_timer, advance_view, handle_qc}
use substrate_hot_stuff.Worker.Proposals.{
  Run, on_state, handle_proposal_with, handle_vote_with, generate_proposal_with,
}

-- What `run` selects on: the timer, or a message of the channel.
pub data Event : Type 0 where
  timer : Event
  received : ConsensusMessage → Event

module _ (env : Environment) where
  -- The recursion: one unit of fuel for each proposal.
  unfoldable pub handle_proposal : ℕ → Proposal → Run env
  handle_proposal zero proposal w = (exhausted, w)
  handle_proposal (suc fuel) proposal w =
      handle_proposal_with env (handle_vote_with env (handle_proposal fuel)) proposal w

  unfoldable pub handle_vote : ℕ → Vote → Run env
  handle_vote fuel vote = handle_vote_with env (handle_proposal fuel) vote

  unfoldable pub generate_proposal : ℕ → Option Tc → Run env
  generate_proposal fuel tc = generate_proposal_with env (handle_proposal fuel) tc

  -- `handle_timeout`, from the TC that the timeout completes on.
  unfoldable pub on_tc : ℕ → Option Tc → Run env
  unfolding advance_view reset_timer gossip_message ◌>>=◌
  on_tc fuel none = pure tt
  on_tc fuel (some tc) = do
    w ← get
    if leb w.state.view tc.view then (do advance_view tc.view; reset_timer) else pure tt
    gossip_message (ConsensusMessage.tc tc) true
    v ← get
    leads ← lift (is_leader v.state)
    if leads
        then (do
          modify (λ u. record u { processing_block = none })
          generate_proposal fuel (some tc))
        else pure tt

  unfoldable pub handle_timeout : ℕ → Timeout → Run env
  unfolding ◌>>=◌
  handle_timeout fuel timeout = do
    w ← get
    if ltb timeout.view w.state.view then pure tt else do
      lift (verify_timeout env.crypto w.state timeout)
      modify (handle_qc timeout.high_qc)
      tc ← on_state env (λ s. add_timeout s timeout)
      on_tc fuel tc

  unfoldable pub handle_local_timer : ℕ → Run env
  unfolding reset_timer gossip_message ◌>>=◌
  handle_local_timer fuel = do
    reset_timer
    modify λ w. record w { state = increase_last_voted_view w.state }
    w ← get
    timeout ← lift (make_timeout env.crypto w.state)
    gossip_message (ConsensusMessage.timeout timeout) true
    handle_timeout fuel timeout

  unfoldable pub handle_tc : ℕ → Tc → Run env
  unfolding advance_view reset_timer ◌>>=◌
  handle_tc fuel tc = do
    w ← get
    lift (verify_tc env.crypto w.state tc)
    advance_view tc.view
    reset_timer
    modify λ u. record u { processing_block = none }
    v ← get
    leads ← lift (is_leader v.state)
    if leads then generate_proposal fuel none else pure tt

  -- One turn of the loop of `run`: an error is only logged.
  unfoldable pub handle_event : ℕ → Event → Run env
  handle_event fuel timer = logged (handle_local_timer fuel)
  handle_event fuel (received (ConsensusMessage.propose p)) = logged (handle_proposal fuel p)
  handle_event fuel (received (ConsensusMessage.vote v)) = logged (handle_vote fuel v)
  handle_event fuel (received (ConsensusMessage.timeout t)) = logged (handle_timeout fuel t)
  handle_event fuel (received (ConsensusMessage.tc t)) = logged (handle_tc fuel t)
  handle_event fuel (received (ConsensusMessage.sync_request hash id)) = pure tt
  handle_event fuel (received ConsensusMessage.phantom) = pure tt

  -- `run`, over the events that the task gets to; a panic ends it.
  unfoldable pub run : ℕ → List Event → Run env
  unfolding ◌>>=◌
  run fuel [] = pure tt
  run fuel (e ∷ events) = handle_event fuel e >>= λ _. run fuel events
