-- ===== src/Worker/Refines/Events.antt =====
-- consensus.rs: every handler, and `run`, is a sequence of the steps of `Step`, whatever it is given.
use substrate_hot_stuff.Prelude.{
  ℕ, zero, suc, ◌≤◌, ◌≡◌, refl, List, [], ◌∷◌, true, Option, none, some, ltb, leb, if◌then◌else◌,
  arith, ap, ◌∙◌,
}
use substrate_hot_stuff.Primitives.{ok}
use substrate_hot_stuff.Exec.{◌>>=◌, ◌>>◌}
use substrate_hot_stuff.Environment.{Environment}
use substrate_hot_stuff.Message.Tc.{Tc}
use substrate_hot_stuff.Message.Vote.{Vote}
use substrate_hot_stuff.Message.Timeout.{Timeout}
use substrate_hot_stuff.Message.Timeout
use substrate_hot_stuff.Message.Authenticity.{verify_timeout_iff}
use substrate_hot_stuff.Consensus.State.{
  is_leader, verify_timeout, verify_tc, add_timeout, increase_last_voted_view, make_timeout,
}
use substrate_hot_stuff.Worker.Defs.{advance, reset_timer, advance_view, handle_qc}
use substrate_hot_stuff.Worker.Proposals.{Node, Run, check_payload, handle_proposal_with}
use substrate_hot_stuff.Worker.Handlers.{
  handle_proposal, handle_vote, generate_proposal, on_tc, handle_timeout, handle_local_timer,
  handle_tc, Event, timer, received, handle_event, run,
}
use substrate_hot_stuff.Worker.Constant.{Steps-fixed}
use substrate_hot_stuff.Message.ConsensusMessage.{ConsensusMessage}
use substrate_hot_stuff.Worker.Steps.{
  Step, follows_qc, counts_timeout, advances, times_out, sends_timeout, sends_tc, Steps, done, more,
  Steps-trans, one, Steps-continue, Steps-if, Steps-ticked, Steps-logged,
}
use substrate_hot_stuff.Worker.Refines.Proposing.{
  Refines, set_block, generate_proposal-Steps, handle_vote_with-Steps,
}
use substrate_hot_stuff.Worker.Refines.Accepting.{check_payload-Steps, accept_proposal-Steps}

module _ (env : Environment) where
  handle_proposal_with-Steps :
      (handle : Vote → Run env) → Refines env handle → Refines env (handle_proposal_with env handle)
  unfolding handle_proposal_with
  handle_proposal_with-Steps handle h p w =
      Steps-continue env (check_payload env p w).0 _ _ (check_payload-Steps env p w)
        λ known e. Steps-if env known _ _ _ (λ _. accept_proposal-Steps env handle h p _) λ _. done

  -- `handle_proposal` is a sequence of steps, whatever the fuel.
  pub handle_proposal-Steps : (fuel : ℕ) → Refines env (handle_proposal env fuel)
  unfolding handle_proposal
  handle_proposal-Steps zero p w = done
  handle_proposal-Steps (suc fuel) p w =
      handle_proposal_with-Steps _ (handle_vote_with-Steps env _ (handle_proposal-Steps fuel)) p w

  pub handle_vote-Steps : (fuel : ℕ) → Refines env (handle_vote env fuel)
  unfolding handle_vote
  handle_vote-Steps fuel = handle_vote_with-Steps env _ (handle_proposal-Steps fuel)

  pub generate_proposal-Refines :
      (fuel : ℕ) (tc : Option Tc) (w : Node env)
      → is_leader w.state ≡ ok true
      → Steps env w (generate_proposal env fuel tc w).1
  unfolding generate_proposal
  generate_proposal-Refines fuel tc w leads =
      generate_proposal-Steps env _ (handle_proposal-Steps fuel) tc w leads

  -- The leader's part of `handle_timeout` and `handle_tc`.
  lead-Steps :
      (fuel : ℕ) (tc : Option Tc) (w : Node env)
      → is_leader w.state ≡ ok true
      → Steps env w (generate_proposal env fuel tc (record w { processing_block = none })).1
  lead-Steps fuel tc w e =
      Steps-trans env (set_block env w none) (generate_proposal-Refines fuel tc _ e)

  -- `if tc.view >= self.state.view() { advance_view; reset }`
  catch_up-Steps :
      (tc : Tc) (w : Node env)
      → Steps env w
          ((if leb w.state.view tc.view then (advance_view tc.view >> reset_timer) else λ v.
              (ok tt, v))
            w).1
  unfolding advance_view reset_timer ◌>>=◌
  catch_up-Steps tc w =
      Steps-if env (leb w.state.view tc.view) _ _ w
        (λ e. Steps-ticked env _ (one env (advances tc.view (ground arith) refl))) λ _. done

  on_tc-Steps : (fuel : ℕ) → Refines env (on_tc env fuel)
  unfolding on_tc
  on_tc-Steps fuel none w = done
  on_tc-Steps fuel (some tc) w =
      Steps-continue env
        ((if leb w.state.view tc.view
            then (advance_view tc.view >> reset_timer)
            else λ (v : Node env). (ok tt, v))
          w).0
        _ _ (catch_up-Steps tc w)
        λ t e. Steps-trans env (one env (sends_tc tc refl)) (
          Steps-continue env (is_leader _) _ _ done λ leads e2.
            Steps-if env leads _ _ _ (λ here. lead-Steps fuel (some tc) _ (e2 ∙ ap ok here))
              λ _. done)

  handle_timeout-Steps : (fuel : ℕ) → Refines env (handle_timeout env fuel)
  unfolding handle_timeout
  handle_timeout-Steps fuel timeout w =
      Steps-if env (ltb timeout.view w.state.view) _ _ w (λ _. done)
        λ _. Steps-continue env (verify_timeout env.crypto w.state timeout) _ w done λ t good.
          let carried =
            ((verify_timeout_iff env.crypto w.state.authorities timeout).0
              (unfold verify_timeout in good)).1 in
          let s1 : Step env w (handle_qc timeout.high_qc w) =
            follows_qc timeout.high_qc carried refl in
          let known : Timeout.verify env.crypto timeout
                (handle_qc timeout.high_qc w).state.authorities
              ≡ ok tt =
            rw (ap (λ f. f.1) (Steps-fixed env (one env s1))) (unfold verify_timeout in good) in
          Steps-continue env (add_timeout (handle_qc timeout.high_qc w).state timeout).0 _ _
            (more (one env s1) (counts_timeout timeout known refl)) λ tc e. on_tc-Steps fuel tc _

  handle_local_timer-Steps :
      (fuel : ℕ) (w : Node env) → Steps env w (handle_local_timer env fuel w).1
  unfolding handle_local_timer
  handle_local_timer-Steps fuel w =
      let v : Node env = record w {
        timer_resets = suc w.timer_resets;
        state = increase_last_voted_view w.state;
      } in
      let r : Steps env w v = more (Steps-ticked env w done) (times_out refl) in
      Steps-continue env (make_timeout env.crypto v.state) _ v r
        λ t e. Steps-trans env (one env (sends_timeout t e refl)) (handle_timeout-Steps fuel t _)

  handle_tc-Steps : (fuel : ℕ) → Refines env (handle_tc env fuel)
  unfolding handle_tc
  handle_tc-Steps fuel tc w =
      Steps-continue env (verify_tc env.crypto w.state tc) _ w done λ t good.
        let high : w.state.view ≤ tc.view = unfold verify_tc in ground arith in
        let r = Steps-ticked env (advance tc.view w) (one env (advances tc.view high refl)) in
        Steps-continue env (is_leader _) _ _ (Steps-trans env r (set_block env _ none)) λ leads e.
          Steps-if env leads _ _ _ (λ here. generate_proposal-Refines fuel none _ (e ∙ ap ok here))
            λ _. done

  -- Each turn of the worker's loop is a sequence of steps of the relation.
  pub handle_event-Steps : (fuel : ℕ) → Refines env (handle_event env fuel)
  unfolding handle_event
  handle_event-Steps fuel timer w =
      Steps-logged env (handle_local_timer env fuel) w (handle_local_timer-Steps fuel w)
  handle_event-Steps fuel (received (ConsensusMessage.propose p)) w =
      Steps-logged env (handle_proposal env fuel p) w (handle_proposal-Steps fuel p w)
  handle_event-Steps fuel (received (ConsensusMessage.vote v)) w =
      Steps-logged env (handle_vote env fuel v) w (handle_vote-Steps fuel v w)
  handle_event-Steps fuel (received (ConsensusMessage.timeout t)) w =
      Steps-logged env (handle_timeout env fuel t) w (handle_timeout-Steps fuel t w)
  handle_event-Steps fuel (received (ConsensusMessage.tc t)) w =
      Steps-logged env (handle_tc env fuel t) w (handle_tc-Steps fuel t w)
  handle_event-Steps fuel (received (ConsensusMessage.sync_request hash id)) w = done
  handle_event-Steps fuel (received ConsensusMessage.phantom) w = done

  -- Every run of the worker, over any events, is a sequence of steps of the relation `Step`: it
  -- follows a QC only if that is the default one, valid, or completed by a verified vote; votes only
  -- for a verified proposal of its view; proposes only while it leads its view; and finalizes only
  -- the block of the grandparent of a verified proposal, in the view just before the parent's.
  pub run-Steps :
      (fuel : ℕ) (events : List Event) (w : Node env) → Steps env w (run env fuel events w).1
  unfolding run
  run-Steps fuel [] w = done
  run-Steps fuel (e ∷ events) w =
      Steps-continue env (handle_event env fuel e w).0 _ _ (handle_event-Steps fuel e w)
        λ t p. run-Steps fuel events _
