-- ===== src/Worker/Termination/Running.antt =====
-- consensus.rs, the handlers and `run`: they end, with fuel for each view that is left.
use substrate_hot_stuff.Prelude.{
  ℕ, zero, suc, ◌+◌, ◌<◌, ◌≤◌, ◌≢◌, refl, List, [], ◌∷◌, Option, none, some, if◌then◌else◌, leb,
  ltb, Bool-cases, inl, inr,
}
use substrate_hot_stuff.Primitives.{u64_mod, ok, exhausted}
use substrate_hot_stuff.Exec.{◌>>=◌, ◌>>◌}
use substrate_hot_stuff.Environment.{Environment}
use substrate_hot_stuff.Message.Tc.{Tc}
use substrate_hot_stuff.Message.ConsensusMessage.{ConsensusMessage}
use substrate_hot_stuff.Consensus.State.{
  make_timeout, verify_timeout, verify_tc, add_timeout, is_leader, increase_last_voted_view,
}
use substrate_hot_stuff.Worker.Defs.{handle_qc, advance, advance_view, reset_timer}
use substrate_hot_stuff.Worker.Proposals.{Node, Run, handle_vote_with}
use substrate_hot_stuff.Worker.Handlers.{
  Event, timer, received, handle_proposal, handle_vote, generate_proposal, on_tc, handle_timeout,
  handle_local_timer, handle_tc, handle_event, run,
}
use substrate_hot_stuff.Worker.Refines.Events.{handle_event-Steps}
use substrate_hot_stuff.Worker.Safety.Views.{
  Moves, Moves-refl, Moves-trans, Moves-handle_qc, Moves-advance, Moves-aggregated, Moves-timed_out,
  Steps-Moves,
}
use substrate_hot_stuff.Worker.Termination.Total.{
  Returns, not_exhausted, verify_timeout-Returns, verify_tc-Returns,
}
use substrate_hot_stuff.Worker.Termination.Calls.{
  make_timeout-Returns, is_leader-Returns, add_timeout-Returns,
}
use substrate_hot_stuff.Worker.Termination.Fuel.{
  continue-Returns, choice-Returns, logged-Returns, Live, Live-Moves, Live-zero,
}
use substrate_hot_stuff.Worker.Termination.Accepting.{Terminates, handle_proposal_with-Returns}
use substrate_hot_stuff.Worker.Termination.Rounds.{
  Live-same, generate-Returns, handle_vote_with-Returns,
}

module _ (env : Environment) where
  -- `handle_proposal` returns: a nested call comes after a vote, which has raised the last voted
  -- view.
  handle_proposal-Returns : (n : ℕ) → Terminates env n (handle_proposal env n)
  unfolding handle_proposal
  handle_proposal-Returns zero p w live = absurd (Live-zero w live)
  handle_proposal-Returns (suc n) p w live =
      handle_proposal_with-Returns env n (handle_vote_with env (handle_proposal env n))
        (handle_vote_with-Returns env n (handle_proposal env n) (handle_proposal-Returns n)) p w
        live

  handle_vote-Returns : (n : ℕ) → Terminates env n (handle_vote env n)
  unfolding handle_vote
  handle_vote-Returns n =
      handle_vote_with-Returns env n (handle_proposal env n) (handle_proposal-Returns n)

  -- The leader's part of `handle_timeout` and `handle_tc`.
  lead-Returns :
      (n : ℕ) (tc : Option Tc) (w : Node env) → Live n w → Returns (generate_proposal env n tc w).0
  unfolding generate_proposal
  lead-Returns n tc w live =
      generate-Returns env n (handle_proposal env n) (handle_proposal-Returns n) tc w live

  -- `if tc.view >= self.state.view() { advance_view; reset }`
  abbrev catch_up : Tc → Run env
  catch_up tc w =
      (if leb w.state.view tc.view then (advance_view tc.view >> reset_timer) else λ v. (ok tt, v))
        w

  catch_up-Returns :
      (tc : Tc) (w : Node env) → Returns (catch_up tc w).0 × Moves w (catch_up tc w).1
  unfolding advance_view reset_timer ◌>>=◌
  catch_up-Returns tc w = elim (Bool-cases (leb w.state.view tc.view)) [
    | inl e ↦ rw e (tt, Moves-trans (Moves-advance tc.view w) (Moves-refl _ _ refl refl))
    | inr e ↦ rw e (tt, Moves-refl w w refl refl)
  ]

  on_tc-Returns : (n : ℕ) → Terminates env n (on_tc env n)
  unfolding on_tc
  on_tc-Returns n none w live = tt
  on_tc-Returns n (some tc) w live =
      let (back, moved) = catch_up-Returns tc w in
      continue-Returns (catch_up tc w).0 _ _ back λ t e.
        continue-Returns (is_leader (catch_up tc w).1.state) _ _
          (is_leader-Returns (catch_up tc w).1.state)
          λ leads f.
            choice-Returns leads _ _ _
              (λ _. lead-Returns n (some tc) _ (Live-same (Live-Moves live moved) refl)) λ _. tt

  handle_timeout-Returns : (n : ℕ) → Terminates env n (handle_timeout env n)
  unfolding handle_timeout add_timeout
  handle_timeout-Returns n t w live =
      choice-Returns (ltb t.view w.state.view) _ _ w (λ _. tt)
        λ _.
          continue-Returns (verify_timeout env.crypto w.state t) _ w
            (verify_timeout-Returns env.crypto w.state t)
            λ x e.
              let u = handle_qc t.high_qc w in
              continue-Returns (add_timeout u.state t).0 _ _ (add_timeout-Returns u.state t) λ tc f.
                on_tc-Returns n tc _ (
                  Live-Moves live
                    (Moves-trans (Moves-handle_qc t.high_qc w) (Moves-aggregated u _)))

  handle_local_timer-Returns :
      (n : ℕ) (w : Node env) → Live n w → Returns (handle_local_timer env n w).0
  unfolding handle_local_timer
  handle_local_timer-Returns n w live =
      let v : Node env = record w {
        timer_resets = suc w.timer_resets;
        state = increase_last_voted_view w.state;
      } in
      continue-Returns (make_timeout env.crypto v.state) _ v
        (make_timeout-Returns env.crypto v.state)
        λ t e. handle_timeout-Returns n t _ (Live-same (Live-Moves live (Moves-timed_out w)) refl)

  handle_tc-Returns : (n : ℕ) → Terminates env n (handle_tc env n)
  unfolding handle_tc
  handle_tc-Returns n tc w live =
      continue-Returns (verify_tc env.crypto w.state tc) _ w
        (verify_tc-Returns env.crypto w.state tc)
        λ t e.
          let alive : Live n (advance tc.view w) = Live-Moves live (Moves-advance tc.view w) in
          continue-Returns (is_leader (advance tc.view w).state) _ _
            (is_leader-Returns (advance tc.view w).state)
            λ leads f.
              choice-Returns leads _ _ _ (λ _. lead-Returns n none _ (Live-same alive refl)) λ _. tt

  handle_event-Returns : (n : ℕ) → Terminates env n (handle_event env n)
  unfolding handle_event
  handle_event-Returns n timer w live =
      logged-Returns (handle_local_timer env n) w (handle_local_timer-Returns n w live)
  handle_event-Returns n (received (ConsensusMessage.propose p)) w live =
      logged-Returns (handle_proposal env n p) w (handle_proposal-Returns n p w live)
  handle_event-Returns n (received (ConsensusMessage.vote v)) w live =
      logged-Returns (handle_vote env n v) w (handle_vote-Returns n v w live)
  handle_event-Returns n (received (ConsensusMessage.timeout t)) w live =
      logged-Returns (handle_timeout env n t) w (handle_timeout-Returns n t w live)
  handle_event-Returns n (received (ConsensusMessage.tc tc)) w live =
      logged-Returns (handle_tc env n tc) w (handle_tc-Returns n tc w live)
  handle_event-Returns n (received (ConsensusMessage.sync_request hash id)) w live = tt
  handle_event-Returns n (received ConsensusMessage.phantom) w live = tt

  run-Returns :
      (n : ℕ) (events : List Event) (w : Node env) → Live n w → Returns (run env n events w).0
  unfolding run
  run-Returns n [] w live = tt
  run-Returns n (event ∷ events) w live =
      continue-Returns (handle_event env n event w).0 _ _ (handle_event-Returns n event w live)
        λ t e.
          run-Returns n events _
            (Live-Moves live (Steps-Moves env (handle_event-Steps env n event w)))

  -- Fuel for each view above the last voted one is enough: over any events, a run of a worker whose
  -- views are u64 does not end for want of fuel, if the fuel and the last voted view together reach
  -- 2^64. So every handler call ends, though `handle_proposal` and `handle_vote` call each other.
  pub run-fuel :
      (fuel : ℕ) (events : List Event) (w : Node env)
      → w.state.view < u64_mod
      → w.state.last_voted_view < u64_mod
      → u64_mod ≤ w.state.last_voted_view + fuel
      → (run env fuel events w).0 ≢ exhausted
  run-fuel fuel events w small voted_small left =
      not_exhausted (run env fuel events w).0 (
        run-Returns fuel events w
          (record { small = small; voted_small = voted_small; left = left }))
