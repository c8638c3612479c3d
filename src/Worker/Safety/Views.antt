-- ===== src/Worker/Safety/Views.antt =====
-- consensus.rs: how the views of a worker move: `view`, `last_voted_view`, the high QC's view, and
-- the validator's.
use substrate_hot_stuff.Prelude.{
  ℕ, ◌+◌, ◌%◌, ◌≤◌, ◌<◌, ◌≡◌, refl, ltb, if◌then◌else◌, arith, inl, inr, ◌⊎◌, List, Option, none,
  some, Bool-cases,
}
use substrate_hot_stuff.Primitives.{ViewNumber, u64_mod}
use substrate_hot_stuff.Crypto.{Crypto}
use substrate_hot_stuff.Message.Qc.{Qc}
use substrate_hot_stuff.Message.Proposal.{Proposal}
use substrate_hot_stuff.Aggregator.{Aggregator}
use substrate_hot_stuff.Environment.{Environment}
use substrate_hot_stuff.Consensus.State.{
  make_vote, add_vote, add_timeout, increase_last_voted_view, update_high_qc,
  advance_view_from_target,
}
use substrate_hot_stuff.Exec.{◌>>=◌}
use substrate_hot_stuff.Message.Tc.{Tc}
use substrate_hot_stuff.Worker.Defs.{Worker, advance, advance_view, reset_timer, handle_qc}
use substrate_hot_stuff.Worker.Proposals.{Node, follow_tc}
use substrate_hot_stuff.Worker.Handlers.{Event, run}
use substrate_hot_stuff.Worker.Steps.{
  Step, keeps_books, polls, follows_qc, counts_vote, completes_qc, counts_timeout, advances,
  times_out, votes, sends_vote, proposes, sends_timeout, sends_tc, saves, finalizes, Steps, done,
  more,
}
use substrate_hot_stuff.Worker.Refines.Events.{run-Steps}

-- How a worker's views may change: the last voted view and the high QC's never fall, views stay
-- u64, and the validator keeps following the view.
pub record Moves {Chain : Type 0} (w u : Worker Chain) : Type 0 where
  pub voted : w.state.last_voted_view ≤ u.state.last_voted_view
  pub certified : w.state.high_qc.view ≤ u.state.high_qc.view
  pub small : w.state.view < u64_mod → u.state.view < u64_mod
  pub voted_small :
      w.state.view < u64_mod → w.state.last_voted_view < u64_mod → u.state.last_voted_view < u64_mod
  pub followed : w.validator.view ≡ w.state.view → u.validator.view ≡ u.state.view

module _ {Chain : Type 0} where
  pub Moves-refl : (w u : Worker Chain) → u.state ≡ w.state → u.validator ≡ w.validator → Moves w u
  Moves-refl w u e f = record {
    voted = rw e (omega arith);
    certified = rw e (omega arith);
    small = rw e (λ h. h);
    voted_small = rw e (λ h k. k);
    followed = rw (e, f) (λ h. h);
  }

  -- The aggregator has no part in it.
  pub Moves-aggregated :
      (w : Worker Chain) (a : Aggregator)
      → Moves w (record w { state = record w.state { aggregator = a } })
  Moves-aggregated w a = record {
    voted = omega arith;
    certified = omega arith;
    small = λ h. h;
    voted_small = λ h k. k;
    followed = λ h. h;
  }

  pub Moves-timed_out :
      (w : Worker Chain) → Moves w (record w { state = increase_last_voted_view w.state })
  unfolding increase_last_voted_view
  Moves-timed_out w = record {
    voted = omega arith;
    certified = omega arith;
    small = λ h. h;
    voted_small = λ h k. omega arith;
    followed = λ h. h;
  }

  pub Moves-trans : {w u v : Worker Chain} → Moves w u → Moves u v → Moves w v
  Moves-trans m n = record {
    voted = omega (arith, m.voted, n.voted);
    certified = omega (arith, m.certified, n.certified);
    small = λ h. n.small (m.small h);
    voted_small = λ h k. n.voted_small (m.small h) (m.voted_small h k);
    followed = λ h. n.followed (m.followed h);
  }

  pub Moves-advance : (view : ViewNumber) (w : Worker Chain) → Moves w (advance view w)
  unfolding advance advance_view_from_target
  Moves-advance view w = record {
    voted = ground arith;
    certified = ground arith;
    small = λ h. ground arith;
    voted_small = λ h k. ground arith;
    followed = λ h. refl;
  }

  pub Moves-handle_qc : (qc : Qc) (w : Worker Chain) → Moves w (handle_qc qc w)
  unfolding handle_qc update_high_qc advance_view_from_target advance
  Moves-handle_qc qc w = record {
    voted = ground arith;
    certified = ground arith;
    small = λ h. ground arith;
    voted_small = λ h k. ground arith;
    followed = λ h. ground arith;
  }

  pub Moves-make_vote :
      (c : Crypto) (w u : Worker Chain) (p : Proposal)
      → p.view ≡ w.state.view
      → u.state ≡ (make_vote c w.state p).1
      → u.validator ≡ w.validator
      → Moves w u
  unfolding make_vote
  Moves-make_vote c w u p cur e f = record {
    voted = rw e (ground arith);
    certified = rw e (ground arith);
    small = rw e (λ h. ground arith);
    voted_small = rw e (λ h k. ground arith);
    followed = rw (e, f) (λ h. ground arith);
  }

module _ (env : Environment) where
  pub Step-Moves : {w u : Node env} → Step env w u → Moves w u
  unfolding add_vote add_timeout
  Step-Moves {w} (keeps_books b q r n e) = rw e (Moves-refl w _ refl refl)
  Step-Moves {w} (polls imported finalized e) = rw e (Moves-refl w _ refl refl)
  Step-Moves {w} (follows_qc qc cert e) = rw e (Moves-handle_qc qc w)
  Step-Moves {w} (counts_vote vote good e) = rw e (Moves-aggregated w _)
  Step-Moves {w} (completes_qc vote qc good r e) =
      rw e (Moves-trans (Moves-aggregated w _) (Moves-handle_qc qc _))
  Step-Moves {w} (counts_timeout t good e) = rw e (Moves-aggregated w _)
  Step-Moves {w} (advances view le e) = rw e (Moves-advance view w)
  Step-Moves {w} (times_out e) = rw e (Moves-timed_out w)
  Step-Moves {w} {u} (votes p b q good cur e) =
      rw e (Moves-make_vote env.crypto w _ p cur refl refl)
  Step-Moves {w} (sends_vote p v b q good cur r e) =
      rw e (Moves-make_vote env.crypto w _ p cur refl refl)
  Step-Moves {w} (proposes p payload tc leads r e) = rw e (Moves-refl w _ refl refl)
  Step-Moves {w} (sends_timeout t r e) = rw e (Moves-refl w _ refl refl)
  Step-Moves {w} (sends_tc tc e) = rw e (Moves-refl w _ refl refl)
  Step-Moves {w} (saves p good e) = rw e (Moves-refl w _ refl refl)
  Step-Moves {w} (finalizes p parent grandpa good found view some_block fresh e) =
      rw e (Moves-refl w _ refl refl)

  pub Steps-Moves : {w u : Node env} → Steps env w u → Moves w u
  Steps-Moves {w} done = Moves-refl w w refl refl
  Steps-Moves (more r s) = Moves-trans (Steps-Moves r) (Step-Moves s)

  -- Over any events, from a worker whose view and last voted view are u64 and whose gossip
  -- validator has its view: the last voted view and the view of the high QC do not fall, both
  -- views are u64 at the end, and the validator still has the worker's view.
  pub run-views :
      (fuel : ℕ) (events : List Event) (w : Node env)
      → w.state.view < u64_mod
      → w.state.last_voted_view < u64_mod
      → w.validator.view ≡ w.state.view
      → let u = (run env fuel events w).1 in
        (w.state.last_voted_view ≤ u.state.last_voted_view)
        × (w.state.high_qc.view ≤ u.state.high_qc.view)
        × (u.state.view < u64_mod)
        × (u.state.last_voted_view < u64_mod)
        × (u.validator.view ≡ u.state.view)
  run-views fuel events w small voted_small followed =
      let m = Steps-Moves (run-Steps env fuel events w) in
      (m.voted, m.certified, m.small small, m.voted_small small voted_small, m.followed followed)

three_ways : (a b : ℕ) → (a < b) ⊎ ((a ≡ b) ⊎ (b < a))
three_ways a b = omega arith

-- What `handle_qc` does, by the QC's view: below the worker's view nothing; at it, the worker goes
-- to the next view and takes the QC as its high QC if that is newer; above it, the worker keeps
-- its view, though it takes the QC as its high QC if that is newer.
pub handle_qc_cases :
    {Chain : Type 0} (qc : Qc) (w : Worker Chain)
    → let newest = (if ltb w.state.high_qc.view qc.view then qc else w.state.high_qc) in
      ((qc.view < w.state.view) × (handle_qc qc w ≡ w))
      ⊎ (((qc.view ≡ w.state.view)
            × ((handle_qc qc w).state.view ≡ (qc.view + 1) % u64_mod)
            × ((handle_qc qc w).state.high_qc ≡ newest))
          ⊎ ((w.state.view < qc.view)
              × ((handle_qc qc w).state.view ≡ w.state.view)
              × ((handle_qc qc w).state.high_qc ≡ newest)))
unfolding handle_qc update_high_qc advance_view_from_target advance
handle_qc_cases qc w = elim (three_ways qc.view w.state.view) [
  | inl lt ↦ inl (lt, ground arith)
  | inr (inl same) ↦ inr (inl (same, ground arith, ground arith))
  | inr (inr gt) ↦ inr (inr (gt, ground arith, ground arith))
]

-- A worker behind the network does not catch up: a TC or a QC of a later view leaves its view as
-- it is, though both show that the others went on.
advance_stuck :
    {Chain : Type 0} (view : ViewNumber) (w : Worker Chain)
    → w.state.view < view
    → (advance view w).state ≡ w.state
unfolding advance advance_view_from_target
advance_stuck view w h = ground arith

module _ (env : Environment) where
  -- What `handle_proposal` does with the TC of a proposal never changes the consensus state, and so
  -- never the view: a TC at the worker's view or below it is not followed, and for one above it
  -- `advance_view` changes nothing.
  pub follow_tc-state : (o : Option Tc) (w : Node env) → (follow_tc env o w).1.state ≡ w.state
  unfolding follow_tc advance_view reset_timer ◌>>=◌
  follow_tc-state none w = refl
  follow_tc-state (some tc) w = elim (Bool-cases (ltb w.state.view tc.view)) [
    | inl behind ↦ rw behind (advance_stuck tc.view w (ground (arith, behind)))
    | inr ahead ↦ rw ahead refl
  ]
