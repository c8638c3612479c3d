-- ===== src/Worker/Safety/Votes.antt =====
-- consensus.rs: the votes that a worker sends, and the views that it keeps.
use mathlib.Core.List.{append-nil}
use substrate_hot_stuff.Prelude.{
  ℕ, ◌≤◌, ◌<◌, ◌≡◌, refl, List, [], ◌∷◌, ◌++◌, Bool, true, false, arith,
}
use substrate_hot_stuff.Primitives.{ViewNumber}
use substrate_hot_stuff.Crypto.{Crypto}
use substrate_hot_stuff.Message.Qc.{Qc}
use substrate_hot_stuff.Message.Vote.{Vote}
use substrate_hot_stuff.Message.Proposal.{Proposal}
use substrate_hot_stuff.Message.ConsensusMessage.{ConsensusMessage}
use substrate_hot_stuff.Consensus.Voting.{make_vote-IsVoteOn}
use substrate_hot_stuff.Environment.{Environment}
use substrate_hot_stuff.Consensus.State.{
  ConsensusState, make_vote, add_vote, add_timeout, increase_last_voted_view, update_high_qc,
  advance_view_from_target,
}
use substrate_hot_stuff.Worker.Defs.{Worker, Gossip, advance, handle_qc}
use substrate_hot_stuff.Worker.Proposals.{Node}
use substrate_hot_stuff.Worker.Handlers.{Event, run}
use substrate_hot_stuff.Worker.Steps.{
  Step, keeps_books, polls, follows_qc, counts_vote, completes_qc, counts_timeout, advances,
  times_out, votes, sends_vote, proposes, sends_timeout, sends_tc, saves, finalizes, Steps, done,
  more,
}
use substrate_hot_stuff.Worker.Refines.Events.{run-Steps}

abbrev cons_vote : ConsensusMessage → List Vote → List Vote
cons_vote (ConsensusMessage.vote v) vs = v ∷ vs
cons_vote _ vs = vs

-- The votes among the messages sent, in order.
abbrev pub votes_in : List Gossip → List Vote
votes_in [] = []
votes_in (g ∷ gs) = cons_vote g.message (votes_in gs)

-- The views of the votes rise strictly from above `low`, and end at `high` at most.
abbrev pub Climbs : ViewNumber → List Vote → ViewNumber → Type 0
Climbs low [] high = low ≤ high
Climbs low (v ∷ vs) high = (low < v.view) × Climbs v.view vs high

pub Climbs-weaken :
    (low : ViewNumber) (vs : List Vote) (m n : ViewNumber)
    → m ≤ n
    → Climbs low vs m
    → Climbs low vs n
Climbs-weaken low [] m n h c = omega arith
Climbs-weaken low (v ∷ vs) m n h c = (c.0, Climbs-weaken v.view vs m n h c.1)

pub Climbs-snoc :
    (low : ViewNumber) (vs : List Vote) (v : Vote) (m n : ViewNumber)
    → m < v.view
    → v.view ≤ n
    → Climbs low vs m
    → Climbs low (vs ++ v ∷ []) n
Climbs-snoc low [] v m n h k c = (omega arith, k)
Climbs-snoc low (w ∷ vs) v m n h k c = (c.0, Climbs-snoc w.view vs v m n h k c.1)

-- A message that is sent adds its vote at the end, if it is one.
cons_vote-append :
    (m : ConsensusMessage) (vs ws : List Vote) → cons_vote m (vs ++ ws) ≡ cons_vote m vs ++ ws
cons_vote-append (ConsensusMessage.vote v) vs ws = refl
cons_vote-append _ vs ws = refl

votes_in-snoc :
    (gs : List Gossip) (g : Gossip) → votes_in (gs ++ g ∷ []) ≡ votes_in gs ++ votes_in (g ∷ [])
votes_in-snoc [] g = refl
votes_in-snoc (h ∷ gs) g =
    rw (votes_in-snoc gs g) (cons_vote-append h.message (votes_in gs) (votes_in (g ∷ [])))

last_voted_view-make_vote :
    (c : Crypto) (s : ConsensusState) (p : Proposal)
    → s.last_voted_view ≤ (make_vote c s p).1.last_voted_view
unfolding make_vote
last_voted_view-make_vote c s p = ground arith

last_voted_view-handle_qc :
    {Chain : Type 0} (qc : Qc) (w : Worker Chain)
    → (handle_qc qc w).state.last_voted_view ≡ w.state.last_voted_view
unfolding handle_qc advance update_high_qc advance_view_from_target
last_voted_view-handle_qc qc w = ground arith

pub outbox-handle_qc :
    {Chain : Type 0} (qc : Qc) (w : Worker Chain) → (handle_qc qc w).outbox ≡ w.outbox
unfolding handle_qc advance
outbox-handle_qc qc w = ground arith

last_voted_view-advance :
    {Chain : Type 0} (view : ViewNumber) (w : Worker Chain)
    → (advance view w).state.last_voted_view ≡ w.state.last_voted_view
unfolding advance advance_view_from_target
last_voted_view-advance view w = ground arith

module _ (env : Environment) (low : ViewNumber) where
  -- The votes sent so far climb from above `low` to the last voted view at most.
  abbrev pub Ordered : Node env → Type 0
  Ordered w = Climbs low (votes_in w.outbox) w.state.last_voted_view

  -- A change that sends no vote and does not lower the last voted view.
  keeps :
      (w u : Node env)
      → votes_in u.outbox ≡ votes_in w.outbox
      → w.state.last_voted_view ≤ u.state.last_voted_view
      → Ordered w
      → Ordered u
  keeps w u same le o = rw same (Climbs-weaken low (votes_in w.outbox) _ _ le o)

  unvoted :
      (w : Node env) (m : ConsensusMessage) (force : Bool)
      → cons_vote m [] ≡ []
      → Ordered w
      → Climbs low
          (votes_in (w.outbox ++ record { message = m; force = force } ∷ []))
          w.state.last_voted_view
  unvoted w m force other o =
      rw (votes_in-snoc w.outbox (record { message = m; force = force }), other, append-nil) o

  Step-Ordered : {w u : Node env} → Step env w u → Ordered w → Ordered u
  Step-Ordered {w} {u} (keeps_books b q r n e) o = rw e o
  Step-Ordered (polls imported finalized e) o = rw e o
  Step-Ordered {w} {u} (follows_qc qc cert e) o = rw e (
      keeps w (handle_qc qc w) (rw (outbox-handle_qc qc w))
        (omega (arith, last_voted_view-handle_qc qc w)) o)
  Step-Ordered {w} (counts_vote vote good e) o = rw e (unfold add_vote in o)
  Step-Ordered {w} (completes_qc vote qc good r e) o =
      let v : Node env = record w { state = (add_vote env.crypto w.state vote).1 } in
      rw e (
        keeps v (handle_qc qc v) (rw (outbox-handle_qc qc v))
          (omega (arith, last_voted_view-handle_qc qc v)) (unfold add_vote in o))
  Step-Ordered (counts_timeout t good e) o = rw e (unfold add_timeout in o)
  Step-Ordered {w} (advances view le e) o = rw e (
      keeps w (advance view w) (unfold advance in refl)
        (omega (arith, last_voted_view-advance view w)) o)
  Step-Ordered {w} (times_out e) o = rw e (
      keeps w (record w { state = increase_last_voted_view w.state }) refl
        (unfold increase_last_voted_view in omega arith) o)
  Step-Ordered {w} (votes p b q good cur e) o = rw e (
      keeps w (record w { state = (make_vote env.crypto w.state p).1 }) refl
        (last_voted_view-make_vote env.crypto w.state p) o)
  Step-Ordered {w} (sends_vote p v b q good cur r e) o =
      let i = make_vote-IsVoteOn env.crypto w.state p v r in
      rw e (
        rw (votes_in-snoc w.outbox (record { message = ConsensusMessage.vote v; force = false })) (
          Climbs-snoc low (votes_in w.outbox) v w.state.last_voted_view _
            (omega (arith, i.fresh, i.for_view)) (omega (arith, i.taken, i.for_view)) o))
  Step-Ordered {w} (proposes p payload tc leads r e) o =
      rw e (unvoted w (ConsensusMessage.propose p) false refl o)
  Step-Ordered {w} (sends_timeout t r e) o =
      rw e (unvoted w (ConsensusMessage.timeout t) true refl o)
  Step-Ordered {w} (sends_tc tc e) o = rw e (unvoted w (ConsensusMessage.tc tc) true refl o)
  Step-Ordered (saves p good e) o = rw e o
  Step-Ordered (finalizes p parent grandpa good found view some_block fresh e) o = rw e o

  pub Steps-Ordered : {w u : Node env} → Steps env w u → Ordered w → Ordered u
  Steps-Ordered done o = o
  Steps-Ordered (more r s) o = Step-Ordered s (Steps-Ordered r o)

-- Over any events a worker sends votes for strictly rising views: from a fresh outbox, no two
-- votes that a run gossips are for one view, all are above the last voted view at the start, and
-- none is above that at the end.
pub run-Climbs :
    (env : Environment) (fuel : ℕ) (events : List Event) (w : Node env)
    → w.outbox ≡ []
    → Climbs w.state.last_voted_view
        (votes_in (run env fuel events w).1.outbox)
        (run env fuel events w).1.state.last_voted_view
run-Climbs env fuel events w empty =
    Steps-Ordered env w.state.last_voted_view (run-Steps env fuel events w) (rw empty (omega arith))
