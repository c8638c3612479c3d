-- ===== src/Worker/Safety/Outbox.antt =====
-- consensus.rs: what a worker has gossiped stays gossiped.
use substrate_hot_stuff.Prelude.{◌≡◌, refl}
use substrate_hot_stuff.Environment.{Environment}
use substrate_hot_stuff.Consensus.State.{add_vote}
use substrate_hot_stuff.Worker.Defs.{Gossip, advance}
use substrate_hot_stuff.Worker.Proposals.{Node}
use substrate_hot_stuff.Worker.Steps.{
  Step, keeps_books, polls, follows_qc, counts_vote, completes_qc, counts_timeout, advances,
  times_out, votes, sends_vote, proposes, sends_timeout, sends_tc, saves, finalizes, Steps, done,
  more,
}
use substrate_hot_stuff.Worker.Safety.Votes.{outbox-handle_qc}
use substrate_hot_stuff.Worker.Safety.Traces.{In, In-left}

module _ (env : Environment) (g : Gossip) where
  outbox-advance : (view : _) (w : Node env) → (advance view w).outbox ≡ w.outbox
  unfolding advance
  outbox-advance view w = refl

  Step-In : {w u : Node env} → Step env w u → In g w.outbox → In g u.outbox
  Step-In (keeps_books b q r n e) h = rw e h
  Step-In (polls imported finalized e) h = rw e h
  Step-In {w} (follows_qc qc cert e) h = rw (e, outbox-handle_qc qc w) h
  Step-In (counts_vote vote good e) h = rw e h
  Step-In {w} (completes_qc vote qc good r e) h =
      rw (e, outbox-handle_qc qc (record w { state = (add_vote env.crypto w.state vote).1 })) h
  Step-In (counts_timeout t good e) h = rw e h
  Step-In {w} (advances view le e) h = rw (e, outbox-advance view w) h
  Step-In (times_out e) h = rw e h
  Step-In (votes p b q good cur e) h = rw e h
  Step-In {w} (sends_vote p v b q good cur r e) h = rw e (In-left g w.outbox _ h)
  Step-In {w} (proposes p payload tc leads r e) h = rw e (In-left g w.outbox _ h)
  Step-In {w} (sends_timeout t r e) h = rw e (In-left g w.outbox _ h)
  Step-In {w} (sends_tc tc e) h = rw e (In-left g w.outbox _ h)
  Step-In (saves p good e) h = rw e h
  Step-In (finalizes p parent grandpa good found view some_block fresh e) h = rw e h

  pub Steps-In : {w u : Node env} → Steps env w u → In g w.outbox → In g u.outbox
  Steps-In done h = h
  Steps-In (more r s) h = Step-In s (Steps-In r h)
