-- ===== src/Worker/Steps.antt =====
-- What a replica may do, as a step relation: each step changes the worker once, and states what
-- the code has checked before. The handlers of consensus.rs are sequences of such steps.
use substrate_hot_stuff.Prelude.{
  ℕ, suc, ◌+◌, ◌%◌, ◌≤◌, ◌≡◌, refl, List, [], ◌∷◌, ◌++◌, Bool, true, false, Option, some, ◌==◌,
  if◌then◌else◌,
}
use substrate_hot_stuff.Queue.{ImportNotification}
use substrate_hot_stuff.Queue
use substrate_hot_stuff.Primitives.{
  Hash, ViewNumber, BlockNumber, u64_mod, Result, ok, err, panic, exhausted,
}
use substrate_hot_stuff.Exec.{Exec, continue, logged, ignore_err}
use substrate_hot_stuff.Message.Authenticity.{CarriesQc}
use substrate_hot_stuff.Environment.{Environment}
use substrate_hot_stuff.Message.Qc.{Qc}
use substrate_hot_stuff.Message.Tc.{Tc}
use substrate_hot_stuff.Message.Payload.{Payload}
use substrate_hot_stuff.Message.Vote.{Vote}
use substrate_hot_stuff.Message.Timeout.{Timeout}
use substrate_hot_stuff.Message.Timeout
use substrate_hot_stuff.Message.Proposal.{Proposal}
use substrate_hot_stuff.Message.ConsensusMessage.{ConsensusMessage}
use substrate_hot_stuff.Consensus.State.{
  is_leader, make_timeout, make_proposal, make_vote, verify_proposal, verify_vote, add_vote,
  add_timeout, increase_last_voted_view,
}
use substrate_hot_stuff.Synchronizer.{save_proposal, get_proposal_ancestors}
use substrate_hot_stuff.Worker.Defs.{
  BlockInfo, Gossip, Worker, advance, handle_qc, empty_payload_hash,
}
use substrate_hot_stuff.Worker.Proposals.{Node}

abbrev pub sent : {Chain : Type 0} → Worker Chain → ConsensusMessage → Bool → List Gossip
sent w message force = w.outbox ++ record { message = message; force = force } ∷ []

module _ (env : Environment) where
  pub data Step (w u : Node env) : Type 0 where
    -- bookkeeping: the block in process, the proposed payloads, the requests, the timer
    keeps_books :
        (b : Option BlockInfo) (q : List Hash) (r : List (Hash × BlockNumber)) (n : ℕ)
        → u ≡ record w {
          processing_block = b;
          proposal_hash_queue = q;
          sync_requests = r;
          timer_resets = n;
        }
        → Step w u
    -- the network task polls the queue of blocks, which the worker shares
    polls :
        (imported : List ImportNotification) (finalized : List BlockNumber)
        → u ≡ record w {
          pending_finalize_queue =
              Queue.poll w.queue_poisoned imported finalized w.pending_finalize_queue;
        }
        → Step w u
    -- the QC of a message that was verified
    follows_qc :
        (qc : Qc) → CarriesQc env.crypto w.state.authorities qc → u ≡ handle_qc qc w → Step w u
    -- a verified vote that completes no QC
    counts_vote :
        (vote : Vote)
        → verify_vote env.crypto w.state vote ≡ ok tt
        → u ≡ record w { state = (add_vote env.crypto w.state vote).1 }
        → Step w u
    -- a verified vote that completes one
    completes_qc :
        (vote : Vote) (qc : Qc)
        → verify_vote env.crypto w.state vote ≡ ok tt
        → (add_vote env.crypto w.state vote).0 ≡ ok (some qc)
        → u ≡ handle_qc qc (record w { state = (add_vote env.crypto w.state vote).1 })
        → Step w u
    counts_timeout :
        (timeout : Timeout)
        → Timeout.verify env.crypto timeout w.state.authorities ≡ ok tt
        → u ≡ record w { state = (add_timeout w.state timeout).1 }
        → Step w u
    advances : (view : ViewNumber) → w.state.view ≤ view → u ≡ advance view w → Step w u
    times_out : u ≡ record w { state = increase_last_voted_view w.state } → Step w u
    -- a vote is made for a verified proposal of the current view, and kept, dropped or sent
    votes :
        (p : Proposal) (b : Option BlockInfo) (q : List Hash)
        → verify_proposal env.crypto w.state p ≡ ok tt
        → p.view ≡ w.state.view
        → u ≡ record w {
          state = (make_vote env.crypto w.state p).1;
          processing_block = b;
          proposal_hash_queue = q;
        }
        → Step w u
    sends_vote :
        (p : Proposal) (v : Vote) (b : Option BlockInfo) (q : List Hash)
        → verify_proposal env.crypto w.state p ≡ ok tt
        → p.view ≡ w.state.view
        → (make_vote env.crypto w.state p).0 ≡ some v
        → u ≡ record w {
          state = (make_vote env.crypto w.state p).1;
          processing_block = b;
          proposal_hash_queue = q;
          outbox = sent w (ConsensusMessage.vote v) false;
        }
        → Step w u
    proposes :
        (p : Proposal) (payload : Payload) (tc : Option Tc)
        → is_leader w.state ≡ ok true
        → make_proposal env.crypto w.state payload tc ≡ ok p
        → u ≡ record w { outbox = sent w (ConsensusMessage.propose p) false }
        → Step w u
    sends_timeout :
        (t : Timeout)
        → make_timeout env.crypto w.state ≡ ok t
        → u ≡ record w { outbox = sent w (ConsensusMessage.timeout t) true }
        → Step w u
    sends_tc : (tc : Tc) → u ≡ record w { outbox = sent w (ConsensusMessage.tc tc) true } → Step w u
    saves :
        (p : Proposal)
        → verify_proposal env.crypto w.state p ≡ ok tt
        → u ≡ record w { chain = (save_proposal env w.chain p).1 }
        → Step w u
    -- the block of the grandparent, of which the parent is the successor by view
    finalizes :
        (p parent grandpa : Proposal)
        → verify_proposal env.crypto w.state p ≡ ok tt
        → get_proposal_ancestors env w.chain p ≡ ok (parent, grandpa)
        → parent.view ≡ (grandpa.view + 1) % u64_mod
        → (grandpa.payload.block_hash == empty_payload_hash env.crypto) ≡ false
        → (grandpa.payload.block_hash == (env.client.info w.chain).finalized_hash) ≡ false
        → u ≡ record w { chain = (env.client.finalize_block w.chain grandpa.payload.block_hash).1 }
        → Step w u

  pub data Steps (w : Node env) : Node env → Type 0 where
    done : Steps w w
    more : {u v : Node env} → Steps w u → Step u v → Steps w v

  pub Steps-trans : {w u v : Node env} → Steps w u → Steps u v → Steps w v
  Steps-trans r done = r
  Steps-trans r (more q s) = more (Steps-trans r q) s

  pub one : {w u : Node env} → Step w u → Steps w u
  one s = more done s

  -- A call followed by the rest of a method: the rest runs only on the call's result.
  pub Steps-continue {ℓ κ} :
      {A : Type ℓ} {B : Type κ} {w : Node env} (r : Result A) (f : A → Exec (Node env) B)
      (u : Node env)
      → Steps w u
      → ((a : A) → r ≡ ok a → Steps u (f a u).1)
      → Steps w (continue r f u).1
  Steps-continue (ok a) f u h k = Steps-trans h (k a refl)
  Steps-continue (err e) f u h k = h
  Steps-continue panic f u h k = h
  Steps-continue exhausted f u h k = h

  pub Steps-if {ℓ} :
      {A : Type ℓ} (b : Bool) (m n : Exec (Node env) A) (w : Node env)
      → (b ≡ true → Steps w (m w).1)
      → (b ≡ false → Steps w (n w).1)
      → Steps w ((if b then m else n) w).1
  Steps-if true m n w h k = h refl
  Steps-if false m n w h k = k refl

  pub Steps-ite {ℓ} :
      {A : Type ℓ} (b : Bool) (x y : A × Node env) (w : Node env)
      → (b ≡ true → Steps w x.1)
      → (b ≡ false → Steps w y.1)
      → Steps w (if b then x else y).1
  Steps-ite true x y w h k = h refl
  Steps-ite false x y w h k = k refl

  pub Steps-ticked :
      {w : Node env} (u : Node env)
      → Steps w u
      → Steps w (record u { timer_resets = suc u.timer_resets })
  Steps-ticked u r = more r (
      keeps_books u.processing_block u.proposal_hash_queue u.sync_requests (suc u.timer_resets)
        refl)

  pub Steps-logged {ℓ} :
      {A : Type ℓ} (m : Exec (Node env) A) (w : Node env) → Steps w (m w).1 → Steps w (logged m w).1
  Steps-logged {A} m w h = by_result (m w).0
    where
      by_result : (r : Result A) → Steps w (ignore_err r (m w).1).1
      by_result (ok a) = h
      by_result (err e) = h
      by_result panic = h
      by_result exhausted = h
