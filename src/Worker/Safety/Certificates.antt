-- ===== src/Worker/Safety/Certificates.antt =====
-- consensus.rs: the QC that a worker holds, and what its proposals and timeouts carry.
use substrate_hot_stuff.Prelude.{
  ℕ, ◌≡◌, refl, sym, ap, ◌∙◌, List, Bool, true, false, Option, none, inl, ◌⊎◌, All, All-append,
}
use substrate_hot_stuff.Primitives.{Hash, AuthorityList, ok}
use substrate_hot_stuff.Crypto.{Keystore}
use substrate_hot_stuff.Message.Vote.{Vote}
use substrate_hot_stuff.Message.Vote
use substrate_hot_stuff.Message.Timeout.{Timeout}
use substrate_hot_stuff.Message.Proposal.{Proposal}
use substrate_hot_stuff.Message.Authenticity.{CarriesQc}
use substrate_hot_stuff.Message.ConsensusMessage.{ConsensusMessage}
use substrate_hot_stuff.Aggregator.QcMaking.{AllSound-new}
use substrate_hot_stuff.Environment.{Environment}
use substrate_hot_stuff.Consensus.State.{
  ConsensusState, verify_proposal, verify_vote, make_vote, make_proposal, make_timeout, add_vote,
  add_timeout, increase_last_voted_view, update_high_qc, advance_view_from_target, view_leader,
  is_leader, is_local, local_authority_id,
}
use substrate_hot_stuff.Consensus.State
use substrate_hot_stuff.Worker.Defs
use substrate_hot_stuff.Worker.Defs.{BlockInfo, Worker, Gossip, advance, handle_qc}
use substrate_hot_stuff.Worker.Proposals.{Node}
use substrate_hot_stuff.Worker.Handlers.{Event, run}
use substrate_hot_stuff.Worker.Steps.{
  Step, keeps_books, polls, follows_qc, counts_vote, completes_qc, counts_timeout, advances,
  times_out, votes, sends_vote, proposes, sends_timeout, sends_tc, saves, finalizes, Steps, done,
  more, sent,
}
use substrate_hot_stuff.Worker.Constant.{Step-fixed}
use substrate_hot_stuff.Worker.Refines.Events.{run-Steps}
use substrate_hot_stuff.Message.Timeout
use substrate_hot_stuff.Worker.Safety.Votes.{outbox-handle_qc}
use substrate_hot_stuff.Worker.Refines.Accepting.{verify_proposal-eq}
use substrate_hot_stuff.Worker.Safety.Signing.{
  IsSigning, make_vote-verify, make_timeout-verify, make_proposal-verify,
}
use substrate_hot_stuff.Worker.Safety.Certified.{
  IsCertified, handle_qc-IsCertified, make_vote-IsCertified, advance_view-IsCertified,
  add_vote-IsCertified, add_timeout-IsCertified, completed, vote_of_state,
}

-- Peers that know the authorities of `base`, and the messages that they accept.
module _ (env : Environment) (base : ConsensusState) where
  -- A message passes the checks of every such peer, or it has no signature. Nothing is said of TCs.
  abbrev pub IsAccepted : ConsensusMessage → Type 0
  IsAccepted (ConsensusMessage.propose p) =
      (p.signature ≡ none) ⊎ (verify_proposal env.crypto base p ≡ ok tt)
  IsAccepted (ConsensusMessage.vote v) =
      (v.signature ≡ none) ⊎ (Vote.verify env.crypto v base.authorities ≡ ok tt)
  IsAccepted (ConsensusMessage.timeout t) =
      (t.signature ≡ none) ⊎ (Timeout.verify env.crypto t base.authorities ≡ ok tt)
  IsAccepted _ = Unit

  pub record Inv (w : Node env) : Type 0 where
    pub same_keys : w.state.keystore ≡ base.keystore
    pub certified : IsCertified env.crypto base.authorities w.state
    pub accepted : All (λ (g : Gossip). IsAccepted g.message) w.outbox

module _ (env : Environment) (base : ConsensusState)
    (signing : IsSigning env.crypto base.keystore) where
  module _ (w : Node env) (i : Inv env base w) where
    here : IsSigning env.crypto w.state.keystore
    here = rw i.same_keys signing

    -- A step that sends nothing.
    kept :
        {u : Node env}
        → Step env w u
        → u.outbox ≡ w.outbox
        → IsCertified env.crypto base.authorities u.state
        → Inv env base u
    kept s out cert = record {
      same_keys = ap (λ f. f.0) (Step-fixed env s) ∙ i.same_keys;
      certified = cert;
      accepted = rw out i.accepted;
    }

    -- A step that sends a message.
    said :
        (m : ConsensusMessage) (force : Bool)
        → IsAccepted env base m
        → Inv env base (record w { outbox = sent w m force })
    said m force a = record {
      same_keys = i.same_keys;
      certified = i.certified;
      accepted = All-append _ w.outbox _ i.accepted (a, tt);
    }

  genuine :
      (w : Node env)
      → Inv env base w
      → (vote : Vote) → verify_vote env.crypto w.state vote ≡ ok tt
      → Vote.verify env.crypto vote base.authorities ≡ ok tt
  genuine w i vote good =
      vote_of_state env.crypto base.authorities w.state vote i.certified.same good

  carries :
      (w : Node env) → Inv env base w → CarriesQc env.crypto w.state.authorities w.state.high_qc
  carries w i = rw i.certified.same i.certified.carried

  Step-Inv_votes :
      (w : Node env)
      → Inv env base w
      → (p : Proposal) (b : Option BlockInfo) (q : List Hash)
      → verify_proposal env.crypto w.state p ≡ ok tt
      → p.view ≡ w.state.view
      → Inv env base (record w {
        state = (make_vote env.crypto w.state p).1;
        processing_block = b;
        proposal_hash_queue = q;
      })
  Step-Inv_votes w i p b q good cur =
      kept w i (votes p b q good cur refl) refl
        (make_vote-IsCertified env.crypto base.authorities w.state p i.certified)

  Step-Inv : {w u : Node env} → Step env w u → Inv env base w → Inv env base u
  Step-Inv {w} (keeps_books b q r n e) i =
      rw e (kept w i (keeps_books b q r n refl) refl i.certified)
  Step-Inv {w} (polls imported finalized e) i =
      rw e (kept w i (polls imported finalized refl) refl i.certified)
  Step-Inv {w} (follows_qc qc cert e) i = rw e (
      kept w i (follows_qc qc cert refl) (outbox-handle_qc qc w) (
        handle_qc-IsCertified env.crypto base.authorities qc w (rw i.certified.same at cert)
          i.certified))
  Step-Inv {w} (counts_vote vote good e) i = rw e (
      kept w i (counts_vote vote good refl) refl (
        add_vote-IsCertified env.crypto base.authorities w.state vote (genuine w i vote good)
          i.certified))
  Step-Inv {w} (completes_qc vote qc good r e) i =
      let v : Node env = record w { state = (add_vote env.crypto w.state vote).1 } in
      rw e (
        kept w i (completes_qc vote qc good r refl) (outbox-handle_qc qc v) (
          handle_qc-IsCertified env.crypto base.authorities qc v
            (completed env.crypto base.authorities w.state vote qc i.certified
              (genuine w i vote good) r)
            (add_vote-IsCertified env.crypto base.authorities w.state vote (genuine w i vote good)
              i.certified)))
  Step-Inv {w} (counts_timeout t good e) i = rw e (
      kept w i (counts_timeout t good refl) refl
        (add_timeout-IsCertified env.crypto base.authorities w.state t i.certified))
  Step-Inv {w} (advances view le e) i = rw e (
      kept w i (advances view le refl) (unfold advance in refl) (
        unfold advance in
        advance_view-IsCertified env.crypto base.authorities w.state view i.certified))
  Step-Inv {w} (times_out e) i = rw e (
      kept w i (times_out refl) refl (
        unfold increase_last_voted_view in
        record {
          same = i.certified.same;
          sound = i.certified.sound;
          carried = i.certified.carried;
        }))
  Step-Inv {w} (votes p b q good cur e) i = rw e (Step-Inv_votes w i p b q good cur)
  Step-Inv {w} (sends_vote p v b q good cur r e) i =
      let u : Node env = record w {
        state = (make_vote env.crypto w.state p).1;
        processing_block = b;
        proposal_hash_queue = q;
      } in
      rw e (
        said u (Step-Inv_votes w i p b q good cur) (ConsensusMessage.vote v) false
          (rw i.certified.same at (make_vote-verify env.crypto w.state (here w i) p v r)))
  Step-Inv {w} (proposes p payload tc leads r e) i = rw e (
      said w i (ConsensusMessage.propose p) false (
        rw (verify_proposal-eq env w.state base p (sym i.certified.same))
          (make_proposal-verify env.crypto w.state (here w i) payload tc p (carries w i) leads r)))
  Step-Inv {w} (sends_timeout t r e) i = rw e (
      said w i (ConsensusMessage.timeout t) true (
        rw i.certified.same at
          (make_timeout-verify env.crypto w.state (here w i) t (carries w i) r)))
  Step-Inv {w} (sends_tc tc e) i = rw e (said w i (ConsensusMessage.tc tc) true tt)
  Step-Inv {w} (saves p good e) i = rw e (kept w i (saves p good refl) refl i.certified)
  Step-Inv {w} (finalizes p parent grandpa good found view some_block fresh e) i =
      rw e (
        kept w i (finalizes p parent grandpa good found view some_block fresh refl) refl
          i.certified)

  pub Steps-Inv : {w u : Node env} → Steps env w u → Inv env base w → Inv env base u
  Steps-Inv done i = i
  Steps-Inv (more r s) i = Step-Inv s (Steps-Inv r i)

-- A worker that was just made, by `ConsensusState::new` and `ConsensusWorker::new`.
abbrev pub fresh_worker :
    (env : Environment) → Keystore → AuthorityList → env.client.State → List BlockInfo → Node env
fresh_worker env keystore authorities chain queue =
    Defs.new (State.new keystore authorities) chain queue false

module _ (env : Environment) (keystore : Keystore) (authorities : AuthorityList)
    (signing : IsSigning env.crypto keystore) (chain : env.client.State)
    (queue : List BlockInfo) where
  pub start-Inv :
      Inv env (State.new keystore authorities) (fresh_worker env keystore authorities chain queue)
  start-Inv = record {
    same_keys = refl;
    certified = record {
      same = refl;
      sound = AllSound-new env.crypto authorities;
      carried = inl refl;
    };
    accepted = tt;
  }

  -- Over any events and with a keystore whose signatures are valid, the high QC of a worker that was
  -- just made is the default one or is valid
  -- for its authorities, and each vote, timeout and proposal that it has gossiped passes the check
  -- of every peer with these authorities, or has no signature.
  run-IsAccepted :
      (fuel : ℕ) (events : List Event)
      → let w = (run env fuel events (fresh_worker env keystore authorities chain queue)).1 in
        CarriesQc env.crypto authorities w.state.high_qc
        × All (λ (g : Gossip). IsAccepted env (State.new keystore authorities) g.message) w.outbox
  run-IsAccepted fuel events =
      let i =
        Steps-Inv env (State.new keystore authorities) signing
          (run-Steps env fuel events (fresh_worker env keystore authorities chain queue))
          start-Inv in
      (i.certified.carried, i.accepted)
