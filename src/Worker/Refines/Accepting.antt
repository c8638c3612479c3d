-- ===== src/Worker/Refines/Accepting.antt =====
-- consensus.rs, `handle_proposal` is a sequence of steps if the vote handler is.
use substrate_hot_stuff.Prelude.{
  ℕ, ◌+◌, ◌%◌, ◌≡◌, refl, [], ◌∷◌, ◌++◌, false, not, ◌&&◌, Option, none, some, ltb, ◌==◌,
  if◌then◌else◌, Bool-cases, inl, inr, arith, ap, ◌∙◌,
}
use substrate_hot_stuff.Primitives.{
  u64_mod, Result, ok, err, panic, exhausted, External, answered, failed,
}
use substrate_hot_stuff.Exec.{continue, logged}
use substrate_hot_stuff.Environment.{Environment, BlockStatus, in_chain, unknown}
use substrate_hot_stuff.Message.Tc.{Tc}
use substrate_hot_stuff.Message.Vote.{Vote}
use substrate_hot_stuff.Message.Proposal.{Proposal}
use substrate_hot_stuff.Message.Authenticity.{CarriesQc, verify_proposal_iff}
use substrate_hot_stuff.Consensus.State.{
  ConsensusState, is_local, view_leader, local_authority_id, make_vote, verify_proposal,
}
use substrate_hot_stuff.Synchronizer.{save_proposal, get_proposal_ancestors}
use substrate_hot_stuff.Worker.Defs.{gossip_message, handle_qc, empty_payload_hash}
use substrate_hot_stuff.Worker.Proposals.{
  Node, Run, check_payload, check_status, follow_tc, finalize_grandpa, try_finalize, cast,
  cast_vote, accept_proposal,
}
use substrate_hot_stuff.Worker.Constant.{Steps-fixed}
use substrate_hot_stuff.Message.ConsensusMessage.{ConsensusMessage}
use substrate_hot_stuff.Worker.Steps.{
  Step, keeps_books, follows_qc, advances, votes, sends_vote, saves, finalizes, Steps, done, more,
  Steps-trans, one, Steps-continue, Steps-if, Steps-ite, Steps-ticked, Steps-logged,
}
use substrate_hot_stuff.Worker.Refines.Proposing.{Refines}

module _ (env : Environment) where
  pub check_status-Steps :
      (p : Proposal) (r : External BlockStatus) (w : Node env)
      → Steps env w (check_status env p r w).1
  unfolding check_status
  check_status-Steps p (answered in_chain) w = done
  check_status-Steps p (answered unknown) w =
      one env (keeps_books w.processing_block w.proposal_hash_queue _ w.timer_resets refl)
  check_status-Steps p (failed e) w = done

  pub check_payload-Steps : (p : Proposal) (w : Node env) → Steps env w (check_payload env p w).1
  unfolding check_payload
  check_payload-Steps p w =
      Steps-ite env (not (p.payload.block_hash == empty_payload_hash env.crypto)) _ _ w
        (λ _. check_status-Steps p (env.client.status w.chain p.payload.block_hash) w) λ _. done

  pub follow_tc-Steps : (o : Option Tc) (w : Node env) → Steps env w (follow_tc env o w).1
  unfolding follow_tc
  follow_tc-Steps none w = done
  follow_tc-Steps (some tc) w =
      Steps-if env (ltb w.state.view tc.view) _ _ w
        (λ e. Steps-ticked env _ (one env (advances tc.view (ground arith) refl))) λ _. done

  -- The verified proposal stays verified while the authorities stay.
  pub verify_proposal-eq :
      (s t : ConsensusState) (p : Proposal)
      → t.authorities ≡ s.authorities
      → verify_proposal env.crypto t p ≡ verify_proposal env.crypto s p
  unfolding verify_proposal view_leader
  verify_proposal-eq s t p e = rw e

  pub finalize_grandpa-Steps :
      (p parent grandpa : Proposal) (w : Node env)
      → verify_proposal env.crypto w.state p ≡ ok tt
      → get_proposal_ancestors env w.chain p ≡ ok (parent, grandpa)
      → Steps env w (finalize_grandpa env (parent, grandpa) w).1
  unfolding finalize_grandpa
  finalize_grandpa-Steps p parent grandpa w good found =
      Steps-ite env
        (parent.view == (grandpa.view + 1) % u64_mod
          && (not (grandpa.payload.block_hash == empty_payload_hash env.crypto)
              && not (grandpa.payload.block_hash == (env.client.info w.chain).finalized_hash)))
        _ _ w
        (λ e.
          one env (
            finalizes p parent grandpa good found (ground arith) (ground arith) (ground arith)
              refl))
        λ _. done

  pub try_finalize-Steps :
      (p : Proposal) (w : Node env)
      → verify_proposal env.crypto w.state p ≡ ok tt
      → Steps env w (try_finalize env p w).1
  unfolding try_finalize
  try_finalize-Steps p w good =
      Steps-continue env (get_proposal_ancestors env w.chain p) _ w done
        λ a e. finalize_grandpa-Steps p a.0 a.1 w good e

  pub cast-Steps :
      (handle : Vote → Run env)
      → Refines env handle
      → (p : Proposal) (o : Option Vote) (w : Node env)
      → verify_proposal env.crypto w.state p ≡ ok tt
      → p.view ≡ w.state.view
      → (make_vote env.crypto w.state p).0 ≡ o
      → Steps env w
          (cast env handle p o (record w { state = (make_vote env.crypto w.state p).1 })).1
  unfolding cast
  cast-Steps handle h p none w good current e =
      one env (votes p w.processing_block w.proposal_hash_queue good current refl)
  cast-Steps handle h p (some v) w good current e =
      Steps-cast (view_leader voted.state ((voted.state.view + 1) % u64_mod)) _ λ l. by_leader l
    where
      voted : Node env
      voted = record w {
        state = (make_vote env.crypto w.state p).1;
        proposal_hash_queue = w.proposal_hash_queue ++ p.payload.block_hash ∷ [];
        processing_block =
            some (record { hash = some p.payload.block_hash; number = p.payload.block_number });
      }

      made : Steps env w voted
      made = one env (votes p _ _ good current refl)

      by_leader :
          (l : ℕ)
          → Steps env w
              ((if is_local (local_authority_id voted.state) l
                  then handle v
                  else gossip_message (ConsensusMessage.vote v) false)
                voted).1
      by_leader l = elim (Bool-cases (is_local (local_authority_id voted.state) l)) [
        | inl here ↦ rw here (Steps-trans env made (h v voted))
        | inr away ↦ rw away (one env (sends_vote p v _ _ good current e refl))
      ]

      Steps-cast :
          (r : Result ℕ) (f : ℕ → Run env)
          → ((l : ℕ) → Steps env w (f l voted).1)
          → Steps env w (continue r f voted).1
      Steps-cast (ok l) f k = k l
      Steps-cast (err x) f k = made
      Steps-cast panic f k = made
      Steps-cast exhausted f k = made

  pub cast_vote-Steps :
      (handle : Vote → Run env)
      → Refines env handle
      → (p : Proposal) (w : Node env) → verify_proposal env.crypto w.state p ≡ ok tt
      → Steps env w (cast_vote env handle p w).1
  unfolding cast_vote
  cast_vote-Steps handle h p w good =
      Steps-if env (not (p.view == w.state.view)) _ _ w (λ _. done)
        λ e. cast-Steps handle h p (make_vote env.crypto w.state p).0 w good (ground arith) refl

  -- A verified proposal's QC is the default one or valid.
  pub verified_qc :
      (s : ConsensusState) (p : Proposal)
      → verify_proposal env.crypto s p ≡ ok tt
      → CarriesQc env.crypto s.authorities p.qc
  unfolding verify_proposal
  verified_qc s p good = ((verify_proposal_iff env.crypto s.authorities p).0 (ground arith)).1

  pub still :
      (p : Proposal) {w u : Node env}
      → verify_proposal env.crypto w.state p ≡ ok tt
      → Steps env w u
      → verify_proposal env.crypto u.state p ≡ ok tt
  still p {w} {u} good r =
      verify_proposal-eq w.state u.state p (ap (λ t. t.1) (Steps-fixed env r)) ∙ good

  pub accept_proposal-Steps :
      (handle : Vote → Run env) → Refines env handle → Refines env (accept_proposal env handle)
  unfolding accept_proposal
  accept_proposal-Steps handle h p w =
      Steps-continue env (verify_proposal env.crypto w.state p) _ w done λ t good.
        let w1 = handle_qc p.qc w in
        let r1 : Steps env w w1 = one env (follows_qc p.qc (verified_qc w.state p good) refl) in
        let r2 = Steps-trans env r1 (follow_tc-Steps p.tc w1) in
        Steps-continue env (follow_tc env p.tc w1).0 _ _ r2 λ t2 e2.
          let w2 = (follow_tc env p.tc w1).1 in
          let w3 : Node env = record w2 { chain = (save_proposal env w2.chain p).1 } in
          let s3 : Step env w2 w3 = saves p (still p good r2) refl in
          Steps-continue env (save_proposal env w2.chain p).0 _ w3 (one env s3) λ t3 e3.
            let r3 = more r2 s3 in
            let r4 : Steps env w3 (logged (try_finalize env p) w3).1 =
              Steps-logged env (try_finalize env p) w3
                (try_finalize-Steps p w3 (still p good r3)) in
            Steps-continue env (logged (try_finalize env p) w3).0
              (λ (t : Unit {0}). cast_vote env handle p) _ r4
              λ t4 e4. cast_vote-Steps handle h p _ (still p good (Steps-trans env r3 r4))
