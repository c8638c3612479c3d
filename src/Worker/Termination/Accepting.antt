-- ===== src/Worker/Termination/Accepting.antt =====
-- consensus.rs: `handle_proposal` returns, if what it calls does.
use substrate_hot_stuff.Prelude.{
  ℕ, suc, ◌+◌, ◌%◌, ◌≡◌, refl, [], ◌∷◌, ◌++◌, not, ◌&&◌, Option, none, some, ltb, ◌==◌, arith,
  Bool-cases, inl, inr,
}
use substrate_hot_stuff.Primitives.{
  u64_mod, External, answered, failed, finalize_block as finalize_failed,
}
use substrate_hot_stuff.Exec.{logged}
use substrate_hot_stuff.Environment.{Environment, BlockStatus, in_chain, unknown}
use substrate_hot_stuff.Message.Tc.{Tc}
use substrate_hot_stuff.Message.Vote.{Vote}
use substrate_hot_stuff.Message.Proposal.{Proposal}
use substrate_hot_stuff.Consensus.State.{
  make_vote, verify_proposal, view_leader, is_local, local_authority_id,
}
use substrate_hot_stuff.Consensus.Voting.{make_vote-IsVoteOn}
use substrate_hot_stuff.Synchronizer.{save_proposal, get_proposal_ancestors}
use substrate_hot_stuff.Worker.Defs.{empty_payload_hash, handle_qc}
use substrate_hot_stuff.Worker.Proposals.{
  Node, Run, check_status, check_payload, follow_tc, finalize_grandpa, try_finalize, cast,
  cast_vote, accept_proposal, handle_proposal_with,
}
use substrate_hot_stuff.Worker.Steps.{
  Steps, more, saves, Steps-trans, one, Steps-logged, follows_qc,
}
use substrate_hot_stuff.Worker.Refines.Accepting.{
  check_payload-Steps, follow_tc-Steps, try_finalize-Steps, still, verified_qc,
}
use substrate_hot_stuff.Worker.Safety.Views.{Moves, Moves-make_vote, Steps-Moves}
use substrate_hot_stuff.Worker.Termination.Total.{Returns, map_err-Returns}
use substrate_hot_stuff.Worker.Termination.Calls.{
  verify_proposal-Returns, save_proposal-Returns, ancestors-Returns, view_leader-Returns,
}
use substrate_hot_stuff.Worker.Termination.Fuel.{
  Live, continue-Returns, choice-Returns, logged-Returns, pair-Returns, Live-Moves, Live-voted,
}

module _ (env : Environment) where
  -- A handler that returns wherever the last voted view can rise at most `n` times.
  abbrev pub Terminates : {A : Type 0} → ℕ → (A → Run env) → Type 0
  Terminates n m = (a : _) (w : Node env) → Live n w → Returns (m a w).0

  cast-Returns :
      (n : ℕ) (handle : Vote → Run env)
      → Terminates n handle
      → (p : Proposal) (o : Option Vote) (w : Node env) → Live (suc n) w
      → p.view ≡ w.state.view
      → (make_vote env.crypto w.state p).0 ≡ o
      → Returns (cast env handle p o (record w { state = (make_vote env.crypto w.state p).1 })).0
  unfolding cast
  cast-Returns n handle h p none w live current e = tt
  cast-Returns n handle h p (some v) w live current e =
      let i = make_vote-IsVoteOn env.crypto w.state p v e in
      continue-Returns (view_leader voted.state ((voted.state.view + 1) % u64_mod)) _ voted
        (view_leader-Returns voted.state ((voted.state.view + 1) % u64_mod))
        λ l q.
          choice-Returns (is_local (local_authority_id voted.state) l) _ _ voted
            (λ _. h v voted (Live-voted live moved (omega (arith, i.fresh, i.taken)))) λ _. tt
    where
      voted : Node env
      voted = record w {
        state = (make_vote env.crypto w.state p).1;
        proposal_hash_queue = w.proposal_hash_queue ++ p.payload.block_hash ∷ [];
        processing_block =
            some (record { hash = some p.payload.block_hash; number = p.payload.block_number });
      }

      moved : Moves w voted
      moved = Moves-make_vote env.crypto w voted p current refl refl

  cast_vote-Returns :
      (n : ℕ) (handle : Vote → Run env)
      → Terminates n handle
      → Terminates (suc n) (cast_vote env handle)
  unfolding cast_vote
  cast_vote-Returns n handle h p w live =
      choice-Returns (not (p.view == w.state.view)) _ _ w (λ _. tt)
        λ e. cast-Returns n handle h p (make_vote env.crypto w.state p).0 w live (ground arith) refl

  finalize-Returns : (a : Proposal × Proposal) (w : Node env) → Returns (finalize_grandpa env a w).0
  unfolding finalize_grandpa
  finalize-Returns (parent, grandpa) w =
      pair-Returns
        (parent.view == (grandpa.view + 1) % u64_mod
          && (not (grandpa.payload.block_hash == empty_payload_hash env.crypto)
              && not (grandpa.payload.block_hash == (env.client.info w.chain).finalized_hash)))
        _ _
        (map_err-Returns finalize_failed
          (env.client.finalize_block w.chain grandpa.payload.block_hash).0)
        tt

  try_finalize-Returns : (p : Proposal) (w : Node env) → Returns (try_finalize env p w).0
  unfolding try_finalize
  try_finalize-Returns p w =
      continue-Returns (get_proposal_ancestors env w.chain p) _ w (ancestors-Returns env w.chain p)
        λ a e. finalize-Returns a w

  follow_tc-Returns : (o : Option Tc) (w : Node env) → Returns (follow_tc env o w).0
  unfolding follow_tc
  follow_tc-Returns none w = tt
  follow_tc-Returns (some tc) w = choice-Returns (ltb w.state.view tc.view) _ _ w (λ _. tt) λ _. tt

  status-Returns :
      (p : Proposal) (r : External BlockStatus) (w : Node env) → Returns (check_status env p r w).0
  unfolding check_status
  status-Returns p (answered in_chain) w = tt
  status-Returns p (answered unknown) w = tt
  status-Returns p (failed e) w = tt

  check_payload-Returns : (p : Proposal) (w : Node env) → Returns (check_payload env p w).0
  unfolding check_payload
  check_payload-Returns p w =
      elim (Bool-cases (not (p.payload.block_hash == empty_payload_hash env.crypto))) [
        | inl block ↦ rw block (status-Returns p (env.client.status w.chain p.payload.block_hash) w)
        | inr empty ↦ rw empty tt
      ]

  accept_proposal-Returns :
      (n : ℕ) (handle : Vote → Run env)
      → Terminates n handle
      → Terminates (suc n) (accept_proposal env handle)
  unfolding accept_proposal
  accept_proposal-Returns n handle h p w live =
      continue-Returns (verify_proposal env.crypto w.state p) _ w
        (verify_proposal-Returns env.crypto w.state p)
        λ t good.
          let w1 = handle_qc p.qc w in
          let r1 : Steps env w w1 =
            one env (follows_qc p.qc (verified_qc env w.state p good) refl) in
          let r2 = Steps-trans env r1 (follow_tc-Steps env p.tc w1) in
          continue-Returns (follow_tc env p.tc w1).0 _ _ (follow_tc-Returns p.tc w1) λ t2 e2.
            let w2 = (follow_tc env p.tc w1).1 in
            let w3 : Node env = record w2 { chain = (save_proposal env w2.chain p).1 } in
            continue-Returns (save_proposal env w2.chain p).0 _ w3
              (save_proposal-Returns env w2.chain p)
              λ t3 e3.
                let r3 = more r2 (saves p (still env p good r2) refl) in
                let r4 =
                  Steps-logged env (try_finalize env p) w3
                    (try_finalize-Steps env p w3 (still env p good r3)) in
                continue-Returns (logged (try_finalize env p) w3).0
                  (λ (t : Unit {0}). cast_vote env handle p) _
                  (logged-Returns (try_finalize env p) w3 (try_finalize-Returns p w3))
                  λ t4 e4.
                    cast_vote-Returns n handle h p _
                      (Live-Moves live (Steps-Moves env (Steps-trans env r3 r4)))

  pub handle_proposal_with-Returns :
      (n : ℕ) (handle : Vote → Run env)
      → Terminates n handle
      → Terminates (suc n) (handle_proposal_with env handle)
  unfolding handle_proposal_with
  handle_proposal_with-Returns n handle h p w live =
      continue-Returns (check_payload env p w).0 _ _ (check_payload-Returns p w) λ known e.
        choice-Returns known _ _ _
          (λ _.
            accept_proposal-Returns n handle h p _
              (Live-Moves live (Steps-Moves env (check_payload-Steps env p w))))
          λ _. tt
