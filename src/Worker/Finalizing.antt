-- ===== src/Worker/Finalizing.antt =====
-- consensus.rs: when the handling of a proposal finalizes a block.
use substrate_hot_stuff.Prelude.{
  ℕ, suc, ◌+◌, ◌%◌, ◌≡◌, refl, ap, ◌∙◌, Bool, true, false, not, ◌&&◌, Option, none, some, ◌==◌, ltb,
  if◌then◌else◌, arith, Bool-cases, inl, inr,
}
use substrate_hot_stuff.Primitives.{u64_mod, ok}
use substrate_hot_stuff.Exec.{◌>>=◌}
use substrate_hot_stuff.Environment.{Environment}
use substrate_hot_stuff.Message.Tc.{Tc}
use substrate_hot_stuff.Message.Vote.{Vote}
use substrate_hot_stuff.Message.Proposal.{Proposal}
use substrate_hot_stuff.Synchronizer.{save_proposal, get_proposal_ancestors}
use substrate_hot_stuff.Consensus.State.{verify_proposal}
use substrate_hot_stuff.Worker.Defs.{
  gossip_message, advance, advance_view, reset_timer, handle_qc, empty_payload_hash,
}
use substrate_hot_stuff.Worker.Proposals.{
  Node, Run, check_payload, follow_tc, finalize_grandpa, try_finalize, cast, cast_vote,
  accept_proposal, handle_proposal_with,
}
use substrate_hot_stuff.Worker.Handlers.{handle_proposal}
use substrate_hot_stuff.Worker.Responding.{
  logged-try_finalize, follow_tc-silent, Answers, certified,
}

module _ (env : Environment) where
  -- The parent is the successor by view of the grandparent, whose block is neither the empty payload nor the
  -- last one that was finalized.
  abbrev pub is_final : env.client.State → Proposal → Proposal → Bool
  is_final s parent grandpa =
      parent.view == (grandpa.view + 1) % u64_mod
      && (not (grandpa.payload.block_hash == empty_payload_hash env.crypto)
          && not (grandpa.payload.block_hash == (env.client.info s).finalized_hash))

  -- The chain after.
  abbrev pub finalized_chain : env.client.State → Proposal → Proposal → env.client.State
  finalized_chain s parent grandpa =
      if is_final s parent grandpa
      then (env.client.finalize_block s grandpa.payload.block_hash).1
      else s

  try_finalize-chain :
      (p parent grandpa : Proposal) (w : Node env)
      → get_proposal_ancestors env w.chain p ≡ ok (parent, grandpa)
      → (try_finalize env p w).1.chain ≡ finalized_chain w.chain parent grandpa
  unfolding try_finalize finalize_grandpa ◌>>=◌
  try_finalize-chain p parent grandpa w found =
      elim (Bool-cases (is_final w.chain parent grandpa)) [
        | inl final ↦ rw (found, final) refl
        | inr not_final ↦ rw (found, not_final) refl
      ]

  certified-chain : (p : Proposal) (w : Node env) → (certified env p w).chain ≡ w.chain
  unfolding follow_tc handle_qc advance_view advance reset_timer ◌>>=◌
  certified-chain p w = by_tc p.tc (handle_qc p.qc w) ∙ by_qc
    where
      by_qc : (handle_qc p.qc w).chain ≡ w.chain
      by_qc = ground arith

      by_tc : (o : Option Tc) (u : Node env) → (follow_tc env o u).1.chain ≡ u.chain
      by_tc none u = refl
      by_tc (some tc) u = elim (Bool-cases (ltb u.state.view tc.view)) [
        | inl behind ↦ rw behind refl
        | inr ahead ↦ rw ahead refl
      ]

  cast_vote-chain :
      (handle : Vote → Run env) (p : Proposal) (v : Vote) (w : Node env)
      → Answers env w.state p v
      → (cast_vote env handle p w).1.chain ≡ w.chain
  unfolding cast_vote cast gossip_message ◌>>=◌
  cast_vote-chain handle p v w a =
      let here : not (p.view == w.state.view) ≡ false = ground (arith, a.current) in
      rw (here, a.made, a.leads_next, a.another) refl

  accept_proposal-chain :
      (handle : Vote → Run env) (p parent grandpa : Proposal) (v : Vote) (w : Node env)
      → verify_proposal env.crypto w.state p ≡ ok tt
      → (save_proposal env (certified env p w).chain p).0 ≡ ok tt
      → get_proposal_ancestors env (save_proposal env (certified env p w).chain p).1 p
        ≡ ok (parent, grandpa)
      → Answers env (certified env p w).state p v
      → (accept_proposal env handle p w).1.chain
        ≡ finalized_chain (save_proposal env (certified env p w).chain p).1 parent grandpa
  unfolding accept_proposal ◌>>=◌
  accept_proposal-chain handle p parent grandpa v w good saved found a =
      let u : Node env = record (certified env p w) {
        chain = (save_proposal env (certified env p w).chain p).1;
      } in
      let (goes_on, same, silent) = logged-try_finalize env p u in
      let x = (try_finalize env p u).1 in
      let kept = cast_vote-chain handle p v x (rw same a) in
      rw (good, (follow_tc-silent env p.tc (handle_qc p.qc w)).0, saved, goes_on)
        (kept ∙ try_finalize-chain p parent grandpa u found)

  -- When a block is finalized. A proposal's block is known, it passes `verify_proposal` and is saved,
  -- and the store then has its parent and its parent's parent. After its QC and TC the worker
  -- is in its view, makes a vote and does not lead the next view. Then `handle_proposal` leaves the chain
  -- in which the grandparent's block is finalized, if the parent is the grandparent's successor by
  -- view and the block is neither the empty payload nor the last that was finalized; and otherwise the
  -- chain with the saved proposal only.
  pub handle_proposal-finalized_chain :
      (fuel : ℕ) (w : Node env) (p parent grandpa : Proposal) (v : Vote)
      → check_payload env p w ≡ (ok true, w)
      → verify_proposal env.crypto w.state p ≡ ok tt
      → (save_proposal env w.chain p).0 ≡ ok tt
      → get_proposal_ancestors env (save_proposal env w.chain p).1 p ≡ ok (parent, grandpa)
      → Answers env (certified env p w).state p v
      → (handle_proposal env (suc fuel) p w).1.chain
        ≡ finalized_chain (save_proposal env w.chain p).1 parent grandpa
  unfolding handle_proposal handle_proposal_with ◌>>=◌
  handle_proposal-finalized_chain fuel w p parent grandpa v known good saved found a =
      let same = certified-chain p w in
      rw known (
        accept_proposal-chain _ p parent grandpa v w good
          (ap (λ s. (save_proposal env s p).0) same ∙ saved)
          (ap (λ s. get_proposal_ancestors env (save_proposal env s p).1 p) same ∙ found) a
        ∙ ap (λ s. finalized_chain (save_proposal env s p).1 parent grandpa) same)
