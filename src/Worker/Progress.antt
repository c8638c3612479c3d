-- ===== src/Worker/Progress.antt =====
-- consensus.rs: a leader that completes a QC goes on with the next view.
use substrate_hot_stuff.Prelude.{
  ℕ, ◌+◌, ◌%◌, ◌<◌, ◌≡◌, refl, sym, ap, ◌∙◌, [], ◌∷◌, true, false, Option, none, some, ◌==◌,
  if◌then◌else◌, arith, inl,
}
use substrate_hot_stuff.Primitives.{ok, u64_mod}
use substrate_hot_stuff.Crypto.{Crypto}
use substrate_hot_stuff.Exec.{continue, ◌>>=◌}
use substrate_hot_stuff.Environment.{Environment}
use substrate_hot_stuff.Message.Qc.{Qc}
use substrate_hot_stuff.Message.Tc.{Tc}
use substrate_hot_stuff.Message.Payload.{Payload}
use substrate_hot_stuff.Message.Vote.{Vote}
use substrate_hot_stuff.Message.Proposal.{Proposal}
use substrate_hot_stuff.Message.ConsensusMessage.{ConsensusMessage}
use substrate_hot_stuff.Aggregator
use substrate_hot_stuff.Consensus.State.{
  ConsensusState, make_proposal, verify_vote, add_vote, view_leader, is_leader, is_local,
  local_authority_id, update_high_qc, advance_view_from_target,
}
use substrate_hot_stuff.Consensus.Leader.{is_leader_iff}
use substrate_hot_stuff.Worker.Defs.{Gossip, gossip_message, advance, handle_qc, empty_payload_hash}
use substrate_hot_stuff.Worker.Payloads.{is_suppressed, remember}
use substrate_hot_stuff.Worker.Proposals.{
  Node, Run, next_payload, propose_payload, propose_next, on_qc, handle_vote_with,
}
use substrate_hot_stuff.Worker.Handlers.{handle_vote, handle_proposal}
use substrate_hot_stuff.Worker.Refines.Proposing.{Refines, next_payload_shape}
use substrate_hot_stuff.Worker.Refines.Events.{handle_proposal-Steps}
use substrate_hot_stuff.Worker.Safety.Traces.{In, In-right}
use substrate_hot_stuff.Worker.Safety.Outbox.{Steps-In}

abbrev pub proposed : Proposal → Gossip
proposed p = record { message = ConsensusMessage.propose p; force = false }

make_proposal_parts :
    (c : Crypto) (s : ConsensusState) (payload : Payload) (tc : Option Tc) (p : Proposal)
    → make_proposal c s payload tc ≡ ok p
    → (p.view ≡ s.view) × (p.qc ≡ s.high_qc) × (p.payload ≡ payload)
unfolding make_proposal
make_proposal_parts c s payload tc p e = ground arith

-- The QC is for the view of the vote that completes it.
add_vote-view :
    (c : Crypto) (s : ConsensusState) (vote : Vote) (qc : Qc)
    → (add_vote c s vote).0 ≡ ok (some qc)
    → (qc.view ≡ vote.view)
      × ((add_vote c s vote).1.view ≡ s.view)
      × ((add_vote c s vote).1.high_qc ≡ s.high_qc)
unfolding add_vote Aggregator.add_vote Aggregator.append_qc Aggregator.append_vote
add_vote-view c s vote qc e = ground arith

module _ (env : Environment) where
  -- The worker has a payload to propose, it is not suppressed, and the proposal is made.
  pub record Offers (w : Node env) (payload : Payload) (p : Proposal) : Type 0 where
    pub offered : (next_payload env w).0 ≡ ok (some payload)
    pub fresh :
        is_suppressed
          (empty_payload_hash env.crypto)
          payload.block_hash
          (next_payload env w).1.proposal_hash_queue
        ≡ false
    pub made : make_proposal env.crypto w.state payload none ≡ ok p

  propose_payload-In :
      (handle : Proposal → Run env)
      → Refines env handle
      → (payload : Payload) (p : Proposal) (w : Node env)
      → make_proposal env.crypto w.state payload none ≡ ok p
      → In (proposed p) (propose_payload env handle payload none w).1.outbox
  unfolding propose_payload gossip_message ◌>>=◌
  propose_payload-In handle h payload p w made = rw made (
      Steps-In env (proposed p) (h p _)
        (In-right (proposed p) w.outbox (proposed p ∷ []) (inl refl)))

  propose_next-In :
      (handle : Proposal → Run env)
      → Refines env handle
      → (payload : Payload) (p : Proposal) (w : Node env)
      → is_suppressed (empty_payload_hash env.crypto) payload.block_hash w.proposal_hash_queue
        ≡ false
      → make_proposal env.crypto w.state payload none ≡ ok p
      → In (proposed p) (propose_next env handle (some payload) w).1.outbox
  unfolding propose_next ◌>>=◌
  propose_next-In handle h payload p w fresh made = rw fresh (
      propose_payload-In handle h payload p
        (record w { proposal_hash_queue = remember payload.block_hash w.proposal_hash_queue }) made)

  -- A payload is chosen without a change of the state.
  next_payload-In :
      (handle : Proposal → Run env)
      → Refines env handle
      → (payload : Payload) (p : Proposal) (w : Node env) → Offers w payload p
      → In (proposed p) ((next_payload env >>= propose_next env handle) w).1.outbox
  unfolding ◌>>=◌
  next_payload-In handle h payload p w offers =
      let (o, b, shape) = next_payload_shape env w in
      let some_payload : o ≡ some payload = ground (arith, offers.offered, shape) in
      let still_fresh : is_suppressed (empty_payload_hash env.crypto) payload.block_hash
            w.proposal_hash_queue
          ≡ false =
        rw shape at offers.fresh in
      rw (shape, some_payload)
        (propose_next-In handle h payload p (record w { processing_block = b }) still_fresh
          offers.made)

  leader-In :
      (handle : Proposal → Run env)
      → Refines env handle
      → (payload : Payload) (p : Proposal) (w : Node env) → is_leader w.state ≡ ok true
      → Offers w payload p
      → In
          (proposed p)
          (continue
            (view_leader w.state w.state.view)
            (λ l.
              if is_local (local_authority_id w.state) l
              then (next_payload env >>= propose_next env handle)
              else λ v. (ok tt, v))
            w).1.outbox
  leader-In handle h payload p w leads offers =
      let (id, mine, leader) = (is_leader_iff w.state).0 leads in
      let here : (id == id) ≡ true = ground arith in
      rw (leader, mine, here) (next_payload-In handle h payload p w offers)

  on_qc-In :
      (handle : Proposal → Run env)
      → Refines env handle
      → (qc : Qc) (payload : Payload) (p : Proposal) (w : Node env)
      → is_leader (handle_qc qc w).state ≡ ok true
      → Offers (handle_qc qc w) payload p
      → In (proposed p) (on_qc env handle (some qc) w).1.outbox
  unfolding on_qc ◌>>=◌
  on_qc-In handle h qc payload p w leads offers =
      leader-In handle h payload p (handle_qc qc w) leads offers

  handle_qc_next :
      (qc : Qc) (w : Node env)
      → qc.view ≡ w.state.view
      → w.state.high_qc.view < qc.view
      → ((handle_qc qc w).state.view ≡ (qc.view + 1) % u64_mod)
        × ((handle_qc qc w).state.high_qc ≡ qc)
  unfolding handle_qc advance update_high_qc advance_view_from_target
  handle_qc_next qc w same newer = (ground (arith, same, newer), ground (arith, same, newer))

  -- The chain goes on at a leader. When a verified vote of the current view completes a QC that is newer
  -- than the high QC, and the worker then leads the next view and has a payload that is not
  -- suppressed and for which the proposal is made, then among what `handle_vote` gossips is that
  -- proposal: for the next view, with this QC, with that payload.
  pub handle_vote-In :
      (fuel : ℕ) (w : Node env) (vote : Vote) (qc : Qc) (payload : Payload) (p : Proposal)
      → verify_vote env.crypto w.state vote ≡ ok tt
      → vote.view ≡ w.state.view
      → (add_vote env.crypto w.state vote).0 ≡ ok (some qc)
      → w.state.high_qc.view < vote.view
      → is_leader (handle_qc qc (record w { state = (add_vote env.crypto w.state vote).1 })).state
        ≡ ok true
      → Offers (handle_qc qc (record w { state = (add_vote env.crypto w.state vote).1 })) payload p
      → In (proposed p) (handle_vote env fuel vote w).1.outbox
        × (p.view ≡ (w.state.view + 1) % u64_mod)
        × (p.qc ≡ qc)
        × (p.payload ≡ payload)
  unfolding handle_vote handle_vote_with ◌>>=◌
  handle_vote-In fuel w vote qc payload p good current completes newer leads offers =
      let v : Node env = record w { state = (add_vote env.crypto w.state vote).1 } in
      let (for_vote, same_view, same_qc) = add_vote-view env.crypto w.state vote qc completes in
      let (next_view, next_qc) =
        handle_qc_next qc v (for_vote ∙ current ∙ sym same_view)
          (omega (arith, ap (λ t. t.view) same_qc)) in
      let (p_view, p_qc, p_payload) = make_proposal_parts env.crypto _ payload none p offers.made in
      (
        rw (good, completes)
            (on_qc-In (handle_proposal env fuel) (handle_proposal-Steps env fuel) qc payload p v
              leads offers),
        p_view ∙ next_view ∙ rw (for_vote, current) refl,
        p_qc ∙ next_qc,
        p_payload,
      )
