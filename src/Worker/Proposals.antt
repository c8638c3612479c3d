-- ===== src/Worker/Proposals.antt =====
-- consensus.rs: the bodies of `handle_proposal`, `handle_vote` and `generate_proposal`, every call in the
-- code's order. They call each other, so each takes the other as an argument; Handlers closes the
-- recursion.
use substrate_hot_stuff.Prelude.{
  ℕ, ◌+◌, ◌%◌, [], ◌∷◌, ◌++◌, Bool, true, false, not, ◌&&◌, Option, none, some, ltb, ◌==◌,
  if◌then◌else◌,
}
use substrate_hot_stuff.Primitives.{
  Hash, u64_mod, Result, ok, err, External, answered, failed, map_err, client_error,
  finalize_block as finalize_failed,
}
use substrate_hot_stuff.Exec.{Exec, pure, lift, logged, get, modify, ◌>>=◌, ◌>>◌}
use substrate_hot_stuff.Environment.{BlockStatus, in_chain, unknown, Environment}
use substrate_hot_stuff.Message.Qc.{Qc}
use substrate_hot_stuff.Message.Tc.{Tc}
use substrate_hot_stuff.Message.Payload.{Payload}
use substrate_hot_stuff.Message.Vote.{Vote}
use substrate_hot_stuff.Message.Proposal.{Proposal}
use substrate_hot_stuff.Message.ConsensusMessage.{ConsensusMessage}
use substrate_hot_stuff.Consensus.State.{
  ConsensusState, local_authority_id, is_local, view_leader, make_proposal, make_vote,
  verify_proposal, verify_vote, add_vote,
}
use substrate_hot_stuff.Synchronizer.{save_proposal, get_proposal_ancestors}
use substrate_hot_stuff.Worker.Defs.{
  Worker, empty_payload_hash, gossip_message, reset_timer, advance_view, handle_qc,
}
use substrate_hot_stuff.Worker.Payloads.{get_proposal_payload, is_suppressed, remember}

module _ (env : Environment) where
  abbrev pub Node : Type 0
  Node = Worker env.client.State

  abbrev pub Run : Type 0
  Run = Exec Node (Unit {0})

  -- A method of the state that changes it, and its result.
  abbrev pub on_state {ℓ} :
      {A : Type ℓ} → (ConsensusState → Result A × ConsensusState) → Exec Node A
  on_state f w = let (r, state) = f w.state in (r, record w { state = state })

  abbrev pub on_chain {ℓ} :
      {A : Type ℓ} → (env.client.State → Result A × env.client.State) → Exec Node A
  on_chain f w = let (r, chain) = f w.chain in (r, record w { chain = chain })

  -- `self.get_proposal_payload()`
  unfoldable pub next_payload : Exec Node (Option Payload)
  unfolding get_proposal_payload
  next_payload w =
      let (payload, w') =
        get_proposal_payload env.crypto (env.client.info w.chain).finalized_number w in
      (ok payload, w')

  -- A proposal of one's own is gossiped and then handled.
  unfoldable pub propose_payload : (Proposal → Run) → Payload → Option Tc → Run
  unfolding gossip_message ◌>>=◌
  propose_payload handle_proposal payload tc = do
    w ← get
    proposal ← lift (make_proposal env.crypto w.state payload tc)
    gossip_message (ConsensusMessage.propose proposal) false
    handle_proposal proposal

  unfoldable pub generate_payload : (Proposal → Run) → Option Tc → Option Payload → Run
  generate_payload handle_proposal tc none = pure tt
  generate_payload handle_proposal tc (some payload) = propose_payload handle_proposal payload tc

  unfoldable pub generate_proposal_with : (Proposal → Run) → Option Tc → Run
  unfolding ◌>>=◌
  generate_proposal_with handle_proposal tc = do
    payload ← next_payload
    generate_payload handle_proposal tc payload

  -- `handle_vote`, from the payload for the next proposal on.
  unfoldable pub propose_next : (Proposal → Run) → Option Payload → Run
  unfolding ◌>>=◌
  propose_next handle_proposal none = pure tt
  propose_next handle_proposal (some payload) = do
    w ← get
    if is_suppressed (empty_payload_hash env.crypto) payload.block_hash w.proposal_hash_queue
        then pure tt
        else do
          modify λ v. record v {
            proposal_hash_queue = remember payload.block_hash v.proposal_hash_queue;
          }
          propose_payload handle_proposal payload none

  -- `handle_vote`, from the QC that the vote completes on.
  unfoldable pub on_qc : (Proposal → Run) → Option Qc → Run
  unfolding ◌>>=◌
  on_qc handle_proposal none = pure tt
  on_qc handle_proposal (some qc) = do
    modify (handle_qc qc)
    w ← get
    current_leader ← lift (view_leader w.state w.state.view)
    if is_local (local_authority_id w.state) current_leader
        then (do payload ← next_payload; propose_next handle_proposal payload)
        else pure tt

  unfoldable pub handle_vote_with : (Proposal → Run) → Vote → Run
  unfolding ◌>>=◌
  handle_vote_with handle_proposal vote = do
    w ← get
    lift (verify_vote env.crypto w.state vote)
    qc ← on_state (λ s. add_vote env.crypto s vote)
    on_qc handle_proposal qc

  -- The check of the payload's block: whether to go on. An unknown block is asked for.
  unfoldable pub check_status : Proposal → External BlockStatus → Exec Node Bool
  check_status proposal (answered in_chain) w = (ok true, w)
  check_status proposal (answered unknown) w =
      let request : Hash × ℕ = (proposal.payload.block_hash, proposal.payload.block_number) in
      (ok false, record w { sync_requests = w.sync_requests ++ request ∷ [] })
  check_status proposal (failed e) w = (err (client_error e), w)

  unfoldable pub check_payload : Proposal → Exec Node Bool
  check_payload proposal w =
      if not (proposal.payload.block_hash == empty_payload_hash env.crypto)
      then check_status proposal (env.client.status w.chain proposal.payload.block_hash) w
      else (ok true, w)

  -- `if let Some(tc) = proposal.tc.as_ref() { … }`
  unfoldable pub follow_tc : Option Tc → Run
  unfolding advance_view reset_timer ◌>>=◌
  follow_tc none = pure tt
  follow_tc (some tc) = do
    w ← get
    if ltb w.state.view tc.view then (do advance_view tc.view; reset_timer) else pure tt

  -- The closure that finalizes the grandparent's block.
  unfoldable pub finalize_grandpa : Proposal × Proposal → Run
  finalize_grandpa (parent, grandpa) w =
      let hash = grandpa.payload.block_hash in
      let finalize : Result (Unit {0}) × Node =
        on_chain
          (λ s. let (r, s') = env.client.finalize_block s hash in (map_err finalize_failed r, s'))
          w in
      if parent.view == (grandpa.view + 1) % u64_mod
        && (not (hash == empty_payload_hash env.crypto)
            && not (hash == (env.client.info w.chain).finalized_hash))
      then finalize
      else (ok tt, w)

  unfoldable pub try_finalize : Proposal → Run
  unfolding ◌>>=◌
  try_finalize proposal = do
    w ← get
    ancestors ← lift (get_proposal_ancestors env w.chain proposal)
    finalize_grandpa ancestors

  -- `handle_proposal`, from the vote that was made on.
  unfoldable pub cast : (Vote → Run) → Proposal → Option Vote → Run
  unfolding gossip_message ◌>>=◌
  cast handle_vote proposal none = pure tt
  cast handle_vote proposal (some vote) = do
    modify λ w. record w {
      proposal_hash_queue = w.proposal_hash_queue ++ proposal.payload.block_hash ∷ [];
      processing_block = some (record {
        hash = some proposal.payload.block_hash;
        number = proposal.payload.block_number;
      });
    }
    w ← get
    next_leader ← lift (view_leader w.state ((w.state.view + 1) % u64_mod))
    if is_local (local_authority_id w.state) next_leader
        then handle_vote vote
        else gossip_message (ConsensusMessage.vote vote) false

  unfoldable pub cast_vote : (Vote → Run) → Proposal → Run
  unfolding ◌>>=◌
  cast_vote handle_vote proposal = do
    w ← get
    if not (proposal.view == w.state.view) then pure tt else do
      vote ← on_state (λ s. let (v, s') = make_vote env.crypto s proposal in (ok v, s'))
      cast handle_vote proposal vote

  -- `handle_proposal`, once the payload's block is known.
  unfoldable pub accept_proposal : (Vote → Run) → Proposal → Run
  unfolding ◌>>=◌
  accept_proposal handle_vote proposal = do
    w ← get
    lift (verify_proposal env.crypto w.state proposal)
    modify (handle_qc proposal.qc)
    follow_tc proposal.tc
    on_chain (λ s. save_proposal env s proposal)
    logged (try_finalize proposal)
    cast_vote handle_vote proposal

  unfoldable pub handle_proposal_with : (Vote → Run) → Proposal → Run
  unfolding ◌>>=◌
  handle_proposal_with handle_vote proposal = do
    known ← check_payload proposal
    if known then accept_proposal handle_vote proposal else pure tt
