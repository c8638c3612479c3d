-- ===== src/Worker/Refines/Proposing.antt =====
-- consensus.rs, `handle_vote` and `generate_proposal` are sequences of steps if the proposal handler is.
use substrate_hot_stuff.Prelude.{
  ℕ, ◌≡◌, refl, List, true, Option, none, some, if◌then◌else◌, Bool-cases, inl, inr,
}
use substrate_hot_stuff.Primitives.{Hash, Result, ok, err, panic, exhausted}
use substrate_hot_stuff.Exec.{continue, ◌>>=◌}
use substrate_hot_stuff.Environment.{Environment}
use substrate_hot_stuff.Message.Qc.{Qc}
use substrate_hot_stuff.Message.Tc.{Tc}
use substrate_hot_stuff.Message.Payload.{Payload}
use substrate_hot_stuff.Message.Vote.{Vote}
use substrate_hot_stuff.Message.Proposal.{Proposal}
use substrate_hot_stuff.Consensus.State.{
  ConsensusState, is_leader, is_local, view_leader, local_authority_id, make_proposal, verify_vote,
  add_vote,
}
use substrate_hot_stuff.Worker.Defs
use substrate_hot_stuff.Worker.Defs.{
  Worker, advance, gossip_message, reset_timer, advance_view, handle_qc, empty_payload_hash,
}
use substrate_hot_stuff.Worker.Payloads.{
  get_proposal_payload, choose_payload, remember, is_suppressed,
}
use substrate_hot_stuff.Worker.Proposals.{
  Node, Run, next_payload, propose_payload, generate_payload, generate_proposal_with, propose_next,
  on_qc, handle_vote_with,
}
use substrate_hot_stuff.Worker.Steps.{
  keeps_books, counts_vote, completes_qc, proposes, Steps, done, Steps-trans, one, Steps-continue,
  Steps-if,
}

module _ (env : Environment) where
  -- A method that refines the steps from every state.
  abbrev pub Refines {ℓ} : {A : Type ℓ} → (A → Run env) → Type ℓ
  Refines f = (a : _) (w : Node env) → Steps env w (f a w).1

  pub propose_payload-Steps :
      (handle : Proposal → Run env)
      → Refines handle
      → (payload : Payload) (tc : Option Tc) (w : Node env) → is_leader w.state ≡ ok true
      → Steps env w (propose_payload env handle payload tc w).1
  unfolding propose_payload
  propose_payload-Steps handle h payload tc w leads =
      Steps-continue env (make_proposal env.crypto w.state payload tc) _ w done
        λ p e. Steps-trans env (one env (proposes p payload tc leads e refl)) (h p _)

  -- `get_proposal_payload` changes the block in process only.
  pub next_payload_shape :
      (w : Node env)
      → (o : Option Payload) × (b : Option Defs.BlockInfo) × (next_payload env w
          ≡ (ok o, record w { processing_block = b }))
  unfolding next_payload
  next_payload_shape w = elim (Bool-cases w.queue_poisoned) [
    | inl e ↦ (none, w.processing_block, rw (e, get_proposal_payload))
    | inr e ↦ (
      (choose_payload (empty_payload_hash env.crypto) (env.client.info w.chain).finalized_number
          w.pending_finalize_queue w.processing_block).1,
      (choose_payload (empty_payload_hash env.crypto) (env.client.info w.chain).finalized_number
          w.pending_finalize_queue w.processing_block).0,
      rw (e, get_proposal_payload),
    )
  ]

  pub set_block :
      (w : Node env) (b : Option Defs.BlockInfo) → Steps env w (record w { processing_block = b })
  set_block w b = one env (keeps_books b w.proposal_hash_queue w.sync_requests w.timer_resets refl)

  pub set_queue :
      (w : Node env) (q : List Hash) → Steps env w (record w { proposal_hash_queue = q })
  set_queue w q = one env (keeps_books w.processing_block q w.sync_requests w.timer_resets refl)

  pub generate_payload-Steps :
      (handle : Proposal → Run env)
      → Refines handle
      → (tc : Option Tc) (o : Option Payload) (w : Node env) → is_leader w.state ≡ ok true
      → Steps env w (generate_payload env handle tc o w).1
  unfolding generate_payload
  generate_payload-Steps handle h tc none w leads = done
  generate_payload-Steps handle h tc (some payload) w leads =
      propose_payload-Steps handle h payload tc w leads

  pub generate_proposal-Steps :
      (handle : Proposal → Run env)
      → Refines handle
      → (tc : Option Tc) (w : Node env) → is_leader w.state ≡ ok true
      → Steps env w (generate_proposal_with env handle tc w).1
  unfolding generate_proposal_with
  generate_proposal-Steps handle h tc w leads =
      let (o, b, e) = next_payload_shape w in
      rw e (Steps-trans env (set_block w b) (generate_payload-Steps handle h tc o _ leads))

  pub propose_next-Steps :
      (handle : Proposal → Run env)
      → Refines handle
      → (o : Option Payload) (w : Node env) → is_leader w.state ≡ ok true
      → Steps env w (propose_next env handle o w).1
  unfolding propose_next
  propose_next-Steps handle h none w leads = done
  propose_next-Steps handle h (some payload) w leads =
      Steps-if env
        (is_suppressed (empty_payload_hash env.crypto) payload.block_hash w.proposal_hash_queue) _ _
        w (λ _. done)
        λ _.
          Steps-trans env (set_queue w (remember payload.block_hash w.proposal_hash_queue))
            (propose_payload-Steps handle h payload none _ leads)

  pub leads_of :
      (s : ConsensusState) (l : ℕ)
      → view_leader s s.view ≡ ok l
      → is_local (local_authority_id s) l ≡ true
      → is_leader s ≡ ok true
  unfolding is_leader
  leads_of s l e here = rw (e, here)

  -- `handle_vote`, from the current leader on.
  pub propose_if_leader :
      (handle : Proposal → Run env)
      → Refines handle
      → (w : Node env)
      → Steps env w
          (continue
            (view_leader w.state w.state.view)
            (λ l.
              if is_local (local_authority_id w.state) l
              then (next_payload env >>= propose_next env handle)
              else λ v. (ok tt, v))
            w).1
  unfolding ◌>>=◌
  propose_if_leader handle h w =
      Steps-continue env (view_leader w.state w.state.view) _ w done λ l e.
        Steps-if env (is_local (local_authority_id w.state) l) _ _ w
          (λ here.
            let (o, b, p) = next_payload_shape w in
            rw p (
              Steps-trans env (set_block w b)
                (propose_next-Steps handle h o _ (leads_of w.state l e here))))
          λ _. done

  pub on_qc-Steps :
      (handle : Proposal → Run env)
      → Refines handle
      → (vote : Vote) (o : Option Qc) (w : Node env) → verify_vote env.crypto w.state vote ≡ ok tt
      → (add_vote env.crypto w.state vote).0 ≡ ok o
      → Steps env w
          (on_qc env handle o (record w { state = (add_vote env.crypto w.state vote).1 })).1
  unfolding on_qc
  on_qc-Steps handle h vote none w good e = one env (counts_vote vote good refl)
  on_qc-Steps handle h vote (some qc) w good e =
      Steps-trans env (one env (completes_qc vote qc good e refl)) (propose_if_leader handle h _)

  -- An error of `add_vote` ends `handle_vote` after the vote was counted.
  pub counted :
      (handle : Proposal → Run env)
      → Refines handle
      → (vote : Vote) (w : Node env) (r : Result (Option Qc))
      → verify_vote env.crypto w.state vote ≡ ok tt
      → (add_vote env.crypto w.state vote).0 ≡ r
      → Steps env w
          (continue r
            (on_qc env handle)
            (record w { state = (add_vote env.crypto w.state vote).1 })).1
  counted handle h vote w (ok o) good e = on_qc-Steps handle h vote o w good e
  counted handle h vote w (err x) good e = one env (counts_vote vote good refl)
  counted handle h vote w panic good e = one env (counts_vote vote good refl)
  counted handle h vote w exhausted good e = one env (counts_vote vote good refl)

  pub handle_vote_with-Steps :
      (handle : Proposal → Run env) → Refines handle → Refines (handle_vote_with env handle)
  unfolding handle_vote_with
  handle_vote_with-Steps handle h vote w =
      Steps-continue env (verify_vote env.crypto w.state vote) _ w done
        λ t good. counted handle h vote w (add_vote env.crypto w.state vote).0 good refl
