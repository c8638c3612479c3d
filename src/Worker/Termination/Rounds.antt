-- ===== src/Worker/Termination/Rounds.antt =====
-- consensus.rs: `handle_vote` and `generate_proposal` return, if `handle_proposal` does.
use substrate_hot_stuff.Prelude.{ℕ, ◌≡◌, refl, Option, none, some, Bool-cases, inl, inr}
use substrate_hot_stuff.Crypto.{Crypto}
use substrate_hot_stuff.Environment.{Environment}
use substrate_hot_stuff.Message.Tc.{Tc}
use substrate_hot_stuff.Message.Payload.{Payload}
use substrate_hot_stuff.Message.Proposal.{Proposal}
use substrate_hot_stuff.Consensus.State.{
  make_proposal, verify_vote, add_vote, view_leader, is_local, local_authority_id,
}
use substrate_hot_stuff.Worker.Defs.{Worker, empty_payload_hash, handle_qc}
use substrate_hot_stuff.Worker.Payloads.{get_proposal_payload, is_suppressed}
use substrate_hot_stuff.Worker.Proposals.{
  Node, Run, next_payload, propose_payload, generate_payload, generate_proposal_with, propose_next,
  on_qc, handle_vote_with,
}
use substrate_hot_stuff.Worker.Safety.Views.{Moves-handle_qc, Moves-aggregated}
use substrate_hot_stuff.Worker.Termination.Total.{Returns, verify_vote-Returns}
use substrate_hot_stuff.Worker.Termination.Calls.{
  make_proposal-Returns, view_leader-Returns, add_vote-Returns,
}
use substrate_hot_stuff.Worker.Termination.Fuel.{continue-Returns, choice-Returns, Live, Live-Moves}
use substrate_hot_stuff.Worker.Termination.Accepting.{Terminates}

-- Being alive depends on the consensus state only.
pub Live-same :
    {Chain : Type 0} {n : ℕ} {w u : Worker Chain} → Live n w → u.state ≡ w.state → Live n u
Live-same {n} {w} {u} h e = record {
  small = rw e h.small;
  voted_small = rw e h.voted_small;
  left = rw e h.left;
}

state-get_proposal_payload :
    {Chain : Type 0} (c : Crypto) (finalized_number : ℕ) (w : Worker Chain)
    → (get_proposal_payload c finalized_number w).1.state ≡ w.state
unfolding get_proposal_payload
state-get_proposal_payload c finalized_number w = elim (Bool-cases w.queue_poisoned) [
  | inl e ↦ rw e refl
  | inr e ↦ rw e refl
]

module _ (env : Environment) (n : ℕ) where
  module _ (handle : Proposal → Run env) (h : Terminates env n handle) where
    propose-Returns :
        (payload : Payload) (tc : Option Tc) (w : Node env)
        → Live n w
        → Returns (propose_payload env handle payload tc w).0
    unfolding propose_payload
    propose-Returns payload tc w live =
        continue-Returns (make_proposal env.crypto w.state payload tc) _ w
          (make_proposal-Returns env.crypto w.state payload tc) λ p e. h p _ (Live-same live refl)

    generate_payload-Returns :
        (tc : Option Tc) (o : Option Payload) (w : Node env)
        → Live n w
        → Returns (generate_payload env handle tc o w).0
    unfolding generate_payload
    generate_payload-Returns tc none w live = tt
    generate_payload-Returns tc (some payload) w live = propose-Returns payload tc w live

    pub generate-Returns :
        (tc : Option Tc) (w : Node env)
        → Live n w
        → Returns (generate_proposal_with env handle tc w).0
    unfolding generate_proposal_with next_payload
    generate-Returns tc w live = generate_payload-Returns tc _ _ (
        Live-same live
          (state-get_proposal_payload env.crypto (env.client.info w.chain).finalized_number w))

    propose_next-Returns :
        (o : Option Payload) (w : Node env) → Live n w → Returns (propose_next env handle o w).0
    unfolding propose_next
    propose_next-Returns none w live = tt
    propose_next-Returns (some payload) w live =
        choice-Returns
          (is_suppressed (empty_payload_hash env.crypto) payload.block_hash w.proposal_hash_queue) _
          _ w (λ _. tt) λ _. propose-Returns payload none _ (Live-same live refl)

    on_qc-Returns : Terminates env n (on_qc env handle)
    unfolding on_qc next_payload
    on_qc-Returns none w live = tt
    on_qc-Returns (some qc) w live =
        let u = handle_qc qc w in
        let alive : Live n u = Live-Moves live (Moves-handle_qc qc w) in
        continue-Returns (view_leader u.state u.state.view) _ u
          (view_leader-Returns u.state u.state.view)
          λ l e.
            choice-Returns (is_local (local_authority_id u.state) l) _ _ u
              (λ _. propose_next-Returns _ _ (
                Live-same alive (
                  state-get_proposal_payload env.crypto (env.client.info u.chain).finalized_number
                    u)))
              λ _. tt

    pub handle_vote_with-Returns : Terminates env n (handle_vote_with env handle)
    unfolding handle_vote_with add_vote
    handle_vote_with-Returns v w live =
        continue-Returns (verify_vote env.crypto w.state v) _ w
          (verify_vote-Returns env.crypto w.state v)
          λ t e.
            continue-Returns (add_vote env.crypto w.state v).0 _ _
              (add_vote-Returns env.crypto w.state v)
              λ qc f. on_qc-Returns qc _ (Live-Moves live (Moves-aggregated w _))
