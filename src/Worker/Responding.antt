-- ===== src/Worker/Responding.antt =====
-- consensus.rs: a replica answers a proposal of its view with its vote.
use substrate_hot_stuff.Prelude.{
  ℕ, suc, ◌+◌, ◌%◌, ◌≡◌, refl, ◌∙◌, [], ◌∷◌, ◌++◌, Bool, true, false, not, ◌&&◌, Option, none, some,
  ◌==◌, ltb, arith, Bool-cases, inl, inr,
}
use substrate_hot_stuff.Primitives.{
  Hash, AuthorityId, Result, ok, err, panic, exhausted, u64_mod, External, answered, failed,
  map_err, HotstuffError, finalize_block as finalize_failed,
}
use substrate_hot_stuff.Primitives
use substrate_hot_stuff.Exec
use substrate_hot_stuff.Exec.{continue, logged, ◌>>=◌}
use substrate_hot_stuff.Environment.{Environment}
use substrate_hot_stuff.Message.Tc.{Tc}
use substrate_hot_stuff.Message.Vote.{Vote}
use substrate_hot_stuff.Message.Proposal.{Proposal}
use substrate_hot_stuff.Message.Proposal
use substrate_hot_stuff.Message.ConsensusMessage.{ConsensusMessage}
use substrate_hot_stuff.Synchronizer.{
  save_proposal, get_proposal_parent, get_proposal_ancestors, decoded,
}
use substrate_hot_stuff.Consensus.State.{
  verify_proposal, make_vote, ConsensusState, view_leader, is_local, local_authority_id,
}
use substrate_hot_stuff.Consensus.Voting.{make_vote-IsVoteOn}
use substrate_hot_stuff.Worker.Defs.{
  Gossip, gossip_message, advance, advance_view, reset_timer, handle_qc, empty_payload_hash,
}
use substrate_hot_stuff.Worker.Proposals.{
  Node, Run, check_payload, follow_tc, finalize_grandpa, try_finalize, cast, cast_vote,
  accept_proposal, handle_proposal_with,
}
use substrate_hot_stuff.Worker.Handlers.{handle_proposal}
use substrate_hot_stuff.Worker.Safety.Votes.{outbox-handle_qc}

-- A result that is neither a panic nor out of fuel.
abbrev settles {ℓ} : {A : Type ℓ} → Result A → Bool
settles (ok a) = true
settles (err e) = true
settles _ = false

settles-map_err {ℓ} :
    {A : Type ℓ} (f : _ → HotstuffError) (x : External A) → settles (map_err f x) ≡ true
settles-map_err f (answered a) = refl
settles-map_err f (failed e) = refl

settles_bind {ℓ κ} :
    {A : Type ℓ} {B : Type κ} (r : Result A) (f : A → Result B)
    → settles r ≡ true
    → ((a : A) → settles (f a) ≡ true)
    → settles (Primitives.◌>>=◌ r f) ≡ true
settles_bind (ok a) f h k = k a
settles_bind (err e) f h k = refl
settles_bind panic f h k = h
settles_bind exhausted f h k = h

module _ (env : Environment) where
  get_proposal_parent-settles :
      (s : env.client.State) (p : Proposal) → settles (get_proposal_parent env s p) ≡ true
  unfolding get_proposal_parent decoded
  get_proposal_parent-settles s p = settles_bind _ _ (settles-map_err _ _) by_found
    where
      by_found : (found : _) → settles (decoded env found) ≡ true
      by_found none = refl
      by_found (some bytes) = settles-map_err _ (env.codec.decode_proposal bytes)

  get_proposal_ancestors-settles :
      (s : env.client.State) (p : Proposal) → settles (get_proposal_ancestors env s p) ≡ true
  unfolding get_proposal_ancestors
  get_proposal_ancestors-settles s p =
      settles_bind _ _ (get_proposal_parent-settles s p)
        λ parent. settles_bind _ _ (get_proposal_parent-settles s parent) λ grandpa. refl

  finalize_grandpa-settles :
      (a : Proposal × Proposal) (w : Node env)
      → (settles (finalize_grandpa env a w).0 ≡ true)
        × ((finalize_grandpa env a w).1.state ≡ w.state)
        × ((finalize_grandpa env a w).1.outbox ≡ w.outbox)
  unfolding finalize_grandpa
  finalize_grandpa-settles (parent, grandpa) w =
      elim (Bool-cases (
        parent.view == (grandpa.view + 1) % u64_mod
        && (not (grandpa.payload.block_hash == empty_payload_hash env.crypto)
            && not (grandpa.payload.block_hash == (env.client.info w.chain).finalized_hash)))) [
              | inl e ↦ rw e (settles-map_err _ _, refl, refl)
              | inr e ↦ rw e (refl, refl, refl)
            ]

  settles-continue :
      (r : Result (Proposal × Proposal)) (w : Node env)
      → settles r ≡ true
      → (settles (continue r (finalize_grandpa env) w).0 ≡ true)
        × ((continue r (finalize_grandpa env) w).1.state ≡ w.state)
        × ((continue r (finalize_grandpa env) w).1.outbox ≡ w.outbox)
  settles-continue (ok a) w h = finalize_grandpa-settles a w
  settles-continue (err e) w h = (refl, refl, refl)
  settles-continue panic w h = absurd (ground arith)
  settles-continue exhausted w h = absurd (ground arith)

  logged-settles :
      (m : Run env) (w : Node env) → settles (m w).0 ≡ true → logged m w ≡ (ok tt, (m w).1)
  logged-settles m w h = by_result (m w).0 (m w).1 h
    where
      by_result :
          (r : Result (Unit {0})) (u : Node env)
          → settles r ≡ true
          → Exec.ignore_err r u ≡ (ok tt, u)
      by_result (ok t) u h = refl
      by_result (err e) u h = refl
      by_result panic u h = absurd (ground arith)
      by_result exhausted u h = absurd (ground arith)

  -- The end of finalization is only logged, and touches neither the state nor the outbox.
  pub logged-try_finalize :
      (p : Proposal) (w : Node env)
      → (logged (try_finalize env p) w ≡ (ok tt, (try_finalize env p w).1))
        × ((try_finalize env p w).1.state ≡ w.state)
        × ((try_finalize env p w).1.outbox ≡ w.outbox)
  unfolding try_finalize ◌>>=◌
  logged-try_finalize p w =
      let (fine, same, silent) =
        settles-continue (get_proposal_ancestors env w.chain p) w
          (get_proposal_ancestors-settles w.chain p) in
      (logged-settles (try_finalize env p) w fine, same, silent)

  abbrev pub voted : Vote → Gossip
  voted v = record { message = ConsensusMessage.vote v; force = false }

  -- In this state the view is the proposal's, a vote is made, and another authority leads the next view.
  pub record Answers (s : ConsensusState) (p : Proposal) (v : Vote) : Type 0 where
    pub current : p.view ≡ s.view
    pub made : (make_vote env.crypto s p).0 ≡ some v
    pub leader : AuthorityId
    pub leads_next :
        view_leader (make_vote env.crypto s p).1 (((make_vote env.crypto s p).1.view + 1) % u64_mod)
        ≡ ok leader
    pub another : is_local (local_authority_id (make_vote env.crypto s p).1) leader ≡ false

  cast_vote-sends :
      (handle : Vote → Run env) (p : Proposal) (v : Vote) (w : Node env)
      → Answers w.state p v
      → (cast_vote env handle p w).1.outbox ≡ w.outbox ++ voted v ∷ []
  unfolding cast_vote cast gossip_message ◌>>=◌
  cast_vote-sends handle p v w a =
      let here : not (p.view == w.state.view) ≡ false = ground (arith, a.current) in
      rw (here, a.made, a.leads_next, a.another) refl

  pub follow_tc-silent :
      (o : Option Tc) (w : Node env)
      → ((follow_tc env o w).0 ≡ ok tt) × ((follow_tc env o w).1.outbox ≡ w.outbox)
  unfolding follow_tc advance_view advance reset_timer ◌>>=◌
  follow_tc-silent none w = (refl, refl)
  follow_tc-silent (some tc) w = elim (Bool-cases (ltb w.state.view tc.view)) [
    | inl behind ↦ rw behind (refl, refl)
    | inr ahead ↦ rw ahead (refl, refl)
  ]

  -- The worker after the certificates of a proposal.
  abbrev pub certified : Proposal → Node env → Node env
  certified p w = (follow_tc env p.tc (handle_qc p.qc w)).1

  certified-outbox : (p : Proposal) (w : Node env) → (certified p w).outbox ≡ w.outbox
  certified-outbox p w = (follow_tc-silent p.tc (handle_qc p.qc w)).1 ∙ outbox-handle_qc p.qc w

  accept_proposal-sends :
      (handle : Vote → Run env) (p : Proposal) (v : Vote) (w : Node env)
      → verify_proposal env.crypto w.state p ≡ ok tt
      → (save_proposal env (certified p w).chain p).0 ≡ ok tt
      → Answers (certified p w).state p v
      → (accept_proposal env handle p w).1.outbox ≡ w.outbox ++ voted v ∷ []
  unfolding accept_proposal ◌>>=◌
  accept_proposal-sends handle p v w good saved a =
      let u : Node env = record (certified p w) {
        chain = (save_proposal env (certified p w).chain p).1;
      } in
      let (goes_on, same, silent) = logged-try_finalize p u in
      let x = (try_finalize env p u).1 in
      let sends = cast_vote-sends handle p v x (rw same a) in
      rw (good, (follow_tc-silent p.tc (handle_qc p.qc w)).0, saved, goes_on)
        (sends ∙ rw (silent, certified-outbox p w) refl)

  -- A replica answers a proposal. When a proposal's block is known, it passes `verify_proposal` and can be
  -- saved, and, after its QC and TC, the worker is in its view, makes a vote and does not lead the
  -- next view, then the one message that `handle_proposal` gossips, whatever comes of finalization, is this vote, for
  -- the digest and the view of the proposal.
  pub handle_proposal-voted :
      (fuel : ℕ) (w : Node env) (p : Proposal) (v : Vote)
      → check_payload env p w ≡ (ok true, w)
      → verify_proposal env.crypto w.state p ≡ ok tt
      → (save_proposal env (certified p w).chain p).0 ≡ ok tt
      → Answers (certified p w).state p v
      → ((handle_proposal env (suc fuel) p w).1.outbox ≡ w.outbox ++ voted v ∷ [])
        × (v.proposal_hash ≡ Proposal.digest env.crypto p)
        × (v.view ≡ p.view)
  unfolding handle_proposal handle_proposal_with ◌>>=◌
  handle_proposal-voted fuel w p v known good saved a =
      let i = make_vote-IsVoteOn env.crypto (certified p w).state p v a.made in
      (rw known (accept_proposal-sends _ p v w good saved a), i.for_digest, i.for_view)
