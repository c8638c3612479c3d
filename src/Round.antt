-- ===== src/Round.antt =====
-- A round of the consensus (consensus.rs, aggregator.rs): replicas answer a proposal, and one of them
-- collects the votes.
use substrate_hot_stuff.Prelude.{
  ℕ, suc, ◌+◌, ◌≤◌, ◌≡◌, refl, ap, ◌∙◌, List, [], ◌∷◌, ◌++◌, map, true, none, some, length,
  length-map, All, Distinct, arith, ◌⊎◌, inl, inr,
}
use substrate_hot_stuff.Primitives.{AuthorityList, AuthoritySignature, ok}
use substrate_hot_stuff.Environment.{Environment}
use substrate_hot_stuff.Message.Qc.{Qc}
use substrate_hot_stuff.Message.Qc
use substrate_hot_stuff.Message.Vote.{Vote}
use substrate_hot_stuff.Message.Vote
use substrate_hot_stuff.Message.Proposal.{Proposal}
use substrate_hot_stuff.Message.Proposal
use substrate_hot_stuff.Message.Quorum.{voters, quorum}
use substrate_hot_stuff.Aggregator.{new}
use substrate_hot_stuff.Aggregator.QcMaking.{AllSound-new, add_vote-verify}
use substrate_hot_stuff.Aggregator.QcMaking.Progress.{
  senders, IsFor, add_all-AllSound, answer, answer_at_quorum,
}
use substrate_hot_stuff.Consensus.State.{verify_proposal}
use substrate_hot_stuff.Synchronizer.{save_proposal}
use substrate_hot_stuff.Worker.Defs.{handle_qc}
use substrate_hot_stuff.Worker.Proposals.{Node, check_payload}
use substrate_hot_stuff.Worker.Handlers.{handle_proposal}
use substrate_hot_stuff.Worker.Steps.{Steps, follows_qc, one, Steps-trans}
use substrate_hot_stuff.Worker.Constant.{Steps-fixed}
use substrate_hot_stuff.Worker.Refines.Accepting.{follow_tc-Steps, verified_qc}
use substrate_hot_stuff.Worker.Safety.Signing.{IsSigning, make_vote-verify}
use substrate_hot_stuff.Worker.Responding.{voted, Answers, certified, handle_proposal-voted}

module _ (env : Environment) (authorities : AuthorityList) (p : Proposal) where
  -- A replica with these authorities and a sound keystore that has what it needs to answer the proposal
  -- with a signed vote.
  pub record Participates (w : Node env) (v : Vote) : Type 0 where
    pub same : w.state.authorities ≡ authorities
    pub signing : IsSigning env.crypto w.state.keystore
    pub known : check_payload env p w ≡ (ok true, w)
    pub good : verify_proposal env.crypto w.state p ≡ ok tt
    pub saved : (save_proposal env (certified env p w).chain p).0 ≡ ok tt
    pub answers : Answers env (certified env p w).state p v
    pub signature : AuthoritySignature
    pub signed : v.signature ≡ some signature

  certified-Steps :
      (w : Node env)
      → verify_proposal env.crypto w.state p ≡ ok tt
      → Steps env w (certified env p w)
  certified-Steps w good =
      Steps-trans env (one env (follows_qc p.qc (verified_qc env w.state p good) refl))
        (follow_tc-Steps env p.tc (handle_qc p.qc w))

  abbrev hash : ℕ
  hash = Proposal.digest env.crypto p

  abbrev Replies : Node env × Vote → Type 0
  Replies r = Participates r.0 r.1

  -- What a replica gossips on the proposal.
  abbrev pub Gossips : ℕ → Node env × Vote → Type 0
  Gossips fuel r =
      (handle_proposal env (suc fuel) p r.0).1.outbox ≡ r.0.outbox ++ voted env r.1 ∷ []

  vote_of-IsFor :
      (fuel : ℕ) (w : Node env) (v : Vote)
      → Participates w v
      → Gossips fuel (w, v) × IsFor env.crypto authorities hash p.view v
  vote_of-IsFor fuel w v t =
      let (sent, for_hash, for_view) =
        handle_proposal-voted env fuel w p v t.known t.good t.saved t.answers in
      let u = certified env p w in
      let kept = Steps-fixed env (certified-Steps w t.good) in
      let keys : u.state.keystore ≡ w.state.keystore = ap (λ x. x.0) kept in
      let list : u.state.authorities ≡ authorities = ap (λ x. x.1) kept ∙ t.same in
      let checks = make_vote-verify env.crypto u.state (rw keys t.signing) p v t.answers.made in
      (
        sent,
        record {
          same_hash = for_hash;
          same_view = for_view;
          verified = rw (← list) (is_signed checks);
        },
      )
    where
      is_signed :
          (v.signature ≡ none)
            ⊎ (Vote.verify env.crypto v (certified env p w).state.authorities ≡ ok tt)
          → Vote.verify env.crypto v (certified env p w).state.authorities ≡ ok tt
      is_signed (inl missing) = absurd (ground (arith, t.signed))
      is_signed (inr checks) = checks

  abbrev pub votes_of : List (Node env × Vote) → List Vote
  votes_of = map (λ r. r.1)

  all_votes-IsFor :
      (fuel : ℕ) (rs : List (Node env × Vote))
      → All Replies rs
      → All (Gossips fuel) rs × All (IsFor env.crypto authorities hash p.view) (votes_of rs)
  all_votes-IsFor fuel [] h = (tt, tt)
  all_votes-IsFor fuel ((w, v) ∷ rs) h =
      let (sent, for) = vote_of-IsFor fuel w v h.0 in
      let (all_sent, all_for) = all_votes-IsFor fuel rs h.1 in ((sent, all_sent), (for, all_for))

  -- The answer to the last vote of a quorum is a QC that verifies.
  collects :
      (vs : List Vote) (v : Vote)
      → All (IsFor env.crypto authorities hash p.view) vs
      → IsFor env.crypto authorities hash p.view v
      → Distinct (senders vs ++ v.voter ∷ [])
      → quorum (length authorities) ≤ length vs + 1
      → (qc : Qc) × (answer env.crypto authorities hash p.view vs v ≡ ok (some qc))
        × (Qc.verify env.crypto qc authorities ≡ ok tt)
        × (qc.proposal_hash ≡ hash)
        × (qc.view ≡ p.view)
        × (voters qc.votes ≡ senders vs ++ v.voter ∷ [])
  collects vs v all_for for d many =
      let (qc, e, who) =
        answer_at_quorum env.crypto authorities hash p.view vs v all_for for d many in
      let sound =
        add_all-AllSound env.crypto authorities hash p.view new vs all_for
          (AllSound-new env.crypto authorities) in
      let (checks, known, same_hash, same_view) =
        add_vote-verify env.crypto authorities _ v qc sound for.verified e in
      (qc, e, checks, same_hash ∙ for.same_hash, same_view ∙ for.same_view, who)

  -- A round completes. When a proposal reaches replicas that can answer it, with the same authorities,
  -- at least a quorum of them and each under another key, then each gossips its vote, and an aggregator
  -- that collects these votes, in any order, answers the last one with a QC that verifies, for the
  -- proposal and its view, with exactly these voters.
  pub round_completes :
      (fuel : ℕ) (rs : List (Node env × Vote)) (w : Node env) (v : Vote)
      → All (λ r. Participates r.0 r.1) rs
      → Participates w v
      → Distinct (senders (votes_of rs) ++ v.voter ∷ [])
      → quorum (length authorities) ≤ length rs + 1
      → All (Gossips fuel) rs
        × Gossips fuel (w, v)
        × ((qc : Qc) × (answer env.crypto authorities hash p.view (votes_of rs) v ≡ ok (some qc))
            × (Qc.verify env.crypto qc authorities ≡ ok tt)
            × (qc.proposal_hash ≡ Proposal.digest env.crypto p)
            × (qc.view ≡ p.view)
            × (voters qc.votes ≡ senders (votes_of rs) ++ v.voter ∷ []))
  round_completes fuel rs w v all_reply replies d many =
      let (all_sent, all_for) = all_votes-IsFor fuel rs all_reply in
      let (sent, for) = vote_of-IsFor fuel w v replies in
      (
        all_sent,
        sent,
        collects (votes_of rs) v all_for for d
            (omega (arith, many, length-map (λ (r : Node env × Vote). r.1) rs)),
      )
