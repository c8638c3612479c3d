-- ===== src/Agreement/Finality.antt =====
-- Several replicas: the blocks that they finalize (consensus.rs, `handle_proposal`).
use substrate_hot_stuff.Prelude.{
  ◌*◌, ◌≤◌, ◌≡◌, ◌≢◌, refl, sym, ap, ◌∙◌, subst, List, [], ◌∷◌, Option, none, some, inl, inr,
  length, All, Within, arith,
}
use substrate_hot_stuff.Primitives.{AuthorityId, AuthorityList, ok}
use substrate_hot_stuff.Crypto.{Crypto}
use substrate_hot_stuff.Environment.{Environment, StoreLaws}
use substrate_hot_stuff.Message.Qc.{Qc}
use substrate_hot_stuff.Message.Qc
use substrate_hot_stuff.Message.Vote.{Vote}
use substrate_hot_stuff.Message.Proposal.{Proposal}
use substrate_hot_stuff.Message.Proposal
use substrate_hot_stuff.Message.Quorum.{voters, ids, verify_complete, quorum_intersection}
use substrate_hot_stuff.Message.Authenticity.{CarriesQc}
use substrate_hot_stuff.Consensus.State.{make_vote}
use substrate_hot_stuff.Consensus.Voting.{make_vote-IsVoteOn}
use substrate_hot_stuff.Worker.Proposals.{Node}
use substrate_hot_stuff.Worker.Steps.{Step, votes, sends_vote, Steps, done, more}
use substrate_hot_stuff.Worker.Safety.Traces.{In, In-append, vote_list, made, votes_made}
use substrate_hot_stuff.Worker.Safety.Stores.{AuxLaws, HasSoundStore}
use substrate_hot_stuff.Worker.Safety.Finality.{
  Finalization, finalized, IsTwoChain, finalized-IsTwoChain,
}
use substrate_hot_stuff.Agreement.{IsDigesting, Replica, IsUnforged, Within-elem, voted, agreement}

-- What the consensus relies on: proposals of one digest have one view and one payload, and no digest is
-- the zero hash of the default QC.
pub record IsHashing (c : Crypto) : Type 0 where
  pub proposals_differ :
      (p q : Proposal)
      → Proposal.digest c p ≡ Proposal.digest c q
      → (p.view ≡ q.view) × (p.payload ≡ q.payload)
  pub not_default : (p : Proposal) → Proposal.digest c p ≢ 0

module _ (env : Environment) where
  abbrev IsVoteFor : Vote → Type 0
  IsVoteFor v =
      (p : Proposal) × (v.proposal_hash ≡ Proposal.digest env.crypto p) × (v.view ≡ p.view)

  -- A vote that is made is for a proposal and its view.
  made-IsVoteFor : {w u : Node env} (s : Step env w u) (v : Vote) → In v (made env s) → IsVoteFor v
  made-IsVoteFor {w} (votes p b q good cur e) v h =
      by_vote (make_vote env.crypto w.state p).0 refl h
    where
      by_vote :
          (o : Option Vote)
          → (make_vote env.crypto w.state p).0 ≡ o
          → In v (vote_list o)
          → IsVoteFor v
      by_vote none r h = absurd h
      by_vote (some x) r (inl e) =
          let i = make_vote-IsVoteOn env.crypto w.state p x r in
          (p, ap (λ t. t.proposal_hash) e ∙ i.for_digest, ap (λ t. t.view) e ∙ i.for_view)
      by_vote (some x) r (inr h) = absurd h
  made-IsVoteFor {w} (sends_vote p x b q good cur r e) v (inl same) =
      let i = make_vote-IsVoteOn env.crypto w.state p x r in
      (p, ap (λ t. t.proposal_hash) same ∙ i.for_digest, ap (λ t. t.view) same ∙ i.for_view)
  made-IsVoteFor (sends_vote p x b q good cur r e) v (inr h) = absurd h
  made-IsVoteFor _ v h = absurd h

  votes_made-IsVoteFor :
      {w u : Node env} (r : Steps env w u) (v : Vote) → In v (votes_made env r) → IsVoteFor v
  votes_made-IsVoteFor done v h = absurd h
  votes_made-IsVoteFor (more r s) v h = elim (In-append v (votes_made env r) (made env s) h) [
    | inl early ↦ votes_made-IsVoteFor r v early
    | inr late ↦ made-IsVoteFor s v late
  ]

module _ (env : Environment) (digesting : IsDigesting env.crypto) (hashing : IsHashing env.crypto)
    (authorities : AuthorityList) (faulty : List AuthorityId)
    (replica : AuthorityId → Replica env) where
  -- The QC of a proposal's digest is not the default one.
  certifies :
      (qc : Qc) (p : Proposal)
      → qc.proposal_hash ≡ Proposal.digest env.crypto p
      → CarriesQc env.crypto authorities qc
      → Qc.verify env.crypto qc authorities ≡ ok tt
  certifies qc p e (inl default) = absurd (hashing.not_default p (sym e ∙ ground (arith, default)))
  certifies qc p e (inr valid) = verify_complete env.crypto qc authorities valid

  -- A QC of authorities for a proposal is for the proposal's view: an authority that is not faulty has
  -- voted for it.
  view_of_qc :
      IsUnforged env digesting authorities faulty replica
      → (qc : Qc) (p : Proposal) → 3 * length faulty ≤ length authorities
      → Qc.verify env.crypto qc authorities ≡ ok tt
      → Within (voters qc.votes) (ids authorities)
      → qc.proposal_hash ≡ Proposal.digest env.crypto p
      → qc.view ≡ p.view
  view_of_qc unforged qc p few good within e =
      let (id, here, again, honest) =
        quorum_intersection env.crypto qc qc authorities faulty good good within within few in
      let known = Within-elem (voters qc.votes) (ids authorities) id within here in
      let (v, cast, hash_v, view_v) =
        voted env digesting authorities faulty replica unforged qc id good known honest here in
      let (q, for_q, at_q) = votes_made-IsVoteFor env (replica id).steps v cast in
      let (same_view, same_payload) = hashing.proposals_differ p q (sym e ∙ sym hash_v ∙ for_q) in
      sym view_v ∙ at_q ∙ sym same_view

  module _ (laws : StoreLaws env) (aux : AuxLaws env) where
    all_at :
        (P : Finalization → Type 0) (x : Finalization) (xs : List Finalization)
        → All P xs
        → In x xs
        → P x
    all_at P x [] a h = absurd h
    all_at P x (y ∷ xs) a (inl e) = subst P (sym e) a.0
    all_at P x (y ∷ xs) a (inr h) = all_at P x xs a.1 h

    -- No two blocks of one view are finalized. Two replicas that started with a sound store, whatever
    -- they have done and whether or not their own keys are faulty, have finalized the same payload in a view, if the
    -- QCs for the two blocks have only authorities for voters. This is if at most a third of the authorities are
    -- faulty, signatures are not forged, digests do not collide, and the store keeps what is written.
    pub finality :
        (x y : Finalization) (a b : Replica env)
        → IsUnforged env digesting authorities faulty replica
        → 3 * length faulty ≤ length authorities
        → HasSoundStore env authorities a.start
        → HasSoundStore env authorities b.start
        → In x (finalized env a.steps)
        → In y (finalized env b.steps)
        → Within (voters x.parent.qc.votes) (ids authorities)
        → Within (voters y.parent.qc.votes) (ids authorities)
        → x.grandpa.view ≡ y.grandpa.view
        → x.grandpa.payload ≡ y.grandpa.payload
    finality x y a b unforged few sound_a sound_b in_x in_y within_x within_y same_view =
        let two = IsTwoChain env authorities in
        let cx =
          all_at two x _ (finalized-IsTwoChain env authorities laws aux a.steps sound_a) in_x in
        let cy =
          all_at two y _ (finalized-IsTwoChain env authorities laws aux b.steps sound_b) in_y in
        let good_x = certifies x.parent.qc x.grandpa cx.for_grandpa cx.parent_qc in
        let good_y = certifies y.parent.qc y.grandpa cy.for_grandpa cy.parent_qc in
        let view_x = view_of_qc unforged x.parent.qc x.grandpa few good_x within_x cx.for_grandpa in
        let view_y = view_of_qc unforged y.parent.qc y.grandpa few good_y within_y cy.for_grandpa in
        let one =
          agreement env digesting authorities faulty replica x.parent.qc y.parent.qc unforged few
            good_x good_y within_x within_y (view_x ∙ same_view ∙ sym view_y) in
        (hashing.proposals_differ x.grandpa y.grandpa (sym cx.for_grandpa ∙ one ∙ cy.for_grandpa)).1
