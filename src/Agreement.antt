-- ===== src/Agreement.antt =====
-- Several replicas together: message.rs (`QC::verify`), aggregator.rs and consensus.rs
-- (`ConsensusState::make_vote`, the handlers of `ConsensusWorker`). A replica is a sequence of steps
-- of a worker; replicas meet only in the certificates that their signatures make.
pub mod Finality
use substrate_hot_stuff.Prelude.{
  ℕ, subst, Bool-cases, ◌*◌, ◌≤◌, ◌≡◌, ◌≢◌, refl, sym, ap, ◌∙◌, List, [], ◌∷◌, ◌++◌, map, true,
  false, Option, none, some, inl, inr, length, elem, All, Within, ◌==◌, arith,
}
use substrate_hot_stuff.Primitives.{
  Hash, AuthorityId, AuthoritySignature, AuthorityList, ViewNumber, ok,
}
use substrate_hot_stuff.Crypto.{Crypto}
use substrate_hot_stuff.Environment.{Environment}
use substrate_hot_stuff.Message.Qc.{Qc}
use substrate_hot_stuff.Message.Qc
use substrate_hot_stuff.Message.Vote.{Vote}
use substrate_hot_stuff.Message.Vote
use substrate_hot_stuff.Message.Timeout.{Timeout}
use substrate_hot_stuff.Message.Timeout
use substrate_hot_stuff.Message.Proposal.{Proposal}
use substrate_hot_stuff.Message.Proposal
use substrate_hot_stuff.Message.Quorum.{voters, ids, verify_sound, quorum_intersection}
use substrate_hot_stuff.Consensus.State.{make_vote}
use substrate_hot_stuff.Worker.Proposals.{Node}
use substrate_hot_stuff.Worker.Handlers.{Event, run}
use substrate_hot_stuff.Worker.Steps.{
  Step, votes, sends_vote, proposes, sends_timeout, Steps, done, more,
}
use substrate_hot_stuff.Worker.Refines.Events.{run-Steps}
use substrate_hot_stuff.Worker.Safety.Traces.{
  In, In-append, In-left, In-right, vote_list, made, votes_made, signs, signed, votes_made-Climbs,
  Climbs-unique,
}

-- What the consensus relies on: the digests of two votes, and of a vote and another message, are
-- the same only for votes of one proposal in one view.
pub record IsDigesting (c : Crypto) : Type 0 where
  pub votes_differ :
      (h k : Hash) (v w : ViewNumber)
      → c.hash_of (c.encode_hash h ++ c.encode_u64 v)
        ≡ c.hash_of (c.encode_hash k ++ c.encode_u64 w)
      → (h ≡ k) × (v ≡ w)
  pub vote_not_timeout :
      (h : Hash) (v a b : ViewNumber)
      → c.hash_of (c.encode_hash h ++ c.encode_u64 v) ≢ c.hash_of (c.encode_u64 a ++ c.encode_u64 b)
  pub vote_not_proposal :
      (h : Hash) (v : ViewNumber) (p : Proposal)
      → c.hash_of (c.encode_hash h ++ c.encode_u64 v) ≢ Proposal.digest c p

module _ (env : Environment) where
  -- What a replica has done: a sequence of steps from some worker.
  pub record Replica : Type 0 where
    pub start : Node env
    pub end : Node env
    pub steps : Steps env start end

  -- A run of the code is one.
  abbrev pub replica_of : ℕ → List Event → Node env → Replica
  replica_of fuel events w = record {
    start = w;
    end = (run env fuel events w).1;
    steps = run-Steps env fuel events w;
  }

  module _ (digesting : IsDigesting env.crypto) where
    -- A signed digest that is a vote's is of a vote that was made.
    signs-made :
        {w u : Node env} (s : Step env w u) (h : Hash) (view : ViewNumber)
        → In
            (env.crypto.hash_of (env.crypto.encode_hash h ++ env.crypto.encode_u64 view))
            (signs env s)
        → (v : Vote) × In v (made env s) × (v.proposal_hash ≡ h) × (v.view ≡ view)
    unfolding Vote.digest Timeout.digest
    signs-made (sends_vote p v b q good cur r e) h view (inl x) =
        let (a, c) = digesting.votes_differ h v.proposal_hash view v.view x in
        (v, inl refl, sym a, sym c)
    signs-made (sends_vote p v b q good cur r e) h view (inr x) = absurd x
    signs-made (proposes p payload tc leads r e) h view (inl x) =
        absurd (digesting.vote_not_proposal h view p x)
    signs-made (proposes p payload tc leads r e) h view (inr x) = absurd x
    signs-made (sends_timeout t r e) h view (inl x) =
        absurd (digesting.vote_not_timeout h view t.view t.high_qc.view x)
    signs-made (sends_timeout t r e) h view (inr x) = absurd x
    signs-made {w} (votes p b q good cur e) h view x = by_vote (make_vote env.crypto w.state p).0 x
      where
        by_vote :
            (o : Option Vote)
            → In
                (env.crypto.hash_of (env.crypto.encode_hash h ++ env.crypto.encode_u64 view))
                (map (Vote.digest env.crypto) (vote_list o))
            → (v : Vote) × In v (vote_list o) × (v.proposal_hash ≡ h) × (v.view ≡ view)
        by_vote none x = absurd x
        by_vote (some v) (inl x) =
            let (a, c) = digesting.votes_differ h v.proposal_hash view v.view x in
            (v, inl refl, sym a, sym c)
        by_vote (some v) (inr x) = absurd x
    signs-made _ h view x = absurd x

    signed-made :
        {w u : Node env} (r : Steps env w u) (h : Hash) (view : ViewNumber)
        → In
            (env.crypto.hash_of (env.crypto.encode_hash h ++ env.crypto.encode_u64 view))
            (signed env r)
        → (v : Vote) × In v (votes_made env r) × (v.proposal_hash ≡ h) × (v.view ≡ view)
    signed-made done h view x = absurd x
    signed-made (more r s) h view x = elim (In-append _ (signed env r) (signs env s) x) [
      | inl early ↦
          let (v, here, a, c) = signed-made r h view early in
          (v, In-left v (votes_made env r) (made env s) here, a, c)
      | inr late ↦
          let (v, here, a, c) = signs-made s h view late in
          (v, In-right v (votes_made env r) (made env s) here, a, c)
    ]

-- The signature of a voter on a certificate.
signature_of :
    (P : AuthorityId → AuthoritySignature → Type 0) (vs : List (AuthorityId × AuthoritySignature))
    (id : AuthorityId)
    → All (λ v. P v.0 v.1) vs
    → elem id (voters vs) ≡ true
    → (s : AuthoritySignature) × P id s
signature_of P [] id a h = absurd (ground arith)
signature_of P ((voter, s) ∷ vs) id a h = elim (Bool-cases (voter == id)) [
  | inl same ↦ (s, subst (λ i. P i s) (ground arith) a.0)
  | inr other ↦ signature_of P vs id a.1 (ground arith)
]

Within-elem : (xs ys : List ℕ) (id : ℕ) → Within xs ys → elem id xs ≡ true → elem id ys ≡ true
Within-elem [] ys id w h = absurd (ground arith)
Within-elem (x ∷ xs) ys id w h = elim (Bool-cases (x == id)) [
  | inl same ↦ subst (λ i. elem i ys ≡ true) (ground arith) w.0
  | inr other ↦ Within-elem xs ys id w.1 (ground arith)
]

module _ (env : Environment) (digesting : IsDigesting env.crypto) (authorities : AuthorityList)
    (faulty : List AuthorityId) (replica : AuthorityId → Replica env) where
  -- What the consensus relies on: with the key of an authority that is not faulty only its replica
  -- signs, so a valid signature is for a digest that the replica has signed.
  pub record IsUnforged : Type 0 where
    pub by_replica :
        (id : AuthorityId) (s : AuthoritySignature) (d : Hash)
        → elem id (ids authorities) ≡ true
        → elem id faulty ≡ false
        → env.crypto.verify_signature s d id ≡ true
        → In d (signed env (replica id).steps)

  -- The vote behind the signature of an authority that is not faulty.
  pub voted :
      IsUnforged
      → (qc : Qc) (id : AuthorityId) → Qc.verify env.crypto qc authorities ≡ ok tt
      → elem id (ids authorities) ≡ true
      → elem id faulty ≡ false
      → elem id (voters qc.votes) ≡ true
      → (v : Vote) × In v (votes_made env (replica id).steps)
        × (v.proposal_hash ≡ qc.proposal_hash)
        × (v.view ≡ qc.view)
  unfolding Qc.digest
  voted unforged qc id good known honest here =
      let valid = verify_sound env.crypto qc authorities good in
      let (s, fits) =
        signature_of (λ i x. env.crypto.verify_signature x (Qc.digest env.crypto qc) i ≡ true)
          qc.votes id valid.signed here in
      signed-made env digesting (replica id).steps qc.proposal_hash qc.view
        (unforged.by_replica id s _ known honest fits)

  -- No fork in a view: two QCs that verify, with authorities for voters, of one view are for one
  -- proposal. This is if at most a third of the authorities are faulty, the replicas of the others
  -- have done any sequences of steps, with any messages, signatures are not forged, and digests do
  -- not collide.
  pub agreement :
      (a b : Qc)
      → IsUnforged
      → 3 * length faulty ≤ length authorities
      → Qc.verify env.crypto a authorities ≡ ok tt
      → Qc.verify env.crypto b authorities ≡ ok tt
      → Within (voters a.votes) (ids authorities)
      → Within (voters b.votes) (ids authorities)
      → a.view ≡ b.view
      → a.proposal_hash ≡ b.proposal_hash
  agreement a b unforged few good_a good_b within_a within_b same_view =
      let (id, in_a, in_b, honest) =
        quorum_intersection env.crypto a b authorities faulty good_a good_b within_a within_b few in
      let known = Within-elem (voters a.votes) (ids authorities) id within_a in_a in
      let (v, here_v, hash_v, view_v) = voted unforged a id good_a known honest in_a in
      let (w, here_w, hash_w, view_w) = voted unforged b id good_b known honest in_b in
      let r = (replica id).steps in
      let same : v ≡ w =
        Climbs-unique _ _ (votes_made env r) v w (votes_made-Climbs env r) here_v here_w
          (view_v ∙ same_view ∙ sym view_w) in
      sym hash_v ∙ ap (λ t. t.proposal_hash) same ∙ hash_w
