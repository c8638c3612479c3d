-- ===== src/Consensus/Voting.antt =====
-- consensus.rs, `ConsensusState`: a replica votes at most once in a view, whatever its callers do.
use substrate_hot_stuff.Prelude.{
  ◌≤◌, ◌<◌, ◌≡◌, refl, List, [], ◌∷◌, Option, none, some, inl, inr, ◌⊎◌, arith, Option-cases,
}
use substrate_hot_stuff.Primitives.{ViewNumber}
use substrate_hot_stuff.Crypto.{Crypto}
use substrate_hot_stuff.Message.Qc.{Qc}
use substrate_hot_stuff.Message.Vote.{Vote}
use substrate_hot_stuff.Message.Timeout.{Timeout}
use substrate_hot_stuff.Message.Proposal.{Proposal}
use substrate_hot_stuff.Message.Proposal
use substrate_hot_stuff.Consensus.State.{
  ConsensusState, local_authority_id, increase_last_voted_view, make_vote, add_vote, add_timeout,
  update_high_qc, advance_view_from_target,
}

-- The calls that change a `ConsensusState`.
pub data Op : Type 0 where
  timer_fired : Op
  votes_on : Proposal → Op
  adds_vote : Vote → Op
  adds_timeout : Timeout → Op
  updates_qc : Qc → Op
  advances : ViewNumber → Op

module _ (c : Crypto) where
  -- A vote is for the proposal's digest and view, in the name of the local authority, and takes
  -- the view: it was above the last one voted in, which it becomes.
  pub record IsVoteOn (s : ConsensusState) (p : Proposal) (v : Vote) (s' : ConsensusState)
      : Type 0 where
    pub for_digest : v.proposal_hash ≡ Proposal.digest c p
    pub for_view : v.view ≡ p.view
    pub by_local : local_authority_id s ≡ some v.voter
    pub fresh : s.last_voted_view < p.view
    pub taken : s'.last_voted_view ≡ p.view

  -- What a vote that `make_vote` returns says, and that its view is spent.
  pub make_vote-IsVoteOn :
      (s : ConsensusState) (p : Proposal) (v : Vote)
      → (make_vote c s p).0 ≡ some v
      → IsVoteOn s p v (make_vote c s p).1
  unfolding make_vote
  make_vote-IsVoteOn s p v e = ground arith

  -- The last voted view never falls.
  last_voted_view-make_vote :
      (s : ConsensusState) (p : Proposal) → s.last_voted_view ≤ (make_vote c s p).1.last_voted_view
  unfolding make_vote
  last_voted_view-make_vote s p = ground arith

  -- One call: the vote that it makes, if any, and the state after it.
  pub step : ConsensusState → Op → Option Vote × ConsensusState
  step s timer_fired = (none, increase_last_voted_view s)
  step s (votes_on p) = make_vote c s p
  step s (adds_vote v) = (none, (add_vote c s v).1)
  step s (adds_timeout t) = (none, (add_timeout s t).1)
  step s (updates_qc qc) = (none, update_high_qc s qc)
  step s (advances view) = (none, advance_view_from_target s view)

  abbrev cons? : Option Vote → List Vote → List Vote
  cons? none vs = vs
  cons? (some v) vs = v ∷ vs

  -- The votes made in a sequence of calls, in order.
  pub votes_of : ConsensusState → List Op → List Vote
  votes_of s [] = []
  votes_of s (op ∷ ops) = cons? (step s op).0 (votes_of (step s op).1 ops)

-- The views of the votes rise strictly, from above `n`.
abbrev pub Rising : ViewNumber → List Vote → Type 0
Rising n [] = Unit
Rising n (v ∷ vs) = (n < v.view) × Rising v.view vs

Rising-weaken : (m n : ViewNumber) (vs : List Vote) → m ≤ n → Rising n vs → Rising m vs
Rising-weaken m n [] h r = tt
Rising-weaken m n (v ∷ vs) h r = (omega arith, r.1)

module _ (c : Crypto) where
  -- A call makes a vote above the last voted view, which it becomes, or keeps that view or raises
  -- it.
  step_cases :
      (s : ConsensusState) (op : Op)
      → ((v : Vote) × ((step c s op).0 ≡ some v)
          × (s.last_voted_view < v.view)
          × ((step c s op).1.last_voted_view ≡ v.view))
        ⊎ (((step c s op).0 ≡ none) × (s.last_voted_view ≤ (step c s op).1.last_voted_view))
  unfolding step increase_last_voted_view add_vote add_timeout update_high_qc
      advance_view_from_target
  step_cases s timer_fired = inr (refl, omega arith)
  step_cases s (votes_on p) = elim (Option-cases (make_vote c s p).0) [
    | inl e ↦ inr (e, last_voted_view-make_vote c s p)
    | inr (v, e) ↦ let i = make_vote-IsVoteOn c s p v e in inl (v, e, ground arith, ground arith)
  ]
  step_cases s _ = inr (refl, ground arith)

  -- In every sequence of calls, with any proposals, votes, certificates and timer ticks, the
  -- views of the votes made rise strictly from above the last voted view: no view has two votes.
  votes_of-Rising :
      (s : ConsensusState) (ops : List Op) → Rising s.last_voted_view (votes_of c s ops)
  unfolding votes_of
  votes_of-Rising s [] = tt
  votes_of-Rising s (op ∷ ops) =
      let rest = votes_of-Rising (step c s op).1 ops in
      elim (step_cases s op) [
        | inl (v, e, above, same) ↦ rw e (above, rw same at rest)
        | inr (e, le) ↦ rw e (Rising-weaken _ _ _ le rest)
      ]
