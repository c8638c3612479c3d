-- ===== src/Worker/Safety/Certified.antt =====
-- consensus.rs, `ConsensusState`: the votes that a state has collected and the QC that it holds.
use substrate_hot_stuff.Prelude.{◌≡◌, some, inr, arith}
use substrate_hot_stuff.Primitives.{ViewNumber, AuthorityList, ok}
use substrate_hot_stuff.Crypto.{Crypto}
use substrate_hot_stuff.Message.Qc.{Qc}
use substrate_hot_stuff.Message.Vote.{Vote}
use substrate_hot_stuff.Message.Vote
use substrate_hot_stuff.Message.Timeout.{Timeout}
use substrate_hot_stuff.Message.Proposal.{Proposal}
use substrate_hot_stuff.Message.Quorum.{verify_sound}
use substrate_hot_stuff.Message.Authenticity.{CarriesQc}
use substrate_hot_stuff.Aggregator.{Aggregator}
use substrate_hot_stuff.Aggregator
use substrate_hot_stuff.Aggregator.QcMaking.{AllSound, add_vote-AllSound, add_vote-verify}
use substrate_hot_stuff.Consensus.State.{
  ConsensusState, verify_vote, make_vote, add_vote, add_timeout, update_high_qc,
  advance_view_from_target,
}
use substrate_hot_stuff.Worker.Defs.{Worker, advance, handle_qc}

module _ (c : Crypto) (authorities : AuthorityList) where
  -- The collected votes are genuine, and the high QC is the default one or valid.
  pub record IsCertified (s : ConsensusState) : Type 0 where
    pub same : s.authorities ≡ authorities
    pub sound : AllSound c authorities s.aggregator
    pub carried : CarriesQc c authorities s.high_qc

  pub handle_qc-IsCertified :
      {Chain : Type 0} (qc : Qc) (w : Worker Chain)
      → CarriesQc c authorities qc
      → IsCertified w.state
      → IsCertified (handle_qc qc w).state
  unfolding handle_qc advance update_high_qc advance_view_from_target
  handle_qc-IsCertified qc w cert i = record {
    same = ground (arith, i.same);
    sound = ground (arith, i.sound);
    carried = ground (arith, i.carried);
  }

  pub make_vote-IsCertified :
      (s : ConsensusState) (p : Proposal) → IsCertified s → IsCertified (make_vote c s p).1
  unfolding make_vote
  make_vote-IsCertified s p i = record {
    same = ground (arith, i.same);
    sound = ground (arith, i.sound);
    carried = ground (arith, i.carried);
  }

  pub advance_view-IsCertified :
      (s : ConsensusState) (view : ViewNumber)
      → IsCertified s
      → IsCertified (advance_view_from_target s view)
  unfolding advance_view_from_target
  advance_view-IsCertified s view i = record {
    same = ground (arith, i.same);
    sound = ground (arith, i.sound);
    carried = ground (arith, i.carried);
  }

  pub add_vote-IsCertified :
      (s : ConsensusState) (vote : Vote)
      → Vote.verify c vote authorities ≡ ok tt
      → IsCertified s
      → IsCertified (add_vote c s vote).1
  unfolding add_vote
  add_vote-IsCertified s vote good i = record {
    same = i.same;
    sound = rw i.same (add_vote-AllSound c authorities s.aggregator vote i.sound good);
    carried = i.carried;
  }

  pub add_timeout-IsCertified :
      (s : ConsensusState) (t : Timeout) → IsCertified s → IsCertified (add_timeout s t).1
  unfolding add_timeout Aggregator.add_timeout Aggregator.put_tc_maker
  add_timeout-IsCertified s t i = record {
    same = i.same;
    sound = record { at_key = λ view d. unfold Aggregator.qc_maker in i.sound.at_key view d };
    carried = i.carried;
  }

  -- The QC that a verified vote completes is valid.
  pub completed :
      (s : ConsensusState) (vote : Vote) (qc : Qc)
      → IsCertified s
      → Vote.verify c vote authorities ≡ ok tt
      → (add_vote c s vote).0 ≡ ok (some qc)
      → CarriesQc c authorities qc
  unfolding add_vote
  completed s vote qc i good e = inr (
      verify_sound c qc authorities
        (add_vote-verify c authorities s.aggregator vote qc i.sound good (rw i.same at e)).0)

  pub vote_of_state :
      (s : ConsensusState) (vote : Vote)
      → s.authorities ≡ authorities
      → verify_vote c s vote ≡ ok tt
      → Vote.verify c vote authorities ≡ ok tt
  unfolding verify_vote
  vote_of_state s vote same good = rw (← same) (ground arith)
