-- ===== src/Worker/Constant.antt =====
-- What no step of a replica changes: its keystore and its authorities.
use substrate_hot_stuff.Prelude.{◌≡◌, refl, ◌∙◌, arith, Bool-cases, inl, inr, leb}
use substrate_hot_stuff.Primitives.{AuthorityList}
use substrate_hot_stuff.Crypto.{Keystore, Crypto}
use substrate_hot_stuff.Environment.{Environment}
use substrate_hot_stuff.Message.Qc.{Qc}
use substrate_hot_stuff.Message.Proposal.{Proposal}
use substrate_hot_stuff.Consensus.State.{
  ConsensusState, make_vote, add_vote, add_timeout, increase_last_voted_view, update_high_qc,
  advance_view_from_target,
}
use substrate_hot_stuff.Worker.Defs.{Worker, advance, handle_qc}
use substrate_hot_stuff.Worker.Proposals.{Node}
use substrate_hot_stuff.Worker.Steps.{
  Step, keeps_books, polls, follows_qc, counts_vote, completes_qc, counts_timeout, advances,
  times_out, votes, sends_vote, proposes, sends_timeout, sends_tc, saves, finalizes, Steps, done,
  more,
}

-- The part of the state that stays.
abbrev pub fixed : ConsensusState → Keystore × AuthorityList
fixed s = (s.keystore, s.authorities)

fixed-make_vote :
    (c : Crypto) (s : ConsensusState) (p : Proposal) → fixed (make_vote c s p).1 ≡ fixed s
unfolding make_vote
fixed-make_vote c s p = ground arith

fixed-update : (s : ConsensusState) (qc : Qc) → fixed (update_high_qc s qc) ≡ fixed s
unfolding update_high_qc
fixed-update s qc = ground arith

fixed-advance_view :
    (s : ConsensusState) (view : _) → fixed (advance_view_from_target s view) ≡ fixed s
unfolding advance_view_from_target
fixed-advance_view s view = ground arith

module _ {Chain : Type 0} where
  pub fixed-handle_qc : (qc : Qc) (w : Worker Chain) → fixed (handle_qc qc w).state ≡ fixed w.state
  unfolding handle_qc advance
  fixed-handle_qc qc w = elim (Bool-cases (leb w.state.view qc.view)) [
    | inl e ↦ rw (e, handle_qc) (fixed-update _ qc ∙ fixed-advance_view w.state qc.view)
    | inr e ↦ rw (e, handle_qc) refl
  ]

module _ (env : Environment) where
  pub Step-fixed : {w u : Node env} → Step env w u → fixed u.state ≡ fixed w.state
  unfolding advance add_vote add_timeout increase_last_voted_view
  Step-fixed (keeps_books b q r n e) = rw e
  Step-fixed (polls imported finalized e) = rw e
  Step-fixed {w} (follows_qc qc cert e) = rw e (fixed-handle_qc qc w)
  Step-fixed (counts_vote vote good e) = rw e
  Step-fixed (completes_qc vote qc good r e) = rw e (fixed-handle_qc qc _)
  Step-fixed (counts_timeout t good e) = rw e
  Step-fixed {w} (advances view le e) = rw e (fixed-advance_view w.state view)
  Step-fixed (times_out e) = rw e
  Step-fixed {w} (votes p b q good cur e) = rw e (fixed-make_vote env.crypto w.state p)
  Step-fixed {w} (sends_vote p v b q good cur r e) = rw e (fixed-make_vote env.crypto w.state p)
  Step-fixed (proposes p payload tc leads r e) = rw e
  Step-fixed (sends_timeout t r e) = rw e
  Step-fixed (sends_tc tc e) = rw e
  Step-fixed (saves p good e) = rw e
  Step-fixed (finalizes p parent grandpa good found view some_block fresh e) = rw e

  pub Steps-fixed : {w u : Node env} → Steps env w u → fixed u.state ≡ fixed w.state
  Steps-fixed done = refl
  Steps-fixed (more r s) = Step-fixed s ∙ Steps-fixed r
