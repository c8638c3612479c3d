-- ===== src/Worker/Safety/Finality.antt =====
-- consensus.rs and synchronizer.rs: what a block that a worker finalizes has behind it.
use substrate_hot_stuff.Prelude.{
  ◌+◌, ◌%◌, ◌≡◌, ap, ◌∙◌, List, [], ◌∷◌, ◌++◌, false, ◌==◌, All, All-append, arith,
}
use substrate_hot_stuff.Primitives.{AuthorityList, u64_mod, ok}
use substrate_hot_stuff.Environment.{Environment, StoreLaws}
use substrate_hot_stuff.Message.Proposal.{Proposal}
use substrate_hot_stuff.Message.Proposal
use substrate_hot_stuff.Message.Authenticity.{CarriesQc}
use substrate_hot_stuff.Synchronizer.{get_proposal_parent, get_proposal_ancestors}
use substrate_hot_stuff.Consensus.State.{verify_proposal}
use substrate_hot_stuff.Worker.Defs.{advance, handle_qc, empty_payload_hash}
use substrate_hot_stuff.Worker.Proposals.{Node}
use substrate_hot_stuff.Worker.Steps.{
  Step, keeps_books, polls, follows_qc, counts_vote, completes_qc, counts_timeout, advances,
  times_out, votes, sends_vote, proposes, sends_timeout, sends_tc, saves, finalizes, Steps, done,
  more,
}
use substrate_hot_stuff.Worker.Constant.{Step-fixed}
use substrate_hot_stuff.Worker.Refines.Accepting.{verified_qc}
use substrate_hot_stuff.Worker.Safety.Stores.{
  AuxLaws, IsSoundStore, HasSoundStore, same_entries, save_proposal-IsSoundStore,
}

-- A block that was finalized: the proposal that let it be, that proposal's parent, and the block's own.
pub record Finalization : Type 0 where
  pub child : Proposal
  pub parent : Proposal
  pub grandpa : Proposal

module _ (env : Environment) where
  abbrev pub finalized_by : {w u : Node env} → Step env w u → List Finalization
  finalized_by (finalizes p parent grandpa good found view some_block fresh e) =
      record { child = p; parent = parent; grandpa = grandpa } ∷ []
  finalized_by _ = []

  -- The blocks for which `finalize_block` was called along the steps.
  abbrev pub finalized : {w u : Node env} → Steps env w u → List Finalization
  finalized done = []
  finalized (more r s) = finalized r ++ finalized_by s

  ancestors_found :
      (chain : env.client.State) (p parent grandpa : Proposal)
      → get_proposal_ancestors env chain p ≡ ok (parent, grandpa)
      → (get_proposal_parent env chain p ≡ ok parent)
        × (get_proposal_parent env chain parent ≡ ok grandpa)
  unfolding get_proposal_ancestors
  ancestors_found chain p parent grandpa e = ground (arith, e)

module _ (env : Environment) (authorities : AuthorityList) where
  -- Two QCs in a row, of consecutive views: one for the block and one for its child.
  pub record IsTwoChain (f : Finalization) : Type 0 where
    pub child_qc : CarriesQc env.crypto authorities f.child.qc
    pub for_parent : f.child.qc.proposal_hash ≡ Proposal.digest env.crypto f.parent
    pub parent_qc : CarriesQc env.crypto authorities f.parent.qc
    pub for_grandpa : f.parent.qc.proposal_hash ≡ Proposal.digest env.crypto f.grandpa
    pub consecutive : f.parent.view ≡ (f.grandpa.view + 1) % u64_mod
    pub has_block : (f.grandpa.payload.block_hash == empty_payload_hash env.crypto) ≡ false

  module _ (laws : StoreLaws env) (aux : AuxLaws env) where
    abbrev StaysSound : Node env → Node env → Type 0
    StaysSound w u = IsSoundStore env authorities w.chain → IsSoundStore env authorities u.chain

    carried_by :
        (w : Node env) (p : Proposal)
        → w.state.authorities ≡ authorities
        → verify_proposal env.crypto w.state p ≡ ok tt
        → CarriesQc env.crypto authorities p.qc
    carried_by w p same good = rw (← same) (verified_qc env w.state p good)

    chain-handle_qc : (qc : _) (w : Node env) → (handle_qc qc w).chain ≡ w.chain
    unfolding handle_qc advance
    chain-handle_qc qc w = ground arith

    Step-IsSoundStore :
        {w u : Node env} → w.state.authorities ≡ authorities → Step env w u → StaysSound w u
    unfolding advance
    Step-IsSoundStore same (keeps_books b q r n e) i = rw e i
    Step-IsSoundStore same (polls imported finalized e) i = rw e i
    Step-IsSoundStore {w} same (follows_qc qc cert e) i = rw (e, chain-handle_qc qc w) i
    Step-IsSoundStore same (counts_vote vote good e) i = rw e i
    Step-IsSoundStore same (completes_qc vote qc good r e) i = rw (e, chain-handle_qc qc _) i
    Step-IsSoundStore same (counts_timeout t good e) i = rw e i
    Step-IsSoundStore same (advances view le e) i = rw e i
    Step-IsSoundStore same (times_out e) i = rw e i
    Step-IsSoundStore same (votes p b q good cur e) i = rw e i
    Step-IsSoundStore same (sends_vote p v b q good cur r e) i = rw e i
    Step-IsSoundStore same (proposes p payload tc leads r e) i = rw e i
    Step-IsSoundStore same (sends_timeout t r e) i = rw e i
    Step-IsSoundStore same (sends_tc tc e) i = rw e i
    Step-IsSoundStore {w} same (saves p good e) i =
        rw e (
          save_proposal-IsSoundStore env authorities laws aux w.chain p (carried_by w p same good)
            i)
    Step-IsSoundStore {w} same (finalizes p parent grandpa good found view some_block fresh e) i =
        rw e (
          same_entries env authorities w.chain _
            (aux.get_aux-finalize_block w.chain grandpa.payload.block_hash) i)

    Steps-HasSoundStore :
        {w u : Node env}
        → Steps env w u
        → HasSoundStore env authorities w
        → HasSoundStore env authorities u
    Steps-HasSoundStore done h = h
    Steps-HasSoundStore (more r s) h =
        let before = Steps-HasSoundStore r h in
        record {
          same = ap (λ t. t.1) (Step-fixed env s) ∙ before.same;
          store = Step-IsSoundStore before.same s before.store;
        }

    finalized_by-IsTwoChain :
        {w u : Node env}
        → HasSoundStore env authorities w
        → (s : Step env w u) → All IsTwoChain (finalized_by env s)
    finalized_by-IsTwoChain {w} h (finalizes p parent grandpa good found view some_block fresh e) =
        let (up, upper) = ancestors_found env w.chain p parent grandpa found in
        let (first, carried) = h.store.sound p parent up in
        let (second, rest) = h.store.sound parent grandpa upper in
        (
          record {
            child_qc = carried_by w p h.same good;
            for_parent = first;
            parent_qc = carried;
            for_grandpa = second;
            consecutive = view;
            has_block = some_block;
          },
          tt,
        )
    finalized_by-IsTwoChain h _ = tt

    -- What it takes to finalize. Along any steps of a worker whose store is sound, every block that is
    -- finalized is not the empty payload and has two QCs in a row, each the default one or valid
    -- for the authorities: one for its proposal, in the proposal's child, and one for that child; and the
    -- child's view is the successor of its own.
    pub finalized-IsTwoChain :
        {w u : Node env} (r : Steps env w u)
        → HasSoundStore env authorities w
        → All IsTwoChain (finalized env r)
    finalized-IsTwoChain done h = tt
    finalized-IsTwoChain (more r s) h =
        All-append _ (finalized env r) (finalized_by env s) (finalized-IsTwoChain r h)
          (finalized_by-IsTwoChain (Steps-HasSoundStore r h) s)
