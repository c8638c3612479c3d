-- ===== src/Synchronizer/Ancestors.antt =====
-- synchronizer.rs: saved proposals are found again along the chain of QCs.
use substrate_hot_stuff.Prelude.{◌≡◌, ◌≢◌, ◌∙◌, arith}
use substrate_hot_stuff.Primitives.{ok, answered}
use substrate_hot_stuff.Message.Proposal.{Proposal}
use substrate_hot_stuff.Message.Proposal
use substrate_hot_stuff.Environment.{Environment, StoreLaws}
use substrate_hot_stuff.Synchronizer.{save_proposal, get_proposal_parent, get_proposal_ancestors}

module _ (env : Environment) (laws : StoreLaws env) where
  stored :
      (s t : env.client.State) (p : Proposal)
      → save_proposal env s p ≡ (ok tt, t)
      → env.client.insert_aux s
          (env.codec.as_ref (Proposal.digest env.crypto p))
          (env.codec.encode_proposal p)
        ≡ (answered tt, t)
  unfolding save_proposal
  stored s t p e = ground arith

  -- With the laws of the store, a proposal that was just saved is found as the parent of every
  -- proposal whose QC is for its digest.
  get_proposal_parent-save_proposal :
      (s t : env.client.State) (parent child : Proposal)
      → save_proposal env s parent ≡ (ok tt, t)
      → child.qc.proposal_hash ≡ Proposal.digest env.crypto parent
      → get_proposal_parent env t child ≡ ok parent
  unfolding get_proposal_parent
  get_proposal_parent-save_proposal s t parent child e link = rw link (
      ground
        (arith, laws.get_aux-insert_aux s t _ _ (stored s t parent e), laws.decode-encode parent))

  -- Saving a proposal changes no other proposal's entry.
  get_proposal_parent-save_proposal_ne :
      (s t : env.client.State) (saved child : Proposal)
      → save_proposal env s saved ≡ (ok tt, t)
      → Proposal.digest env.crypto saved ≢ child.qc.proposal_hash
      → get_proposal_parent env t child ≡ get_proposal_parent env s child
  unfolding get_proposal_parent
  get_proposal_parent-save_proposal_ne s t saved child e differ = rw (
      laws.get_aux-insert_aux_ne s t _ (env.codec.as_ref child.qc.proposal_hash) _
        (stored s t saved e) (λ q. differ (laws.as_ref_injective _ _ q)))

  -- With the laws of the store, after the grandparent and then the parent of a proposal have been
  -- saved, `get_proposal_ancestors` returns the two, if their digests differ.
  pub get_proposal_ancestors-save_proposal :
      (s t u : env.client.State) (grandpa parent child : Proposal)
      → save_proposal env s grandpa ≡ (ok tt, t)
      → save_proposal env t parent ≡ (ok tt, u)
      → parent.qc.proposal_hash ≡ Proposal.digest env.crypto grandpa
      → child.qc.proposal_hash ≡ Proposal.digest env.crypto parent
      → Proposal.digest env.crypto parent ≢ Proposal.digest env.crypto grandpa
      → get_proposal_ancestors env u child ≡ ok (parent, grandpa)
  unfolding get_proposal_ancestors
  get_proposal_ancestors-save_proposal s t u grandpa parent child p q up down differ = rw (
    get_proposal_parent-save_proposal t u parent child q down,
    get_proposal_parent-save_proposal_ne t u parent parent q (λ e. differ (e ∙ up)),
    get_proposal_parent-save_proposal s t grandpa parent p up,
  )
