-- ===== src/Worker/Safety/Stores.antt =====
-- synchronizer.rs and store.rs: the proposals that a store holds.
use substrate_hot_stuff.Prelude.{
  ◌≡◌, ◌≢◌, refl, ap, ◌∙◌, subst, none, ◌==◌, Bool-cases, inl, inr, arith,
}
use substrate_hot_stuff.Primitives.{Bytes, Hash, AuthorityList, ok, External, answered, failed}
use substrate_hot_stuff.Environment.{Environment, StoreLaws}
use substrate_hot_stuff.Message.Proposal.{Proposal}
use substrate_hot_stuff.Message.Proposal
use substrate_hot_stuff.Message.Authenticity.{CarriesQc}
use substrate_hot_stuff.Synchronizer.{save_proposal, get_proposal_parent, decoded}
use substrate_hot_stuff.Worker.Proposals.{Node}

-- What is relied on beside `StoreLaws`: finalizing a block, and a write that fails, leave the
-- auxiliary entries as they are.
pub record AuxLaws (env : Environment) : Type 0 where
  pub get_aux-finalize_block :
      (s : env.client.State) (hash : Hash) (key : Bytes)
      → env.client.get_aux (env.client.finalize_block s hash).1 key ≡ env.client.get_aux s key
  pub get_aux-insert_failed :
      (s t : env.client.State) (e : _) (key other value : Bytes)
      → env.client.insert_aux s key value ≡ (failed e, t)
      → env.client.get_aux t other ≡ env.client.get_aux s other

module _ (env : Environment) (authorities : AuthorityList) where
  -- What the store holds for a digest is a proposal with that digest, whose QC is the default one or valid.
  pub record IsSoundStore (chain : env.client.State) : Type 0 where
    pub sound :
        (child parent : Proposal)
        → get_proposal_parent env chain child ≡ ok parent
        → (child.qc.proposal_hash ≡ Proposal.digest env.crypto parent)
          × CarriesQc env.crypto authorities parent.qc

  -- A worker of these authorities with a sound store.
  pub record HasSoundStore (w : Node env) : Type 0 where
    pub same : w.state.authorities ≡ authorities
    pub store : IsSoundStore w.chain

  pub same_entries :
      (s t : env.client.State)
      → ((key : Bytes) → env.client.get_aux t key ≡ env.client.get_aux s key)
      → IsSoundStore s
      → IsSoundStore t
  unfolding get_proposal_parent
  same_entries s t same i = record { sound = λ child parent e. i.sound child parent (rw same at e) }

  -- A store without entries.
  pub empty-IsSoundStore :
      (chain : env.client.State)
      → ((key : Bytes) → env.client.get_aux chain key ≡ answered none)
      → IsSoundStore chain
  unfolding get_proposal_parent decoded
  empty-IsSoundStore chain empty = record {
    sound = λ child parent e.
        absurd (ground (arith, e, empty (env.codec.as_ref child.qc.proposal_hash)));
  }

  module _ (laws : StoreLaws env) (aux : AuxLaws env) where
    -- A proposal that was written is found by its digest only.
    written-IsSoundStore :
        (s t : env.client.State) (p : Proposal)
        → env.client.insert_aux s
            (env.codec.as_ref (Proposal.digest env.crypto p))
            (env.codec.encode_proposal p)
          ≡ (answered tt, t)
        → CarriesQc env.crypto authorities p.qc
        → IsSoundStore s
        → IsSoundStore t
    unfolding get_proposal_parent decoded
    written-IsSoundStore s t p written carried i = record {
      sound = λ child parent e.
          elim (Bool-cases (child.qc.proposal_hash == Proposal.digest env.crypto p)) [
            | inl hit ↦
                let same : child.qc.proposal_hash ≡ Proposal.digest env.crypto p = ground arith in
                let here : p ≡ parent =
                  ground (
                    arith,
                    e,
                    same,
                    laws.get_aux-insert_aux s t _ _ written,
                    laws.decode-encode p,
                  ) in
                (
                  same ∙ ap (Proposal.digest env.crypto) here,
                  subst (λ q. CarriesQc env.crypto authorities q.qc) here carried,
                )
            | inr miss ↦
                let differ : Proposal.digest env.crypto p ≢ child.qc.proposal_hash =
                  λ q. ground (arith, miss, q) in
                i.sound child parent (
                  rw
                    (← laws.get_aux-insert_aux_ne s t _ (env.codec.as_ref child.qc.proposal_hash) _
                      written (λ q. differ (laws.as_ref_injective _ _ q)))
                    e)
          ];
    }

    pub save_proposal-IsSoundStore :
        (s : env.client.State) (p : Proposal)
        → CarriesQc env.crypto authorities p.qc
        → IsSoundStore s
        → IsSoundStore (save_proposal env s p).1
    unfolding save_proposal
    save_proposal-IsSoundStore s p carried i =
        by_result
          (env.client.insert_aux s (env.codec.as_ref (Proposal.digest env.crypto p))
            (env.codec.encode_proposal p))
          refl
      where
        by_result :
            (x : External (Unit {0}) × env.client.State)
            → env.client.insert_aux s
                (env.codec.as_ref (Proposal.digest env.crypto p))
                (env.codec.encode_proposal p)
              ≡ x
            → IsSoundStore x.1
        by_result (answered tt, t) e = written-IsSoundStore s t p e carried i
        by_result (failed x, t) e =
            same_entries s t (λ key. aux.get_aux-insert_failed s t x _ key _ e) i
