-- ===== src/Examples/Finalizing.antt =====
-- Seven replicas, of which 2 and 3 are faulty and lead the views 1 and 2. The other five vote for both
-- proposals, and two replicas finalize the first one's block.
use substrate_hot_stuff.Prelude.{
  All, ℕ, ◌≤◌, ◌≡◌, refl, sym, ◌∙◌, subst, [], ◌∷◌, true, false, none, elem, ◌==◌, arith, ◌⊎◌, inl,
  inr,
}
use substrate_hot_stuff.Primitives.{Hash, AuthorityId, ViewNumber, ok}
use substrate_hot_stuff.Environment.{StoreLaws}
use substrate_hot_stuff.Message.Qc.{Qc}
use substrate_hot_stuff.Message.Qc
use substrate_hot_stuff.Message.Vote.{Vote}
use substrate_hot_stuff.Message.Vote
use substrate_hot_stuff.Message.Proposal.{Proposal}
use substrate_hot_stuff.Message.Proposal
use substrate_hot_stuff.Message.Quorum.{ids}
use substrate_hot_stuff.Agreement.{Replica, IsUnforged}
use substrate_hot_stuff.Agreement.Finality.{finality}
use substrate_hot_stuff.Consensus.State.{
  new, advance_view_from_target, make_vote, verify_proposal, view_leader,
}
use substrate_hot_stuff.Worker.Defs
use substrate_hot_stuff.Synchronizer.{
  save_proposal, get_proposal_parent, get_proposal_ancestors, decoded,
}
use substrate_hot_stuff.Worker.Defs.{advance, empty_payload_hash}
use substrate_hot_stuff.Worker.Proposals.{Node}
use substrate_hot_stuff.Worker.Steps.{votes, advances, saves, finalizes, done, more}
use substrate_hot_stuff.Worker.Refines.Accepting.{verify_proposal-eq}
use substrate_hot_stuff.Worker.Safety.Traces.{In, signed}
use substrate_hot_stuff.Worker.Safety.Stores.{AuxLaws, HasSoundStore, empty-IsSoundStore}
use substrate_hot_stuff.Worker.Safety.Finality.{Finalization, IsTwoChain, finalized-IsTwoChain}
use substrate_hot_stuff.Examples.World.{toy_keystore}
use substrate_hot_stuff.Examples.Codec.{toy-StoreLaws}
use substrate_hot_stuff.Examples.Sevens.{
  seven, first_digest, second_digest, vote_digest, crypto, env, env-IsDigesting, env-IsHashing,
  first, second, third,
}

env-StoreLaws : StoreLaws env
env-StoreLaws = record {
  get_aux-insert_aux = toy-StoreLaws.get_aux-insert_aux;
  get_aux-insert_aux_ne = toy-StoreLaws.get_aux-insert_aux_ne;
  decode-encode = toy-StoreLaws.decode-encode;
  as_ref_injective = toy-StoreLaws.as_ref_injective;
}

env-AuxLaws : AuxLaws env
env-AuxLaws = record {
  get_aux-finalize_block = λ s hash key. refl;
  get_aux-insert_failed = λ s t e key other value r. absurd (ground (arith, r));
}

abbrev start : AuthorityId → Node env
start id = Defs.new (record (new (toy_keystore id) seven) { view = 1 }) [] [] false

starts_sound : (id : AuthorityId) → HasSoundStore env seven (start id)
starts_sound id = record { same = refl; store = empty-IsSoundStore env seven [] (λ key. refl) }

first_verified : (id : AuthorityId) → verify_proposal crypto (start id).state first ≡ ok tt
unfolding verify_proposal view_leader Proposal.verify Proposal.digest Qc.verify
first_verified id = refl

abbrev after_first : AuthorityId → Node env
after_first id = record (start id) { state = (make_vote crypto (start id).state first).1 }

abbrev in_second : AuthorityId → Node env
in_second id = advance 1 (after_first id)

in_first : (id : AuthorityId) → (after_first id).state.view ≤ 1
unfolding make_vote
in_first id = ground arith

in_second_state :
    (id : AuthorityId)
    → ((in_second id).state.view ≡ 2) × ((in_second id).state.authorities ≡ seven)
unfolding advance advance_view_from_target make_vote
in_second_state id = ground arith

second_verified_at_start :
    (id : AuthorityId) → verify_proposal crypto (start id).state second ≡ ok tt
unfolding verify_proposal view_leader Proposal.verify Proposal.digest Qc.verify
second_verified_at_start id = refl

second_verified : (id : AuthorityId) → verify_proposal crypto (in_second id).state second ≡ ok tt
second_verified id =
    verify_proposal-eq env (start 0).state (in_second id).state second (in_second_state id).1
    ∙ second_verified_at_start 0

abbrev replica : AuthorityId → Replica env
replica id = record {
  start = start id;
  end = record (in_second id) {
    state = (make_vote crypto (in_second id).state second).1;
    processing_block = none;
    proposal_hash_queue = [];
  };
  steps =
      more
        (more (more done (votes first none [] (first_verified id) refl refl))
          (advances 1 (in_first id) refl))
        (votes second none [] (second_verified id) (sym (in_second_state id).0) refl);
}

abbrev IsVoter : AuthorityId → Type 0
IsVoter id = (id ≡ 1) ⊎ ((id ≡ 4) ⊎ ((id ≡ 5) ⊎ ((id ≡ 6) ⊎ (id ≡ 7))))

IsVoter-cases :
    (id : AuthorityId) → elem id (ids seven) ≡ true → elem id (2 ∷ 3 ∷ []) ≡ false → IsVoter id
IsVoter-cases id known honest = ground arith

has_signed :
    (id : AuthorityId)
    → IsVoter id
    → In (vote_digest first_digest 1) (signed env (replica id).steps)
      × In (vote_digest second_digest 2) (signed env (replica id).steps)
unfolding make_vote Vote.digest Proposal.digest advance advance_view_from_target
has_signed id (inl e) = rw e (inl refl, inr (inl refl))
has_signed id (inr (inl e)) = rw e (inl refl, inr (inl refl))
has_signed id (inr (inr (inl e))) = rw e (inl refl, inr (inl refl))
has_signed id (inr (inr (inr (inl e)))) = rw e (inl refl, inr (inl refl))
has_signed id (inr (inr (inr (inr e)))) = rw e (inl refl, inr (inl refl))

signed_only :
    (id : AuthorityId) (s : ℕ) (d : Hash)
    → elem id (2 ∷ 3 ∷ []) ≡ false
    → crypto.verify_signature s d id ≡ true
    → (vote_digest first_digest 1 ≡ d) ⊎ (vote_digest second_digest 2 ≡ d)
signed_only id s d honest fits = ground arith

unforged : IsUnforged env env-IsDigesting seven (2 ∷ 3 ∷ []) replica
unforged = record {
  by_replica = λ id s d known honest fits.
      let (one, two) = has_signed id (IsVoter-cases id known honest) in
      elim (signed_only id s d honest fits) [
        | inl e ↦ subst (λ x. In x (signed env (replica id).steps)) e one
        | inr e ↦ subst (λ x. In x (signed env (replica id).steps)) e two
      ];
}

-- A replica that has stored the first two proposals.
abbrev stored : AuthorityId → Node env
stored id =
    let one : Node env = record (start id) {
      chain = (save_proposal env (start id).chain first).1;
    } in
    record one { chain = (save_proposal env one.chain second).1 }

third_verified :
    (id : AuthorityId)
    → (verify_proposal crypto (stored id).state (third 8 2) ≡ ok tt)
      × (verify_proposal crypto (stored id).state (third 9 3) ≡ ok tt)
unfolding verify_proposal view_leader Proposal.verify Proposal.digest Qc.verify
third_verified id = (refl, refl)

ancestors :
    (id view author : ℕ)
    → get_proposal_ancestors env (stored id).chain (third view author) ≡ ok (second, first)
unfolding get_proposal_ancestors get_proposal_parent save_proposal Proposal.digest decoded
ancestors id view author = refl

some_block : (first.payload.block_hash == empty_payload_hash crypto) ≡ false
unfolding empty_payload_hash
some_block = refl

-- A replica finalizes the first block, on a third proposal.
abbrev finalizing :
    (id view author : ℕ)
    → verify_proposal crypto (stored id).state (third view author) ≡ ok tt
    → Replica env
finalizing id view author good = record {
  start = start id;
  end = record (stored id) { chain = (env.client.finalize_block (stored id).chain 9).1 };
  steps =
      more
        (more (more done (saves first (first_verified id) refl))
          (saves second (second_verified_at_start id) refl))
        (finalizes (third view author) second first good (ancestors id view author) refl some_block
          refl refl);
}

abbrev made_final : ViewNumber → AuthorityId → Finalization
made_final view author = record { child = third view author; parent = second; grandpa = first }

finalized-IsTwoChain_example : All (IsTwoChain env seven) (made_final 8 2 ∷ [])
finalized-IsTwoChain_example =
    finalized-IsTwoChain env seven env-StoreLaws env-AuxLaws
      (finalizing 4 8 2 (third_verified 4).0).steps (starts_sound 4)

finality_example : (made_final 8 2).grandpa.payload ≡ (made_final 9 3).grandpa.payload
finality_example =
    finality env env-IsDigesting env-IsHashing seven (2 ∷ 3 ∷ []) replica env-StoreLaws env-AuxLaws
      (made_final 8 2) (made_final 9 3) (finalizing 4 8 2 (third_verified 4).0)
      (finalizing 5 9 3 (third_verified 5).1) unforged (omega arith) (starts_sound 4)
      (starts_sound 5) (inl refl) (inl refl) (refl, (refl, (refl, (refl, (refl, tt)))))
      (refl, (refl, (refl, (refl, (refl, tt))))) refl
