-- ===== src/Worker/Safety/Signing.antt =====
-- consensus.rs, `make_proposal`, `make_timeout` and `make_vote`: what they sign.
use substrate_hot_stuff.Prelude.{
  ◌≡◌, refl, ◌∙◌, [], ◌∷◌, true, Option, none, some, inl, inr, ◌⊎◌, find, elem, arith, ap,
}
use substrate_hot_stuff.Primitives.{
  Bytes, Hash, AuthorityId, AuthoritySignature, AuthorityList, ok, External, answered, failed,
  map_err, other, ◌>>=◌,
}
use substrate_hot_stuff.Crypto.{Crypto, Keystore}
use substrate_hot_stuff.Message.Payload.{Payload}
use substrate_hot_stuff.Message.Tc.{Tc}
use substrate_hot_stuff.Message.Vote.{Vote}
use substrate_hot_stuff.Message.Vote
use substrate_hot_stuff.Message.Timeout.{Timeout}
use substrate_hot_stuff.Message.Timeout
use substrate_hot_stuff.Message.Proposal.{Proposal}
use substrate_hot_stuff.Message.Proposal
use substrate_hot_stuff.Message.Quorum.{ids}
use substrate_hot_stuff.Message.Authenticity.{
  IsAuthentic, CarriesQc, verify_vote_iff, verify_timeout_iff, verify_proposal_iff,
}
use substrate_hot_stuff.Consensus.State.{
  ConsensusState, local_authority_id, first, try_from, sign, make_proposal, make_timeout, make_vote,
  view_leader, is_leader, verify_proposal,
}
use substrate_hot_stuff.Consensus.Leader.{is_leader_iff}

-- What the consensus relies on: a signature that the keystore makes for an authority's key is
-- valid for that key.
pub record IsSigning (c : Crypto) (k : Keystore) : Type 0 where
  pub signs :
      (id : AuthorityId) (d : Hash) (bytes : Bytes) (s : AuthoritySignature)
      → k.sign_with id d ≡ answered (some bytes)
      → k.signature_from bytes ≡ some s
      → c.verify_signature s d id ≡ true

either {ℓ κ μ} : {A : Type ℓ} {B : Type κ} {C : Type μ} → (B → C) → A ⊎ B → A ⊎ C
either f (inl a) = inl a
either f (inr b) = inr (f b)

same_id : {o : Option AuthorityId} {a b : AuthorityId} → o ≡ some a → o ≡ some b → a ≡ b
same_id p q = ground arith

first-elem :
    (k : Keystore) (xs : AuthorityList) (id : AuthorityId)
    → first (find (λ a. k.has_keys a.0) xs) ≡ some id
    → elem id (ids xs) ≡ true
first-elem k [] id e = absurd (ground arith)
first-elem k ((a, w) ∷ xs) id e = ground (arith, first-elem k xs id)

-- The local authority is one of the authorities.
local_authority_id-elem :
    (s : ConsensusState) (id : AuthorityId)
    → local_authority_id s ≡ some id
    → elem id (ids s.authorities) ≡ true
unfolding local_authority_id
local_authority_id-elem s id e = first-elem s.keystore s.authorities id e

module _ (c : Crypto) (s : ConsensusState) (signing : IsSigning c s.keystore) where
  signed_by :
      (id : AuthorityId) (d : Hash) (o : External (Option Bytes)) (x : AuthoritySignature)
      → s.keystore.sign_with id d ≡ o
      → (map_err other o >>= λ bytes. ok (try_from s.keystore bytes)) ≡ ok (some x)
      → c.verify_signature x d id ≡ true
  signed_by id d (answered (some bytes)) x e p = signing.signs id d bytes x e (ground arith)
  signed_by id d (answered none) x e p = absurd (ground arith)
  signed_by id d (failed m) x e p = absurd (ground arith)

  -- A message that the local authority has signed is authentic.
  signed :
      (id : AuthorityId) (d : Hash) (o : Option AuthoritySignature)
      → local_authority_id s ≡ some id
      → sign s.keystore id d ≡ ok o
      → (o ≡ none) ⊎ IsAuthentic c s.authorities o d id
  unfolding sign
  signed id d none local e = inl refl
  signed id d (some x) local e = inr (record {
    known = local_authority_id-elem s id local;
    value = x;
    present = refl;
    valid = signed_by id d (s.keystore.sign_with id d) x refl e;
  })

  timeout_parts :
      (t : Timeout)
      → make_timeout c s ≡ ok t
      → (local_authority_id s ≡ some t.voter)
        × (sign s.keystore t.voter (Timeout.digest c t) ≡ ok t.signature)
        × (t.high_qc ≡ s.high_qc)
  unfolding make_timeout Timeout.digest
  timeout_parts t e = ground arith

  proposal_parts :
      (payload : Payload) (tc : Option Tc) (p : Proposal)
      → make_proposal c s payload tc ≡ ok p
      → (local_authority_id s ≡ some p.author)
        × (sign s.keystore p.author (Proposal.digest c p) ≡ ok p.signature)
        × (p.qc ≡ s.high_qc)
        × (p.view ≡ s.view)
  unfolding make_proposal Proposal.digest
  proposal_parts payload tc p e = ground arith

  vote_parts :
      (p : Proposal) (v : Vote)
      → (make_vote c s p).0 ≡ some v
      → (local_authority_id s ≡ some v.voter)
        × (sign s.keystore v.voter (Vote.digest c v) ≡ ok v.signature)
  unfolding make_vote Vote.digest
  vote_parts p v e = ground arith

  -- With a keystore whose signatures are valid, a vote that `make_vote` makes has no signature, or
  -- it passes `Vote::verify`.
  pub make_vote-verify :
      (p : Proposal) (v : Vote)
      → (make_vote c s p).0 ≡ some v
      → (v.signature ≡ none) ⊎ (Vote.verify c v s.authorities ≡ ok tt)
  make_vote-verify p v e =
      let (local, signature) = vote_parts p v e in
      either (λ h. (verify_vote_iff c s.authorities v).1 h)
        (signed v.voter _ v.signature local signature)

  -- With a keystore whose signatures are valid and a high QC that is the default one or valid, a
  -- timeout that `make_timeout` makes has no signature, or it passes `Timeout::verify`.
  pub make_timeout-verify :
      (t : Timeout)
      → CarriesQc c s.authorities s.high_qc
      → make_timeout c s ≡ ok t
      → (t.signature ≡ none) ⊎ (Timeout.verify c t s.authorities ≡ ok tt)
  make_timeout-verify t carried e =
      let (local, signature, qc) = timeout_parts t e in
      either (λ h. (verify_timeout_iff c s.authorities t).1 (h, rw qc carried))
        (signed t.voter _ t.signature local signature)

  -- With a keystore whose signatures are valid and a high QC that is the default one or valid, a
  -- proposal that `make_proposal` makes while the node leads its view has no signature, or it
  -- passes `verify_proposal`, the check of its author against the leader included.
  pub make_proposal-verify :
      (payload : Payload) (tc : Option Tc) (p : Proposal)
      → CarriesQc c s.authorities s.high_qc
      → is_leader s ≡ ok true
      → make_proposal c s payload tc ≡ ok p
      → (p.signature ≡ none) ⊎ (verify_proposal c s p ≡ ok tt)
  unfolding verify_proposal
  make_proposal-verify payload tc p carried leads e =
      let (local, signature, qc, view) = proposal_parts payload tc p e in
      let (id, mine, leader) = (is_leader_iff s).0 leads in
      let by_me : view_leader s p.view ≡ ok p.author =
        rw view (leader ∙ ap ok (same_id mine local)) in
      either
        (λ h.
          let good = (verify_proposal_iff c s.authorities p).1 (h, rw qc carried) in
          ground (arith, by_me, good))
        (signed p.author _ p.signature local signature)
