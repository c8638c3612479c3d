-- ===== src/Message/Authenticity.antt =====
-- Which votes, timeouts and proposals pass `verify` (message.rs), and in which order they fail.
use substrate_hot_stuff.Prelude.{
  ◌≡◌, refl, ◌↔◌, ◌⊎◌, inl, inr, [], ◌∷◌, true, Option, none, some, elem, if◌then◌else◌, not,
  Bool-cases, length, arith,
}
use substrate_hot_stuff.Primitives.{
  Hash, AuthorityId, AuthoritySignature, AuthorityList, ok, err, unknown_authority, ◌>>=◌, ◌>>◌,
  >>-eq-ok,
}
use substrate_hot_stuff.Crypto.{Crypto}
use substrate_hot_stuff.Message.Qc.{Qc}
use substrate_hot_stuff.Message.Qc
use substrate_hot_stuff.Message.Vote.{Vote}
use substrate_hot_stuff.Message.Vote
use substrate_hot_stuff.Message.Timeout.{Timeout}
use substrate_hot_stuff.Message.Timeout
use substrate_hot_stuff.Message.Proposal.{Proposal}
use substrate_hot_stuff.Message.Proposal
use substrate_hot_stuff.Message.Signed.{check_known, check_signature}
use substrate_hot_stuff.Message.Quorum.{ids, IsValidQc, verify_iff}

-- The search for the sender finds an entry exactly if the sender is on the list.
pub check_known-elem :
    (authorities : AuthorityList) (id : AuthorityId)
    → check_known authorities id
      ≡ (if elem id (ids authorities) then ok tt else err (unknown_authority id))
unfolding check_known
check_known-elem [] id = refl
check_known-elem ((a, w) ∷ rest) id = ground (arith, check_known-elem rest id)

-- A sender is authentic: it is an authority, and the signature is its own for the digest.
pub record IsAuthentic (c : Crypto) (authorities : AuthorityList)
    (signature : Option AuthoritySignature) (d : Hash) (sender : AuthorityId) : Type 0 where
  pub known : elem sender (ids authorities) ≡ true
  pub value : AuthoritySignature
  pub present : signature ≡ some value
  pub valid : c.verify_signature value d sender ≡ true

module _ (c : Crypto) (authorities : AuthorityList) where
  pub sender_sound :
      (signature : Option AuthoritySignature) (d : Hash) (sender : AuthorityId)
      → (check_known authorities sender >>= λ _. check_signature c signature d sender) ≡ ok tt
      → IsAuthentic c authorities signature d sender
  unfolding check_signature
  sender_sound none d sender e = absurd (ground (arith, check_known-elem authorities sender))
  sender_sound (some s) d sender e = record {
    known = ground (arith, check_known-elem authorities sender);
    value = s;
    present = refl;
    valid = ground (arith, check_known-elem authorities sender);
  }

  pub sender_complete :
      {signature : Option AuthoritySignature} {d : Hash} {sender : AuthorityId}
      → IsAuthentic c authorities signature d sender
      → (check_known authorities sender >>= λ _. check_signature c signature d sender) ≡ ok tt
  unfolding check_signature
  sender_complete {sender} h = ground (arith, check_known-elem authorities sender)

  -- A vote passes `Vote::verify` exactly if its voter is an authority and signed the vote's digest.
  pub verify_vote_iff :
      (vote : Vote)
      → (Vote.verify c vote authorities ≡ ok tt)
        ↔ IsAuthentic c authorities vote.signature (Vote.digest c vote) vote.voter
  unfolding Vote.verify
  verify_vote_iff vote = (sender_sound vote.signature _ vote.voter, λ h. sender_complete h)

  -- The QC that a message carries passes: it equals the default one, or it is valid.
  abbrev pub CarriesQc : Qc → Type 0
  CarriesQc qc = (Qc.equal qc Qc.default ≡ true) ⊎ IsValidQc c qc (length authorities)

  carries_sound :
      (qc : Qc)
      → (if not (Qc.equal qc Qc.default) then Qc.verify c qc authorities else ok tt) ≡ ok tt
      → CarriesQc qc
  carries_sound qc e = elim (Bool-cases (Qc.equal qc Qc.default)) [
    | inl same ↦ inl same
    | inr other ↦ inr ((verify_iff c qc authorities).0 (rw other at e))
  ]

  carries_complete :
      (qc : Qc)
      → CarriesQc qc
      → (if not (Qc.equal qc Qc.default) then Qc.verify c qc authorities else ok tt) ≡ ok tt
  carries_complete qc (inl same) = rw same
  carries_complete qc (inr valid) = ground (arith, (verify_iff c qc authorities).1 valid)

  -- The whole check of a message with a QC.
  message_iff :
      (signature : Option AuthoritySignature) (d : Hash) (sender : AuthorityId) (qc : Qc)
      → ((check_known authorities sender
            >> (check_signature c signature d sender
                >> (if not (Qc.equal qc Qc.default) then Qc.verify c qc authorities else ok tt)))
          ≡ ok tt)
        ↔ (IsAuthentic c authorities signature d sender × CarriesQc qc)
  message_iff signature d sender qc = (
    λ e.
        let (known, rest) = (>>-eq-ok _ _).0 e in
        let (signed, carried) = (>>-eq-ok _ _).0 rest in
        (
          sender_sound signature d sender ((>>-eq-ok _ _).1 (known, signed)),
          carries_sound qc carried,
        ),
    λ h.
        let (known, signed) = (>>-eq-ok _ _).0 (sender_complete h.0) in
        (>>-eq-ok _ _).1 (known, (>>-eq-ok _ _).1 (signed, carries_complete qc h.1)),
  )

  -- A timeout passes `Timeout::verify` exactly if its voter is an authority that signed the timeout's digest and
  -- its QC is the default one (by hash and view) or valid.
  pub verify_timeout_iff :
      (timeout : Timeout)
      → (Timeout.verify c timeout authorities ≡ ok tt) ↔ (
          IsAuthentic c authorities timeout.signature (Timeout.digest c timeout) timeout.voter
          × CarriesQc timeout.high_qc)
  unfolding Timeout.verify
  verify_timeout_iff timeout = message_iff timeout.signature _ timeout.voter timeout.high_qc

  -- A proposal passes `Proposal::verify` exactly if its author is an authority that signed the
  -- proposal's digest and its QC is the default one (by hash and view) or valid.
  pub verify_proposal_iff :
      (proposal : Proposal)
      → (Proposal.verify c proposal authorities ≡ ok tt) ↔ (
          IsAuthentic c authorities proposal.signature (Proposal.digest c proposal) proposal.author
          × CarriesQc proposal.qc)
  unfolding Proposal.verify
  verify_proposal_iff proposal = message_iff proposal.signature _ proposal.author proposal.qc
