-- ===== src/Aggregator/QcMaking.antt =====
-- From votes to a QC (aggregator.rs): what the makers hold, and what comes out of them.
pub mod Progress
pub mod Order
use substrate_hot_stuff.Prelude.{
  ℕ, zero, suc, ◌+◌, ◌≤◌, ◌<◌, ◌≡◌, refl, sym, List, [], ◌∷◌, ◌++◌, map, Bool, true, false, Option,
  none, some, length, length-append, any, elem, All, All-append, Distinct, Within, ltb, ◌==◌,
  if◌then◌else◌, ◌&&◌, ◌⊎◌, subst, put, Bool-cases, inl, inr, get_or, get_or-put, arith,
}
use substrate_hot_stuff.Primitives.{
  Hash, AuthorityId, AuthoritySignature, ViewNumber, AuthorityList, Result, ok, err, panic,
  exhausted, null_signature,
}
use substrate_hot_stuff.Crypto.{Crypto}
use substrate_hot_stuff.Message.Qc.{Qc}
use substrate_hot_stuff.Message.Qc
use substrate_hot_stuff.Message.Vote.{Vote}
use substrate_hot_stuff.Message.Vote
use substrate_hot_stuff.Message.Quorum.{voters, ids, quorum, IsValidQc, verify_complete}
use substrate_hot_stuff.Message.Authenticity.{IsAuthentic, verify_vote_iff}
use substrate_hot_stuff.Aggregator.{
  QcMaker, new_qc_maker, append_vote, append_qc, Aggregator, new, qc_maker, put_qc_maker, add_vote,
}

any-elem :
    (a : ℕ) (votes : List (AuthorityId × AuthoritySignature))
    → any (λ v. v.0 == a) votes ≡ elem a (voters votes)
any-elem a [] = refl
any-elem a ((id, s) ∷ votes) = ground (arith, any-elem a votes)

voters-snoc :
    (votes : List (AuthorityId × AuthoritySignature)) (id : AuthorityId) (s : AuthoritySignature)
    → voters (votes ++ (id, s) ∷ []) ≡ voters votes ++ id ∷ []
voters-snoc [] id s = refl
voters-snoc (v ∷ votes) id s = rw (voters-snoc votes id s)

elem-snoc :
    (a b : ℕ) (xs : List ℕ) → elem a xs ≡ false → (b == a) ≡ false → elem a (xs ++ b ∷ []) ≡ false
elem-snoc a b [] h k = ground arith
elem-snoc a b (x ∷ xs) h k = ground (arith, elem-snoc a b xs)

Distinct-snoc : (xs : List ℕ) (a : ℕ) → Distinct xs → elem a xs ≡ false → Distinct (xs ++ a ∷ [])
Distinct-snoc [] a d h = (refl, tt)
Distinct-snoc (x ∷ xs) a d h =
    (elem-snoc x a xs d.0 (ground arith), Distinct-snoc xs a d.1 (ground arith))

-- What a maker of votes for one digest holds.
pub record IsSound (c : Crypto) (authorities : AuthorityList) (d : Hash) (m : QcMaker)
    : Type 0 where
  pub counted : m.weight ≡ length m.votes
  pub distinct : Distinct (voters m.votes)
  pub signed : All (λ v. c.verify_signature v.1 d v.0 ≡ true) m.votes
  pub known : Within (voters m.votes) (ids authorities)

module _ (c : Crypto) (authorities : AuthorityList) where
  -- Every maker of the aggregator is sound for its digest.
  pub record AllSound (a : Aggregator) : Type 0 where
    pub at_key : (view : ViewNumber) (d : Hash) → IsSound c authorities d (qc_maker a view d)

  pub AllSound-new : AllSound new
  unfolding qc_maker get_or
  AllSound-new = record {
    at_key = λ view d. record { counted = refl; distinct = tt; signed = tt; known = tt };
  }

  append_vote-IsSound :
      (m : QcMaker) (vote : Vote) (s : AuthoritySignature)
      → IsSound c authorities (Vote.digest c vote) m
      → elem vote.voter (voters m.votes) ≡ false
      → c.verify_signature s (Vote.digest c vote) vote.voter ≡ true
      → elem vote.voter (ids authorities) ≡ true
      → IsSound c authorities (Vote.digest c vote) (append_vote m vote authorities (some s)).1
  unfolding append_vote
  append_vote-IsSound m vote s i fresh good known = record {
    counted = omega (arith, i.counted, length-append m.votes ((vote.voter, s) ∷ []));
    distinct =
        rw (voters-snoc m.votes vote.voter s)
          (Distinct-snoc (voters m.votes) vote.voter i.distinct fresh);
    signed = All-append _ m.votes _ i.signed (good, tt);
    known =
        rw (voters-snoc m.votes vote.voter s) (All-append _ (voters m.votes) _ i.known (known, tt));
  }

  append_qc-IsSound :
      (m : QcMaker) (vote : Vote)
      → IsSound c authorities (Vote.digest c vote) m
      → IsAuthentic c authorities vote.signature (Vote.digest c vote) vote.voter
      → IsSound c authorities (Vote.digest c vote) (append_qc m vote authorities).1
  unfolding append_qc
  append_qc-IsSound m vote i h = elim (Bool-cases (elem vote.voter (voters m.votes))) [
    | inl old ↦ rw (any-elem vote.voter m.votes, old) i
    | inr fresh ↦
        rw (any-elem vote.voter m.votes, fresh)
          (simp h.present (append_vote-IsSound m vote h.value i fresh h.valid h.known))
  ]

  qc_maker-put :
      (a : Aggregator) (view other : ViewNumber) (d e : Hash) (m : QcMaker)
      → qc_maker (put_qc_maker a view d m) other e
        ≡ (if view == other && d == e then m else qc_maker a other e)
  unfolding qc_maker put_qc_maker
  qc_maker-put a view other d e m = ground (
    arith,
    get_or-put [] view other (put d m (get_or [] view a.votes_aggregator)) a.votes_aggregator,
    get_or-put new_qc_maker d e m (get_or [] view a.votes_aggregator),
  )

  -- Adding a vote that verifies keeps every `QCMaker` sound, whatever `add_vote` returns: its voters
  -- are different authorities, each signed the digest it is kept under, and its weight counts them.
  pub add_vote-AllSound :
      (a : Aggregator) (vote : Vote)
      → AllSound a
      → Vote.verify c vote authorities ≡ ok tt
      → AllSound (add_vote c a vote authorities).1
  unfolding add_vote
  add_vote-AllSound a vote s e = record {
    at_key = λ view d.
        rw (qc_maker-put a vote.view view (Vote.digest c vote) d _)
          (choose view d (Bool-cases (vote.view == view && Vote.digest c vote == d)));
  }
    where
      kept :
          IsSound c authorities
            (Vote.digest c vote)
            (append_qc (qc_maker a vote.view (Vote.digest c vote)) vote authorities).1
      kept =
          append_qc-IsSound _ vote (s.at_key vote.view (Vote.digest c vote))
            ((verify_vote_iff c authorities vote).0 e)

      choose :
          (view : ViewNumber) (d : Hash)
          → ((vote.view == view && Vote.digest c vote == d) ≡ true)
            ⊎ ((vote.view == view && Vote.digest c vote == d) ≡ false)
          → IsSound c authorities d (
              if vote.view == view && Vote.digest c vote == d
              then (append_qc (qc_maker a vote.view (Vote.digest c vote)) vote authorities).1
              else qc_maker a view d)
      choose view d (inl hit) = rw hit (
          subst
            (λ k.
              IsSound c authorities k
                (append_qc (qc_maker a vote.view (Vote.digest c vote)) vote authorities).1)
            (ground arith) kept)
      choose view d (inr miss) = rw miss (s.at_key view d)

  append_qc-IsValid :
      (m : QcMaker) (vote : Vote) (qc : Qc)
      → IsSound c authorities (Vote.digest c vote) m
      → IsAuthentic c authorities vote.signature (Vote.digest c vote) vote.voter
      → (append_qc m vote authorities).0 ≡ ok (some qc)
      → (quorum (length authorities) ≤ length qc.votes)
        × (qc.proposal_hash ≡ vote.proposal_hash)
        × (qc.view ≡ vote.view)
        × (qc.votes ≡ (append_qc m vote authorities).1.votes)
  unfolding append_qc append_vote
  append_qc-IsValid m vote qc i h e =
      ground (arith, i.counted, length-append m.votes ((vote.voter, h.value) ∷ []), h.present)

  same_digest :
      (qc : Qc) (vote : Vote)
      → qc.proposal_hash ≡ vote.proposal_hash
      → qc.view ≡ vote.view
      → Qc.digest c qc ≡ Vote.digest c vote
  unfolding Qc.digest Vote.digest
  same_digest qc vote p q = rw (p, q)

  -- A QC that `add_vote` hands out, on a verified vote and sound makers, passes `QC::verify`; every voter on it is
  -- an authority; and it is for the proposal and the view of that vote.
  pub add_vote-verify :
      (a : Aggregator) (vote : Vote) (qc : Qc)
      → AllSound a
      → Vote.verify c vote authorities ≡ ok tt
      → (add_vote c a vote authorities).0 ≡ ok (some qc)
      → (Qc.verify c qc authorities ≡ ok tt)
        × Within (voters qc.votes) (ids authorities)
        × (qc.proposal_hash ≡ vote.proposal_hash)
        × (qc.view ≡ vote.view)
  unfolding add_vote
  add_vote-verify a vote qc s e r =
      let h = (verify_vote_iff c authorities vote).0 e in
      let m = qc_maker a vote.view (Vote.digest c vote) in
      let i = s.at_key vote.view (Vote.digest c vote) in
      let j = append_qc-IsSound m vote i h in
      let (enough, same_hash, same_view, held) = append_qc-IsValid m vote qc i h r in
      (
        verify_complete c qc authorities (record {
          distinct = rw held j.distinct;
          enough = enough;
          signed = rw (same_digest qc vote same_hash same_view, held) j.signed;
        }),
        rw held j.known,
        same_hash,
        same_view,
      )
