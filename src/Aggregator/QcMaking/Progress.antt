-- ===== src/Aggregator/QcMaking/Progress.antt =====
-- When enough votes make a QC (aggregator.rs).
use mathlib.Core.List.{append_assoc, append-nil}
use substrate_hot_stuff.Prelude.{
  ℕ, ◌+◌, ◌≤◌, ◌<◌, ◌≡◌, refl, sym, ap, List, [], ◌∷◌, ◌++◌, map, false, Option, none, some, length,
  length-map, elem, All, Distinct, ◌==◌, arith, ◌∙◌, get_or,
}
use substrate_hot_stuff.Primitives.{
  Hash, AuthorityId, AuthoritySignature, ViewNumber, AuthorityList, Result, ok,
}
use substrate_hot_stuff.Crypto.{Crypto}
use substrate_hot_stuff.Message.Qc.{Qc}
use substrate_hot_stuff.Message.Vote.{Vote}
use substrate_hot_stuff.Message.Vote
use substrate_hot_stuff.Message.Quorum.{voters, quorum}
use substrate_hot_stuff.Message.Authenticity.{verify_vote_iff}
use substrate_hot_stuff.Aggregator.{
  QcMaker, append_vote, append_qc, Aggregator, new, qc_maker, put_qc_maker, add_vote,
}
use substrate_hot_stuff.Aggregator.QcMaking.{
  any-elem, voters-snoc, AllSound, AllSound-new, add_vote-AllSound, qc_maker-put,
}

abbrev pub senders : List Vote → List AuthorityId
senders = map (λ v. v.voter)

elem-append : (x y : ℕ) (xs ys : List ℕ) → elem x (xs ++ y ∷ ys) ≡ false → (y == x) ≡ false
elem-append x y [] ys h = ground arith
elem-append x y (z ∷ xs) ys h = elem-append x y xs ys (ground arith)

elem_front : (x : ℕ) (xs ys : List ℕ) → elem x (xs ++ ys) ≡ false → elem x xs ≡ false
elem_front x [] ys h = refl
elem_front x (z ∷ xs) ys h = ground (arith, elem_front x xs ys)

pub Distinct-fresh :
    (xs : List ℕ) (y : ℕ) (ys : List ℕ) → Distinct (xs ++ y ∷ ys) → elem y xs ≡ false
Distinct-fresh [] y ys d = refl
Distinct-fresh (x ∷ xs) y ys d = ground (arith, Distinct-fresh xs y ys d.1, elem-append x y xs ys)

pub Distinct-front : (xs ys : List ℕ) → Distinct (xs ++ ys) → Distinct xs
Distinct-front [] ys d = tt
Distinct-front (x ∷ xs) ys d = (elem_front x xs ys d.0, Distinct-front xs ys d.1)

append_qc_fresh :
    (m : QcMaker) (vote : Vote) (authorities : AuthorityList) (s : AuthoritySignature)
    → vote.signature ≡ some s
    → elem vote.voter (voters m.votes) ≡ false
    → append_qc m vote authorities ≡ append_vote m vote authorities (some s)
unfolding append_qc
append_qc_fresh m vote authorities s e fresh = rw (any-elem vote.voter m.votes, fresh) (simp e refl)

module _ (c : Crypto) (authorities : AuthorityList) (h : Hash) (view : ViewNumber) where
  -- The votes are for one proposal in one view, and each verifies.
  pub record IsFor (vote : Vote) : Type 0 where
    pub same_hash : vote.proposal_hash ≡ h
    pub same_view : vote.view ≡ view
    pub verified : Vote.verify c vote authorities ≡ ok tt

  -- The votes are added one after another.
  abbrev pub add_all : Aggregator → List Vote → Aggregator
  add_all a [] = a
  add_all a (v ∷ vs) = add_all (add_vote c a v authorities).1 vs

  abbrev pub key : Hash
  key = c.hash_of (c.encode_hash h ++ c.encode_u64 view)

  IsFor-digest : (vote : Vote) → IsFor vote → Vote.digest c vote ≡ key
  unfolding Vote.digest
  IsFor-digest vote i = rw (i.same_hash, i.same_view)

  -- The call in which a new voter's verified vote is added.
  pub add_vote_call :
      (a : Aggregator) (vote : Vote)
      → IsFor vote
      → elem vote.voter (voters (qc_maker a view key).votes) ≡ false
      → (s : AuthoritySignature) × (vote.signature ≡ some s)
        × (add_vote c a vote authorities ≡ (
          (append_vote (qc_maker a view key) vote authorities (some s)).0,
          put_qc_maker a view key (append_vote (qc_maker a view key) vote authorities (some s)).1,
        ))
  unfolding add_vote
  add_vote_call a vote i fresh =
      let h = (verify_vote_iff c authorities vote).0 i.verified in
      (
        h.value,
        h.present,
        simp (IsFor-digest vote i, i.same_view)
            (rw (append_qc_fresh (qc_maker a view key) vote authorities h.value h.present fresh)),
      )

  pub add_vote_fresh :
      (a : Aggregator) (vote : Vote)
      → IsFor vote
      → elem vote.voter (voters (qc_maker a view key).votes) ≡ false
      → voters (qc_maker (add_vote c a vote authorities).1 view key).votes
        ≡ voters (qc_maker a view key).votes ++ vote.voter ∷ []
  unfolding append_vote
  add_vote_fresh a vote i fresh =
      let (s, signed, e) = add_vote_call a vote i fresh in
      rw e (
        rw (qc_maker-put c authorities a view view key key _)
          (ground (arith, voters-snoc (qc_maker a view key).votes vote.voter s)))

  senders_after :
      (a : Aggregator) (vs : List Vote)
      → All IsFor vs
      → Distinct (voters (qc_maker a view key).votes ++ senders vs)
      → voters (qc_maker (add_all a vs) view key).votes
        ≡ voters (qc_maker a view key).votes ++ senders vs
  senders_after a [] i d = sym (append-nil _)
  senders_after a (v ∷ vs) i d =
      let fresh = Distinct-fresh (voters (qc_maker a view key).votes) v.voter (senders vs) d in
      let held = add_vote_fresh a v i.0 fresh in
      senders_after (add_vote c a v authorities).1 vs i.1
        (rw (held, append_assoc (voters (qc_maker a view key).votes) (v.voter ∷ []) (senders vs)) d)
      ∙ rw (held, append_assoc (voters (qc_maker a view key).votes) (v.voter ∷ []) (senders vs))

  pub add_all-AllSound :
      (a : Aggregator) (vs : List Vote)
      → All IsFor vs
      → AllSound c authorities a
      → AllSound c authorities (add_all a vs)
  add_all-AllSound a [] i s = s
  add_all-AllSound a (v ∷ vs) i s =
      add_all-AllSound (add_vote c a v authorities).1 vs i.1
        (add_vote-AllSound c authorities a v s i.0.verified)

  -- The answer to the vote that comes after `vs`.
  abbrev pub answer : List Vote → Vote → Result (Option Qc)
  answer vs vote = (add_vote c (add_all new vs) vote authorities).0

  module _ (vs : List Vote) (vote : Vote) (all_for : All IsFor vs) (for : IsFor vote)
      (distinct : Distinct (senders vs ++ vote.voter ∷ [])) where
    pub started : voters (qc_maker new view key).votes ≡ []
    unfolding qc_maker get_or
    started = refl

    pub collected : voters (qc_maker (add_all new vs) view key).votes ≡ senders vs
    collected =
        senders_after new vs all_for
          (rw started (Distinct-front (senders vs) (vote.voter ∷ []) distinct))
        ∙ rw started

    pub next_is_fresh : elem vote.voter (voters (qc_maker (add_all new vs) view key).votes) ≡ false
    next_is_fresh = rw collected (Distinct-fresh (senders vs) vote.voter [] distinct)

    pub weighed : (qc_maker (add_all new vs) view key).weight ≡ length vs
    weighed = omega (
      arith,
      ((add_all-AllSound new vs all_for (AllSound-new c authorities)).at_key view key).counted,
      ap length collected,
      length-map (λ (v : AuthorityId × AuthoritySignature). v.0)
          (qc_maker (add_all new vs) view key).votes,
      length-map (λ (v : Vote). v.voter) vs,
    )

    -- When verified votes of different voters for one proposal and view are added to a new
    -- aggregator, the answer to each is `Ok(None)` while the votes are fewer than a quorum.
    answer_below_quorum : length vs + 1 < quorum (length authorities) → answer vs vote ≡ ok none
    unfolding append_vote
    answer_below_quorum few =
        let (s, signed, e) = add_vote_call (add_all new vs) vote for next_is_fresh in
        rw (e, answer) (ground (arith, weighed))

    -- When verified votes of different voters for one proposal and view are added to a new
    -- aggregator, the answer to each from the quorum on is a QC whose voters are all those so far.
    pub answer_at_quorum :
        quorum (length authorities) ≤ length vs + 1
        → (qc : Qc) × (answer vs vote ≡ ok (some qc))
          × (voters qc.votes ≡ senders vs ++ vote.voter ∷ [])
    unfolding append_vote
    answer_at_quorum many =
        let (s, signed, e) = add_vote_call (add_all new vs) vote for next_is_fresh in
        (
          record {
            proposal_hash = vote.proposal_hash;
            view = vote.view;
            votes = (qc_maker (add_all new vs) view key).votes ++ (vote.voter, s) ∷ [];
          },
          rw (e, answer) (ground (arith, weighed)),
          voters-snoc (qc_maker (add_all new vs) view key).votes vote.voter s ∙ rw collected,
        )
