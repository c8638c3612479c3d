-- ===== src/Aggregator/QcMaking/Order.antt =====
-- The order in which votes come (aggregator.rs, `Aggregator::add_vote`).
use mathlib.Core.List.{Permᴰ, append_assoc, append-nil}
use mathlib.Core.List.Permᴰ as Perm
use mathlib.Core.Quot
use substrate_hot_stuff.Prelude.{
  ◌+◌, ◌≤◌, ◌≡◌, refl, sym, ap, ◌∙◌, List, [], ◌∷◌, ◌++◌, Option, none, some, length, length-append,
  length-Permᴰ, All, All-Permᴰ, Distinct, Distinct-Permᴰ, get_or, arith,
}
use substrate_hot_stuff.Primitives.{
  Hash, AuthorityId, AuthoritySignature, ViewNumber, AuthorityList, Result, ok,
}
use substrate_hot_stuff.Crypto.{Crypto}
use substrate_hot_stuff.Message.Qc.{Qc}
use substrate_hot_stuff.Message.Vote.{Vote}
use substrate_hot_stuff.Message.Quorum.{voters, quorum}
use substrate_hot_stuff.Message.VoteBag.{SignedVote, bag_of}
use substrate_hot_stuff.Aggregator.{QcMaker, append_vote, Aggregator, new, qc_maker, add_vote}
use substrate_hot_stuff.Aggregator.QcMaking.{qc_maker-put}
use substrate_hot_stuff.Aggregator.QcMaking.Progress.{
  senders, Distinct-fresh, Distinct-front, IsFor, add_all, key, add_vote_call, add_vote_fresh,
  answer, started, next_is_fresh, weighed,
}

abbrev cons_signed : AuthorityId → Option AuthoritySignature → List SignedVote → List SignedVote
cons_signed id none rest = rest
cons_signed id (some s) rest = (id, s) ∷ rest

-- The voters with their signatures.
abbrev pub signed_of : List Vote → List SignedVote
signed_of [] = []
signed_of (v ∷ vs) = cons_signed v.voter v.signature (signed_of vs)

cons_signed-append :
    (id : AuthorityId) (o : Option AuthoritySignature) (xs ys : List SignedVote)
    → cons_signed id o (xs ++ ys) ≡ cons_signed id o xs ++ ys
cons_signed-append id none xs ys = refl
cons_signed-append id (some s) xs ys = refl

signed_of-append : (vs ws : List Vote) → signed_of (vs ++ ws) ≡ signed_of vs ++ signed_of ws
signed_of-append [] ws = refl
signed_of-append (v ∷ vs) ws =
    rw (signed_of-append vs ws)
      (cons_signed-append v.voter v.signature (signed_of vs) (signed_of ws))

cons_signed-Permᴰ :
    (id : AuthorityId) (o : Option AuthoritySignature) (xs ys : List SignedVote)
    → Permᴰ xs ys
    → Permᴰ (cons_signed id o xs) (cons_signed id o ys)
cons_signed-Permᴰ id none xs ys p = p
cons_signed-Permᴰ id (some s) xs ys p = Permᴰ.cons refl p

cons_signed_comm :
    (i j : AuthorityId) (o q : Option AuthoritySignature) (xs : List SignedVote)
    → Permᴰ (cons_signed i o (cons_signed j q xs)) (cons_signed j q (cons_signed i o xs))
cons_signed_comm i j none none xs = Perm.refl xs
cons_signed_comm i j none (some t) xs = Perm.refl _
cons_signed_comm i j (some s) none xs = Perm.refl _
cons_signed_comm i j (some s) (some t) xs = Permᴰ.swap refl refl

signed_of-Permᴰ : (vs ws : List Vote) → Permᴰ vs ws → Permᴰ (signed_of vs) (signed_of ws)
signed_of-Permᴰ [] [] Permᴰ.nil = Permᴰ.nil
signed_of-Permᴰ (v ∷ vs) (w ∷ ws) (Permᴰ.cons e p) =
    rw e (cons_signed-Permᴰ w.voter w.signature _ _ (signed_of-Permᴰ vs ws p))
signed_of-Permᴰ (a ∷ b ∷ vs) (x ∷ y ∷ _) (Permᴰ.swap e f) =
    rw (e, f) (cons_signed_comm y.voter x.voter y.signature x.signature (signed_of vs))
signed_of-Permᴰ vs ws (Permᴰ.trans {l₂ = us} p q) =
    Permᴰ.trans (signed_of-Permᴰ vs us p) (signed_of-Permᴰ us ws q)

senders-snoc : (vs : List Vote) (v : Vote) → senders (vs ++ v ∷ []) ≡ senders vs ++ v.voter ∷ []
senders-snoc [] v = refl
senders-snoc (u ∷ vs) v = rw (senders-snoc vs v) refl

same_qc :
    {h k : Hash} {v w : ViewNumber} {xs ys : List SignedVote}
    → h ≡ k
    → v ≡ w
    → xs ≡ ys
    → Path
        (Result (Option Qc))
        (ok (some (record { proposal_hash = h; view = v; votes = xs })))
        (ok (some (record { proposal_hash = k; view = w; votes = ys })))
same_qc p q r = rw (p, q, r) refl

All-unsnoc {ℓ κ} :
    {A : Type ℓ} (P : A → Type κ) (xs : List A) (x : A) → All P (xs ++ x ∷ []) → All P xs × P x
All-unsnoc P [] x h = (tt, h.0)
All-unsnoc P (y ∷ xs) x h = let (front, last) = All-unsnoc P xs x h.1 in ((h.0, front), last)

module _ (c : Crypto) (authorities : AuthorityList) (h : Hash) (view : ViewNumber) where
  add_vote_held :
      (a : Aggregator) (vote : Vote)
      → IsFor c authorities h view vote
      → Distinct (voters (qc_maker a view (key c authorities h view)).votes ++ vote.voter ∷ [])
      → (qc_maker (add_vote c a vote authorities).1 view (key c authorities h view)).votes
        ≡ (qc_maker a view (key c authorities h view)).votes ++ signed_of (vote ∷ [])
  unfolding append_vote
  add_vote_held a vote i d =
      let (s, signed, e) =
        add_vote_call c authorities h view a vote i (Distinct-fresh _ vote.voter [] d) in
      ap
        (λ (t : Result (Option Qc) × Aggregator).
          (qc_maker t.1 view (key c authorities h view)).votes)
        e
      ∙ rw
          (
            signed,
            qc_maker-put c authorities a view view (key c authorities h view)
                (key c authorities h view) _,
          )
          (ground arith)

  votes_after :
      (a : Aggregator) (vs : List Vote)
      → All (IsFor c authorities h view) vs
      → Distinct (voters (qc_maker a view (key c authorities h view)).votes ++ senders vs)
      → (qc_maker (add_all c authorities h view a vs) view (key c authorities h view)).votes
        ≡ (qc_maker a view (key c authorities h view)).votes ++ signed_of vs
  votes_after a [] i d = sym (append-nil _)
  votes_after a (v ∷ vs) i d =
      let before = (qc_maker a view (key c authorities h view)).votes in
      let next =
        Distinct-front (voters before ++ v.voter ∷ []) (senders vs)
          (rw (append_assoc (voters before) (v.voter ∷ []) (senders vs)) d) in
      let held = add_vote_held a v i.0 next in
      let fresh = Distinct-fresh (voters before) v.voter (senders vs) d in
      let grown = add_vote_fresh c authorities h view a v i.0 fresh in
      votes_after (add_vote c a v authorities).1 vs i.1
        (rw (grown, append_assoc (voters before) (v.voter ∷ []) (senders vs)) d)
      ∙ rw (held, append_assoc before (signed_of (v ∷ [])) (signed_of vs))
          (ap (λ t. before ++ t) (sym (signed_of-append (v ∷ []) vs)))

  starts_empty : (qc_maker new view (key c authorities h view)).votes ≡ []
  unfolding qc_maker get_or
  starts_empty = refl

  append_vote-quorum :
      (m : QcMaker) (vote : Vote) (s : AuthoritySignature)
      → quorum (length authorities) ≤ m.weight + 1
      → (append_vote m vote authorities (some s)).0
        ≡ ok (
            some (record {
              proposal_hash = vote.proposal_hash;
              view = vote.view;
              votes = m.votes ++ (vote.voter, s) ∷ [];
            }))
  unfolding append_vote
  append_vote-quorum m vote s many = ground (arith, many)

  last_signed :
      (vs : List Vote) (vote : Vote) (s : AuthoritySignature)
      → vote.signature ≡ some s
      → signed_of (vs ++ vote ∷ []) ≡ signed_of vs ++ (vote.voter, s) ∷ []
  last_signed vs vote s e = rw (signed_of-append vs (vote ∷ []), e) refl

  -- The QC at a quorum holds the votes so far.
  answer_votes :
      (vs : List Vote) (vote : Vote)
      → All (IsFor c authorities h view) vs
      → IsFor c authorities h view vote
      → Distinct (senders vs ++ vote.voter ∷ [])
      → quorum (length authorities) ≤ length vs + 1
      → answer c authorities h view vs vote
        ≡ ok (some (record { proposal_hash = h; view = view; votes = signed_of (vs ++ vote ∷ []) }))
  answer_votes vs vote all_for for d many =
      let empty = started c authorities h view vs vote all_for for d in
      let held : (qc_maker (add_all c authorities h view new vs) view
            (key c authorities h view)).votes
          ≡ signed_of vs =
        votes_after new vs all_for (rw empty (Distinct-front (senders vs) (vote.voter ∷ []) d))
        ∙ rw starts_empty refl in
      let m = qc_maker (add_all c authorities h view new vs) view (key c authorities h view) in
      let (s, signed, e) =
        add_vote_call c authorities h view (add_all c authorities h view new vs) vote for
          (next_is_fresh c authorities h view vs vote all_for for d) in
      ap (λ t. t.0) e
      ∙ append_vote-quorum m vote s
          (omega (arith, many, weighed c authorities h view vs vote all_for for d))
      ∙ same_qc for.same_hash for.same_view
          (ap (λ t. t ++ (vote.voter, s) ∷ []) held ∙ sym (last_signed vs vote s signed))

  -- The order in which votes arrive does not matter to the certificate. When the same verified votes of
  -- different voters, for one proposal and view and at least a quorum, are added to a new aggregator in
  -- two orders, both answers to the last vote are QCs, for that proposal and view, with the same bag of
  -- votes and signatures.
  pub answer-bag_of :
      (vs ws : List Vote) (v w : Vote)
      → Permᴰ (vs ++ v ∷ []) (ws ++ w ∷ [])
      → All (IsFor c authorities h view) (vs ++ v ∷ [])
      → Distinct (senders (vs ++ v ∷ []))
      → quorum (length authorities) ≤ length (vs ++ v ∷ [])
      → (a : Qc) × (b : Qc) × (answer c authorities h view vs v ≡ ok (some a))
        × (answer c authorities h view ws w ≡ ok (some b))
        × (a.proposal_hash ≡ b.proposal_hash)
        × (a.view ≡ b.view)
        × (bag_of a.votes ≡ bag_of b.votes)
  answer-bag_of vs ws v w p all_for d many = (
    record { proposal_hash = h; view = view; votes = signed_of (vs ++ v ∷ []) },
    record { proposal_hash = h; view = view; votes = signed_of (ws ++ w ∷ []) },
    whole vs v all_for d many,
    whole ws w (All-Permᴰ _ _ _ p all_for) (Distinct-Permᴰ _ _ (Perm.map _ p) d)
        (rw (← length-Permᴰ _ _ p) many),
    refl,
    refl,
    Quot.sound (signed_of-Permᴰ _ _ p),
  )
    where
      whole :
          (us : List Vote) (u : Vote)
          → All (IsFor c authorities h view) (us ++ u ∷ [])
          → Distinct (senders (us ++ u ∷ []))
          → quorum (length authorities) ≤ length (us ++ u ∷ [])
          → answer c authorities h view us u
            ≡ ok
                (some (record { proposal_hash = h; view = view; votes = signed_of (us ++ u ∷ []) }))
      whole us u i d many =
          let (front, last) = All-unsnoc _ us u i in
          answer_votes us u front last (rw (← senders-snoc us u) d)
            (omega (arith, many, length-append us (u ∷ [])))
