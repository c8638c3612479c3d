-- ===== src/Worker/Safety/Traces.antt =====
-- consensus.rs: what a worker has signed along its steps, by `make_vote`, `make_timeout` and
-- `make_proposal`.
use mathlib.Core.List.{append-nil}
use substrate_hot_stuff.Prelude.{
  sym, ◌<◌, ◌≡◌, refl, ap, ◌∙◌, List, [], ◌∷◌, ◌++◌, Option, none, some, Option-cases, ◌⊎◌, inl,
  inr, arith, map,
}
use substrate_hot_stuff.Primitives.{Hash, ViewNumber}
use substrate_hot_stuff.Environment.{Environment}
use substrate_hot_stuff.Message.Vote.{Vote}
use substrate_hot_stuff.Message.Vote
use substrate_hot_stuff.Message.Timeout
use substrate_hot_stuff.Message.Proposal
use substrate_hot_stuff.Consensus.State.{make_vote}
use substrate_hot_stuff.Consensus.Voting.{make_vote-IsVoteOn}
use substrate_hot_stuff.Worker.Proposals.{Node}
use substrate_hot_stuff.Worker.Steps.{
  Step, votes, sends_vote, proposes, sends_timeout, Steps, done, more,
}
use substrate_hot_stuff.Worker.Safety.Votes.{Climbs, Climbs-snoc, Climbs-weaken}
use substrate_hot_stuff.Worker.Safety.Views.{Step-Moves}

-- An element of a list.
abbrev pub In : {A : Type 0} → A → List A → Type 0
In a [] = ⊥
In a (b ∷ bs) = (a ≡ b) ⊎ In a bs

pub In-append : {A : Type 0} (a : A) (xs ys : List A) → In a (xs ++ ys) → In a xs ⊎ In a ys
In-append a [] ys h = inr h
In-append a (x ∷ xs) ys (inl e) = inl (inl e)
In-append a (x ∷ xs) ys (inr h) = elim (In-append a xs ys h) [ inl k ↦ inl (inr k) | inr k ↦ inr k ]

pub In-left : {A : Type 0} (a : A) (xs ys : List A) → In a xs → In a (xs ++ ys)
In-left a [] ys h = absurd h
In-left a (x ∷ xs) ys (inl e) = inl e
In-left a (x ∷ xs) ys (inr h) = inr (In-left a xs ys h)

pub In-right : {A : Type 0} (a : A) (xs ys : List A) → In a ys → In a (xs ++ ys)
In-right a [] ys h = h
In-right a (x ∷ xs) ys h = inr (In-right a xs ys h)

abbrev pub vote_list : Option Vote → List Vote
vote_list none = []
vote_list (some v) = v ∷ []

module _ (env : Environment) where
  -- The votes that a step makes, whether or not they are sent.
  abbrev pub made : {w u : Node env} → Step env w u → List Vote
  made {w} (votes p b q good cur e) = vote_list (make_vote env.crypto w.state p).0
  made (sends_vote p v b q good cur r e) = v ∷ []
  made _ = []

  abbrev pub votes_made : {w u : Node env} → Steps env w u → List Vote
  votes_made done = []
  votes_made (more r s) = votes_made r ++ made s

  -- The digests that a step has signed.
  abbrev pub signs : {w u : Node env} → Step env w u → List Hash
  signs {w} (votes p b q good cur e) =
      map (Vote.digest env.crypto) (vote_list (make_vote env.crypto w.state p).0)
  signs (sends_vote p v b q good cur r e) = Vote.digest env.crypto v ∷ []
  signs (proposes p payload tc leads r e) = Proposal.digest env.crypto p ∷ []
  signs (sends_timeout t r e) = Timeout.digest env.crypto t ∷ []
  signs _ = []

  abbrev pub signed : {w u : Node env} → Steps env w u → List Hash
  signed done = []
  signed (more r s) = signed r ++ signs s

  -- A step makes one vote above the last voted view, which it becomes, or none.
  made_cases :
      {w u : Node env} (s : Step env w u)
      → (made s ≡ [])
        ⊎ ((v : Vote) × (made s ≡ v ∷ [])
            × (w.state.last_voted_view < v.view)
            × (v.view ≡ u.state.last_voted_view))
  made_cases {w} {u} (votes p b q good cur e) =
      elim (Option-cases (make_vote env.crypto w.state p).0) [
        | inl none_made ↦ inl (rw none_made)
        | inr (v, r) ↦
            let i = make_vote-IsVoteOn env.crypto w.state p v r in
            inr (
              v,
              rw r,
              omega (arith, i.fresh, i.for_view),
              rw e (omega (arith, i.taken, i.for_view)),
            )
      ]
  made_cases {w} (sends_vote p v b q good cur r e) =
      let i = make_vote-IsVoteOn env.crypto w.state p v r in
      inr (v, refl, omega (arith, i.fresh, i.for_view), rw e (omega (arith, i.taken, i.for_view)))
  made_cases _ = inl refl

  -- The views of the votes made rise along any steps.
  pub votes_made-Climbs :
      {w u : Node env} (r : Steps env w u)
      → Climbs w.state.last_voted_view (votes_made r) u.state.last_voted_view
  votes_made-Climbs done = omega arith
  votes_made-Climbs {w} {u} (more {u = mid} r s) = elim (made_cases s) [
    | inl nothing ↦
        rw (nothing, append-nil)
          (Climbs-weaken w.state.last_voted_view (votes_made r) _ _ (Step-Moves env s).voted
            (votes_made-Climbs r))
    | inr (vote, e, above, last) ↦ rw e (
        Climbs-snoc w.state.last_voted_view (votes_made r) vote mid.state.last_voted_view _ above
          (omega (arith, last)) (votes_made-Climbs r))
  ]

-- Votes of rising views: two for one view are one.
Climbs-above :
    (low high : ViewNumber) (vs : List Vote) (v : Vote)
    → Climbs low vs high
    → In v vs
    → low < v.view
Climbs-above low high [] v c h = absurd h
Climbs-above low high (w ∷ vs) v c (inl e) = rw e c.0
Climbs-above low high (w ∷ vs) v c (inr h) = omega (arith, c.0, Climbs-above w.view high vs v c.1 h)

pub Climbs-unique :
    (low high : ViewNumber) (vs : List Vote) (v w : Vote)
    → Climbs low vs high
    → In v vs
    → In w vs
    → v.view ≡ w.view
    → v ≡ w
Climbs-unique low high [] v w c h k e = absurd h
Climbs-unique low high (x ∷ vs) v w c (inl p) (inl q) e = p ∙ sym q
Climbs-unique low high (x ∷ vs) v w c (inl p) (inr k) e =
    absurd (omega (arith, ap (λ t. t.view) p, e, Climbs-above x.view high vs w c.1 k))
Climbs-unique low high (x ∷ vs) v w c (inr h) (inl q) e =
    absurd (omega (arith, ap (λ t. t.view) q, e, Climbs-above x.view high vs v c.1 h))
Climbs-unique low high (x ∷ vs) v w c (inr h) (inr k) e = Climbs-unique x.view high vs v w c.1 h k e
