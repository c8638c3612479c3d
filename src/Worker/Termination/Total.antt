-- ===== src/Worker/Termination/Total.antt =====
-- consensus.rs, message.rs, aggregator.rs: the functions that the handlers call, and `exhausted`.
use substrate_hot_stuff.Prelude.{
  ℕ, ◌+◌, ◌≢◌, List, [], ◌∷◌, Bool, true, false, Option, none, some, if◌then◌else◌, elem, not,
  arith,
}
use substrate_hot_stuff.Primitives.{
  Hash, AuthorityId, AuthoritySignature, AuthorityList, ViewNumber, HotstuffError, Result, ok, err,
  panic, exhausted, ◌>>=◌, External, answered, failed, map_err, fail_if, ok_or, unknown_authority,
}
use substrate_hot_stuff.Crypto.{Crypto}
use substrate_hot_stuff.Message.Qc.{Qc}
use substrate_hot_stuff.Message.Qc
use substrate_hot_stuff.Message.Tc.{Tc}
use substrate_hot_stuff.Message.Tc
use substrate_hot_stuff.Message.Vote.{Vote}
use substrate_hot_stuff.Message.Vote
use substrate_hot_stuff.Message.Timeout.{Timeout}
use substrate_hot_stuff.Message.Timeout
use substrate_hot_stuff.Message.Proposal.{Proposal}
use substrate_hot_stuff.Message.Proposal
use substrate_hot_stuff.Message.Quorum.{ids}
use substrate_hot_stuff.Message.Authenticity.{check_known-elem}
use substrate_hot_stuff.Message.Signed.{check_known, check_signature}
use substrate_hot_stuff.Consensus.State.{
  ConsensusState, leader_at, verify_timeout, verify_vote, verify_tc,
}

abbrev pub Returns {ℓ} : {A : Type ℓ} → Result A → Type 0
Returns exhausted = ⊥
Returns (ok a) = Unit
Returns (err e) = Unit
Returns panic = Unit

pub bind-Returns {ℓ κ} :
    {A : Type ℓ} {B : Type κ} (m : Result A) (f : A → Result B)
    → Returns m
    → ((a : A) → Returns (f a))
    → Returns (m >>= f)
bind-Returns (ok a) f h k = k a
bind-Returns (err e) f h k = tt
bind-Returns panic f h k = tt
bind-Returns exhausted f h k = h

pub if-Returns {ℓ} :
    {A : Type ℓ} (b : Bool) (x y : Result A) → Returns x → Returns y → Returns (if b then x else y)
if-Returns true x y h k = h
if-Returns false x y h k = k

pub map_err-Returns {ℓ} :
    {A : Type ℓ} (f : _ → HotstuffError) (r : External A) → Returns (map_err f r)
map_err-Returns f (answered a) = tt
map_err-Returns f (failed e) = tt

pub fail_if-Returns : (b : Bool) (e : HotstuffError) → Returns (fail_if b e)
fail_if-Returns true e = tt
fail_if-Returns false e = tt

pub ok_or-Returns {ℓ} : {A : Type ℓ} (o : Option A) (e : HotstuffError) → Returns (ok_or o e)
ok_or-Returns none e = tt
ok_or-Returns (some a) e = tt

pub not_exhausted {ℓ} : {A : Type ℓ} (r : Result A) → Returns r → r ≢ exhausted
not_exhausted (ok a) h e = absurd (ground arith)
not_exhausted (err x) h e = absurd (ground arith)
not_exhausted panic h e = absurd (ground arith)
not_exhausted exhausted h e = h

qc_grants-Returns :
    (used : List AuthorityId) (votes : List (AuthorityId × AuthoritySignature)) (n : ℕ)
    → Returns (Qc.count_grants used votes n)
unfolding Qc.count_grants
qc_grants-Returns used [] n = tt
qc_grants-Returns used ((id, s) ∷ votes) n =
    if-Returns (elem id used) _ _ tt (qc_grants-Returns (id ∷ used) votes (n + 1))

tc_grants-Returns :
    (used : List AuthorityId) (votes : List (AuthorityId × AuthoritySignature × ViewNumber)) (n : ℕ)
    → Returns (Tc.count_grants used votes n)
unfolding Tc.count_grants
tc_grants-Returns used [] n = tt
tc_grants-Returns used ((id, s, view) ∷ votes) n =
    if-Returns (elem id used) _ _ tt (tc_grants-Returns (id ∷ used) votes (n + 1))

module _ (c : Crypto) where
  qc_signatures-Returns :
      (d : Hash) (votes : List (AuthorityId × AuthoritySignature))
      → Returns (Qc.check_signatures c d votes)
  unfolding Qc.check_signatures
  qc_signatures-Returns d [] = tt
  qc_signatures-Returns d ((id, s) ∷ votes) =
      if-Returns (c.verify_signature s d id) _ _ (qc_signatures-Returns d votes) tt

  tc_signatures-Returns :
      (view : ViewNumber) (votes : List (AuthorityId × AuthoritySignature × ViewNumber))
      → Returns (Tc.check_signatures c view votes)
  unfolding Tc.check_signatures
  tc_signatures-Returns view [] = tt
  tc_signatures-Returns view ((id, s, w) ∷ votes) =
      if-Returns (c.verify_signature s (Tc.vote_digest c view w) id) _ _
        (tc_signatures-Returns view votes) tt

  qc_verify-Returns : (qc : Qc) (authorities : AuthorityList) → Returns (Qc.verify c qc authorities)
  unfolding Qc.verify
  qc_verify-Returns qc authorities =
      bind-Returns (Qc.count_grants [] qc.votes 0) _ (qc_grants-Returns [] qc.votes 0) λ n.
        bind-Returns (fail_if _ _) _ (fail_if-Returns _ _) λ _. qc_signatures-Returns _ qc.votes

  tc_verify-Returns : (tc : Tc) (authorities : AuthorityList) → Returns (Tc.verify c tc authorities)
  unfolding Tc.verify
  tc_verify-Returns tc authorities =
      bind-Returns (Tc.count_grants [] tc.votes 0) _ (tc_grants-Returns [] tc.votes 0) λ n.
        bind-Returns (fail_if _ _) _ (fail_if-Returns _ _)
          λ _. tc_signatures-Returns tc.view tc.votes

  known-Returns :
      (authorities : AuthorityList) (id : AuthorityId) → Returns (check_known authorities id)
  known-Returns authorities id =
      rw (check_known-elem authorities id)
        (if-Returns (elem id (ids authorities)) (ok tt) (err (unknown_authority id)) tt tt)

  signed-Returns :
      (o : Option AuthoritySignature) (d : Hash) (id : AuthorityId)
      → Returns (check_signature c o d id)
  unfolding check_signature
  signed-Returns none d id = tt
  signed-Returns (some s) d id = if-Returns (c.verify_signature s d id) _ _ tt tt

  vote_verify-Returns :
      (v : Vote) (authorities : AuthorityList) → Returns (Vote.verify c v authorities)
  unfolding Vote.verify
  vote_verify-Returns v authorities =
      bind-Returns (check_known authorities v.voter) _ (known-Returns authorities v.voter)
        λ _. signed-Returns v.signature (Vote.digest c v) v.voter

  timeout_verify-Returns :
      (t : Timeout) (authorities : AuthorityList) → Returns (Timeout.verify c t authorities)
  unfolding Timeout.verify
  timeout_verify-Returns t authorities =
      bind-Returns (check_known authorities t.voter) _ (known-Returns authorities t.voter) λ _.
        bind-Returns (check_signature c t.signature (Timeout.digest c t) t.voter) _
          (signed-Returns t.signature (Timeout.digest c t) t.voter)
          λ _.
            if-Returns (not (Qc.equal t.high_qc Qc.default)) (Qc.verify c t.high_qc authorities)
              (ok tt) (qc_verify-Returns t.high_qc authorities) tt

  pub proposal_verify-Returns :
      (p : Proposal) (authorities : AuthorityList) → Returns (Proposal.verify c p authorities)
  unfolding Proposal.verify
  proposal_verify-Returns p authorities =
      bind-Returns (check_known authorities p.author) _ (known-Returns authorities p.author) λ _.
        bind-Returns (check_signature c p.signature (Proposal.digest c p) p.author) _
          (signed-Returns p.signature (Proposal.digest c p) p.author)
          λ _.
            if-Returns (not (Qc.equal p.qc Qc.default)) (Qc.verify c p.qc authorities) (ok tt)
              (qc_verify-Returns p.qc authorities) tt

  pub verify_vote-Returns : (s : ConsensusState) (v : Vote) → Returns (verify_vote c s v)
  unfolding verify_vote
  verify_vote-Returns s v =
      bind-Returns (fail_if _ _) _ (fail_if-Returns _ _) λ _. vote_verify-Returns v s.authorities

  pub verify_timeout-Returns : (s : ConsensusState) (t : Timeout) → Returns (verify_timeout c s t)
  unfolding verify_timeout
  verify_timeout-Returns s t = timeout_verify-Returns t s.authorities

  pub verify_tc-Returns : (s : ConsensusState) (tc : Tc) → Returns (verify_tc c s tc)
  unfolding verify_tc
  verify_tc-Returns s tc =
      bind-Returns (fail_if _ _) _ (fail_if-Returns _ _) λ _. tc_verify-Returns tc s.authorities

pub leader_at-Returns : (o : Option (AuthorityId × ℕ)) → Returns (leader_at o)
leader_at-Returns none = tt
leader_at-Returns (some a) = tt
