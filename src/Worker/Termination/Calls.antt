-- ===== src/Worker/Termination/Calls.antt =====
-- consensus.rs, synchronizer.rs, aggregator.rs: the methods that make and collect messages, and `exhausted`.
use substrate_hot_stuff.Prelude.{
  ℕ, Bool-cases, inl, inr, ◌+◌, Option, none, some, get_elem?, length, ◌%◌, ◌==◌, any, ltb, ◌*◌,
  ◌/◌,
}
use substrate_hot_stuff.Primitives.{
  Bytes, Hash, AuthorityId, AuthoritySignature, AuthorityList, ok, panic, map_err, fail_if, ok_or,
  other, not_authority,
}
use substrate_hot_stuff.Crypto.{Crypto, Keystore}
use substrate_hot_stuff.Message.Tc.{Tc}
use substrate_hot_stuff.Message.Payload.{Payload}
use substrate_hot_stuff.Message.Vote.{Vote}
use substrate_hot_stuff.Message.Vote
use substrate_hot_stuff.Message.Timeout.{Timeout}
use substrate_hot_stuff.Message.Proposal.{Proposal}
use substrate_hot_stuff.Message.Proposal
use substrate_hot_stuff.Aggregator
use substrate_hot_stuff.Environment.{Environment}
use substrate_hot_stuff.Synchronizer.{
  get, save_proposal, get_proposal_parent, get_proposal_ancestors, decoded,
}
use substrate_hot_stuff.Consensus.State.{
  ConsensusState, try_from, sign, make_proposal, make_timeout, view_leader, leader_at, is_leader,
  verify_proposal, add_vote, add_timeout, local_authority_id,
}
use substrate_hot_stuff.Worker.Termination.Total.{
  Returns, bind-Returns, if-Returns, map_err-Returns, fail_if-Returns, ok_or-Returns,
  proposal_verify-Returns, leader_at-Returns,
}

pub view_leader-Returns : (s : ConsensusState) (view : ℕ) → Returns (view_leader s view)
unfolding view_leader
view_leader-Returns s view =
    if-Returns (length s.authorities == 0) panic
      (leader_at (get_elem? s.authorities (view % length s.authorities))) tt
      (leader_at-Returns (get_elem? s.authorities (view % length s.authorities)))

pub is_leader-Returns : (s : ConsensusState) → Returns (is_leader s)
unfolding is_leader
is_leader-Returns s = bind-Returns (view_leader s s.view) _ (view_leader-Returns s s.view) λ _. tt

sign-Returns : (k : Keystore) (id : AuthorityId) (d : Hash) → Returns (sign k id d)
unfolding sign
sign-Returns k id d =
    bind-Returns (map_err other (k.sign_with id d)) (λ bytes. ok (try_from k bytes))
      (map_err-Returns other (k.sign_with id d)) λ _. tt

module _ (c : Crypto) where
  pub verify_proposal-Returns :
      (s : ConsensusState) (p : Proposal) → Returns (verify_proposal c s p)
  unfolding verify_proposal
  verify_proposal-Returns s p =
      bind-Returns (view_leader s p.view) _ (view_leader-Returns s p.view) λ _.
        bind-Returns (fail_if _ _) _ (fail_if-Returns _ _)
          λ _. proposal_verify-Returns c p s.authorities

  pub make_timeout-Returns : (s : ConsensusState) → Returns (make_timeout c s)
  unfolding make_timeout
  make_timeout-Returns s =
      bind-Returns (ok_or (local_authority_id s) not_authority) _
        (ok_or-Returns (local_authority_id s) not_authority)
        λ id. bind-Returns (sign s.keystore id _) _ (sign-Returns s.keystore id _) λ _. tt

  pub make_proposal-Returns :
      (s : ConsensusState) (payload : Payload) (tc : Option Tc)
      → Returns (make_proposal c s payload tc)
  unfolding make_proposal
  make_proposal-Returns s payload tc =
      bind-Returns (ok_or (local_authority_id s) not_authority) _
        (ok_or-Returns (local_authority_id s) not_authority)
        λ id. bind-Returns (sign s.keystore id _) _ (sign-Returns s.keystore id _) λ _. tt

  append_vote-Returns :
      (m : Aggregator.QcMaker) (v : Vote) (authorities : AuthorityList)
      (o : Option AuthoritySignature)
      → Returns (Aggregator.append_vote m v authorities o).0
  unfolding Aggregator.append_vote
  append_vote-Returns m v authorities none = tt
  append_vote-Returns m v authorities (some s) =
      elim (Bool-cases (ltb (m.weight + 1) (length authorities * 2 / 3 + 1))) [
        | inl e ↦ rw e tt
        | inr e ↦ rw e tt
      ]

  pub add_vote-Returns : (s : ConsensusState) (v : Vote) → Returns (add_vote c s v).0
  unfolding add_vote Aggregator.add_vote Aggregator.append_qc
  add_vote-Returns s v = by_maker (Aggregator.qc_maker s.aggregator v.view (Vote.digest c v))
    where
      by_maker : (m : Aggregator.QcMaker) → Returns (Aggregator.append_qc m v s.authorities).0
      by_maker m = elim (Bool-cases (any (λ x. x.0 == v.voter) m.votes)) [
        | inl old ↦ rw old tt
        | inr fresh ↦ rw fresh (append_vote-Returns m v s.authorities v.signature)
      ]

append_timeout-Returns :
    (m : Aggregator.TcMaker) (t : Timeout) (authorities : AuthorityList)
    (o : Option AuthoritySignature)
    → Returns (Aggregator.append_timeout m t authorities o).0
unfolding Aggregator.append_timeout
append_timeout-Returns m t authorities none = tt
append_timeout-Returns m t authorities (some s) =
    elim (Bool-cases (ltb (m.weight + 1) (length authorities * 2 / 3 + 1))) [
      | inl e ↦ rw e tt
      | inr e ↦ rw e tt
    ]

pub add_timeout-Returns : (s : ConsensusState) (t : Timeout) → Returns (add_timeout s t).0
unfolding add_timeout Aggregator.add_timeout Aggregator.append_tc
add_timeout-Returns s t = by_maker (Aggregator.tc_maker s.aggregator t.view)
  where
    by_maker : (m : Aggregator.TcMaker) → Returns (Aggregator.append_tc m t s.authorities).0
    by_maker m = elim (Bool-cases (any (λ x. x.0 == t.voter) m.votes)) [
      | inl old ↦ rw old tt
      | inr fresh ↦ rw fresh (append_timeout-Returns m t s.authorities t.signature)
    ]

module _ (env : Environment) where
  pub save_proposal-Returns :
      (s : env.client.State) (p : Proposal) → Returns (save_proposal env s p).0
  unfolding save_proposal
  save_proposal-Returns s p = map_err-Returns _ _

  parent-Returns : (s : env.client.State) (p : Proposal) → Returns (get_proposal_parent env s p)
  unfolding get_proposal_parent decoded
  parent-Returns s p =
      bind-Returns (map_err other (get env s (env.codec.as_ref (Proposal.parent_hash p))))
        (decoded env)
        (map_err-Returns other (get env s (env.codec.as_ref (Proposal.parent_hash p)))) by_found
    where
      by_found : (o : Option Bytes) → Returns (decoded env o)
      by_found none = tt
      by_found (some b) = map_err-Returns other (env.codec.decode_proposal b)

  pub ancestors-Returns :
      (s : env.client.State) (p : Proposal) → Returns (get_proposal_ancestors env s p)
  unfolding get_proposal_ancestors
  ancestors-Returns s p =
      bind-Returns (get_proposal_parent env s p) _ (parent-Returns s p) λ parent.
        bind-Returns (get_proposal_parent env s parent) _ (parent-Returns s parent) λ _. tt
