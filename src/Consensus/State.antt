-- ===== src/Consensus/State.antt =====
-- hotstuff/consensus/src/consensus.rs: `ConsensusState`. A method of `&mut self` returns the new
-- state. `view + 1` wraps, as a release build has it. A panic (an empty authority list) is a
-- result of its own.
use Prim.Native.Nat.{max}
use substrate_hot_stuff.Prelude.{
  ℕ, ◌+◌, ◌%◌, Bool, false, not, Option, none, some, length, find, get_elem?, ltb, leb, ◌==◌,
  if◌then◌else◌,
}
use substrate_hot_stuff.Primitives.{
  Bytes, Hash, AuthorityId, AuthoritySignature, ViewNumber, AuthorityList, u64_mod, not_authority,
  wrong_proposer, expired_vote, invalid_tc, other, Result, ok, err, panic, exhausted, ◌>>=◌, ◌>>◌,
  ok_or, fail_if, map_err,
}
use substrate_hot_stuff.Crypto.{Crypto, Keystore}
use substrate_hot_stuff.Message.Qc.{Qc}
use substrate_hot_stuff.Message.Qc
use substrate_hot_stuff.Message.Tc.{Tc}
use substrate_hot_stuff.Message.Tc
use substrate_hot_stuff.Message.Payload.{Payload}
use substrate_hot_stuff.Message.Vote.{Vote}
use substrate_hot_stuff.Message.Vote
use substrate_hot_stuff.Message.Timeout.{Timeout}
use substrate_hot_stuff.Message.Timeout
use substrate_hot_stuff.Message.Proposal.{Proposal}
use substrate_hot_stuff.Message.Proposal
use substrate_hot_stuff.Aggregator.{Aggregator}
use substrate_hot_stuff.Aggregator

pub record ConsensusState : Type 0 where
  pub keystore : Keystore
  pub authorities : AuthorityList
  pub view : ViewNumber
  pub last_voted_view : ViewNumber
  pub high_qc : Qc
  pub aggregator : Aggregator

abbrev pub new : Keystore → AuthorityList → ConsensusState
new keystore authorities = record {
  keystore = keystore;
  authorities = authorities;
  view = 0;
  last_voted_view = 0;
  high_qc = Qc.default;
  aggregator = Aggregator.new;
}

abbrev pub first {ℓ κ} : {A : Type ℓ} {B : Type κ} → Option (A × B) → Option A
first none = none
first (some (a, b)) = some a

-- The first authority whose key the local keystore has.
unfoldable pub local_authority_id : ConsensusState → Option AuthorityId
local_authority_id s = first (find (λ authority. s.keystore.has_keys authority.0) s.authorities)

unfoldable pub increase_last_voted_view : ConsensusState → ConsensusState
increase_last_voted_view s = record s { last_voted_view = max s.last_voted_view s.view }

-- `.and_then(|data| AuthoritySignature::try_from(data).ok())`
abbrev pub try_from : Keystore → Option Bytes → Option AuthoritySignature
try_from k none = none
try_from k (some bytes) = k.signature_from bytes

-- `keystore.sign_with(…)` and the conversion of what it returns, as the three makers have it.
unfoldable pub sign : Keystore → AuthorityId → Hash → Result (Option AuthoritySignature)
sign k id digest = do bytes ← map_err other (k.sign_with id digest); ok (try_from k bytes)

module _ (c : Crypto) where
  unfoldable pub make_timeout : ConsensusState → Result Timeout
  unfolding local_authority_id sign Timeout.digest
  make_timeout s = do
    authority_id ← ok_or (local_authority_id s) not_authority
    let timeout : Timeout = record {
      high_qc = s.high_qc;
      view = s.view;
      voter = authority_id;
      signature = none;
    }
    signature ← sign s.keystore authority_id (Timeout.digest c timeout)
    ok (record timeout { signature = signature })

  unfoldable pub make_proposal : ConsensusState → Payload → Option Tc → Result Proposal
  unfolding local_authority_id sign Proposal.digest
  make_proposal s payload tc = do
    author_id ← ok_or (local_authority_id s) not_authority
    let block : Proposal = record {
      qc = s.high_qc;
      tc = tc;
      payload = payload;
      view = s.view;
      author = author_id;
      signature = none;
    }
    signature ← sign s.keystore author_id (Proposal.digest c block)
    ok (record block { signature = signature })

  -- The vote of `make_vote` once its view is taken: `.ok()?` drops it if the keystore fails.
  signed_vote : Vote → Result (Option AuthoritySignature) → Option Vote
  signed_vote vote (ok signature) = some (record vote { signature = signature })
  signed_vote vote (err e) = none
  signed_vote vote panic = none
  signed_vote vote exhausted = none

  vote_as : ConsensusState → Proposal → Option AuthorityId → Option Vote × ConsensusState
  unfolding signed_vote sign Vote.new Vote.digest Proposal.digest
  vote_as s proposal none = (none, s)
  vote_as s proposal (some author_id) =
      let vote = Vote.new (Proposal.digest c proposal) proposal.view author_id in
      let s' : ConsensusState = record s {
        last_voted_view = max s.last_voted_view proposal.view;
      } in
      if leb proposal.view s.last_voted_view
      then (none, s)
      else (signed_vote vote (sign s.keystore author_id (Vote.digest c vote)), s')

  unfoldable pub make_vote : ConsensusState → Proposal → Option Vote × ConsensusState
  unfolding vote_as local_authority_id
  make_vote s proposal = vote_as s proposal (local_authority_id s)

abbrev pub leader_at : Option (AuthorityId × ℕ) → Result AuthorityId
leader_at none = panic
leader_at (some (id, weight)) = ok id

-- `view % len` panics if there is no authority.
unfoldable pub view_leader : ConsensusState → ViewNumber → Result AuthorityId
view_leader s view =
    if length s.authorities == 0
    then panic
    else leader_at (get_elem? s.authorities (view % length s.authorities))

abbrev pub is_local : Option AuthorityId → AuthorityId → Bool
is_local none leader = false
is_local (some id) leader = id == leader

unfoldable pub is_leader : ConsensusState → Result Bool
unfolding view_leader local_authority_id
is_leader s = do leader ← view_leader s s.view; ok (is_local (local_authority_id s) leader)

module _ (c : Crypto) where
  unfoldable pub verify_timeout : ConsensusState → Timeout → Result (Unit {0})
  verify_timeout s timeout = Timeout.verify c timeout s.authorities

  unfoldable pub verify_proposal : ConsensusState → Proposal → Result (Unit {0})
  verify_proposal s proposal = do
    leader ← view_leader s proposal.view
    fail_if (not (proposal.author == leader)) wrong_proposer
    Proposal.verify c proposal s.authorities

  unfoldable pub verify_vote : ConsensusState → Vote → Result (Unit {0})
  verify_vote s vote = do
    fail_if (ltb vote.view s.view) expired_vote
    Vote.verify c vote s.authorities

  unfoldable pub verify_tc : ConsensusState → Tc → Result (Unit {0})
  verify_tc s tc = do fail_if (ltb tc.view s.view) invalid_tc; Tc.verify c tc s.authorities

  unfoldable pub add_vote : ConsensusState → Vote → Result (Option Qc) × ConsensusState
  add_vote s vote =
      let (result, aggregator) = Aggregator.add_vote c s.aggregator vote s.authorities in
      (result, record s { aggregator = aggregator })

unfoldable pub add_timeout : ConsensusState → Timeout → Result (Option Tc) × ConsensusState
add_timeout s timeout =
    let (result, aggregator) = Aggregator.add_timeout s.aggregator timeout s.authorities in
    (result, record s { aggregator = aggregator })

unfoldable pub update_high_qc : ConsensusState → Qc → ConsensusState
update_high_qc s qc = if ltb s.high_qc.view qc.view then record s { high_qc = qc } else s

-- The test is the code's: a target above the current view changes nothing.
unfoldable pub advance_view_from_target : ConsensusState → ViewNumber → ConsensusState
advance_view_from_target s view =
    if leb view s.view then record s { view = (view + 1) % u64_mod } else s
