-- ===== src/Aggregator.antt =====
-- hotstuff/consensus/src/aggregator.rs: votes and timeouts are collected until a quorum makes a
-- certificate. A method of `&mut self` returns its result and the new value. `weight` counts the
-- entries of `votes`, so it stays far below 2 ^ 64, as does the length of a vector.
pub mod QcMaking
pub mod TcMaking
use substrate_hot_stuff.Prelude.{
  ℕ, ◌+◌, ◌*◌, ◌/◌, List, [], ◌∷◌, ◌++◌, Option, none, some, length, any, ltb, ◌==◌, if◌then◌else◌,
  Map, get_or, put,
}
use substrate_hot_stuff.Primitives.{
  Hash, AuthorityId, AuthoritySignature, ViewNumber, AuthorityList, null_signature, Result, ok, err,
}
use substrate_hot_stuff.Crypto.{Crypto}
use substrate_hot_stuff.Message.Qc.{Qc}
use substrate_hot_stuff.Message.Tc.{Tc}
use substrate_hot_stuff.Message.Vote.{Vote}
use substrate_hot_stuff.Message.Vote
use substrate_hot_stuff.Message.Timeout.{Timeout}

pub record QcMaker : Type 0 where
  pub weight : ℕ
  pub votes : List (AuthorityId × AuthoritySignature)

abbrev pub new_qc_maker : QcMaker
new_qc_maker = record { weight = 0; votes = [] }

unfoldable pub append_vote :
    QcMaker → Vote → AuthorityList → Option AuthoritySignature → Result (Option Qc) × QcMaker
append_vote maker vote authorities none = (err null_signature, maker)
append_vote maker vote authorities (some signature) =
    let votes = maker.votes ++ (vote.voter, signature) ∷ [] in
    let weight = maker.weight + 1 in
    let qc : Qc = record { proposal_hash = vote.proposal_hash; view = vote.view; votes = votes } in
    (
      if ltb weight (length authorities * 2 / 3 + 1) then ok none else ok (some qc),
      record { weight = weight; votes = votes },
    )

-- `QCMaker::append`
unfoldable pub append_qc : QcMaker → Vote → AuthorityList → Result (Option Qc) × QcMaker
unfolding append_vote
append_qc maker vote authorities =
    if any (λ v. v.0 == vote.voter) maker.votes
    then (ok none, maker)
    else append_vote maker vote authorities vote.signature

pub record TcMaker : Type 0 where
  pub weight : ℕ
  pub votes : List (AuthorityId × AuthoritySignature × ViewNumber)

abbrev pub new_tc_maker : TcMaker
new_tc_maker = record { weight = 0; votes = [] }

unfoldable pub append_timeout :
    TcMaker → Timeout → AuthorityList → Option AuthoritySignature → Result (Option Tc) × TcMaker
append_timeout maker timeout authorities none = (err null_signature, maker)
append_timeout maker timeout authorities (some signature) =
    let votes = maker.votes ++ (timeout.voter, signature, timeout.view) ∷ [] in
    let weight = maker.weight + 1 in
    (
      if ltb weight (length authorities * 2 / 3 + 1)
          then ok none
          else ok (some (record { view = timeout.view; votes = votes })),
      record { weight = weight; votes = votes },
    )

-- `TCMaker::append`
unfoldable pub append_tc : TcMaker → Timeout → AuthorityList → Result (Option Tc) × TcMaker
unfolding append_timeout
append_tc maker timeout authorities =
    if any (λ v. v.0 == timeout.voter) maker.votes
    then (ok none, maker)
    else append_timeout maker timeout authorities timeout.signature

pub record Aggregator : Type 0 where
  pub votes_aggregator : Map (Map QcMaker)
  pub timeouts_aggregators : Map TcMaker

abbrev pub new : Aggregator
new = record { votes_aggregator = []; timeouts_aggregators = [] }

-- The maker that holds the votes of one view for one digest.
unfoldable pub qc_maker : Aggregator → ViewNumber → Hash → QcMaker
qc_maker a view digest = get_or new_qc_maker digest (get_or [] view a.votes_aggregator)

unfoldable pub tc_maker : Aggregator → ViewNumber → TcMaker
tc_maker a view = get_or new_tc_maker view a.timeouts_aggregators

unfoldable pub put_qc_maker : Aggregator → ViewNumber → Hash → QcMaker → Aggregator
put_qc_maker a view digest maker = record a {
  votes_aggregator =
      put view (put digest maker (get_or [] view a.votes_aggregator)) a.votes_aggregator;
}

unfoldable pub put_tc_maker : Aggregator → ViewNumber → TcMaker → Aggregator
put_tc_maker a view maker = record a {
  timeouts_aggregators = put view maker a.timeouts_aggregators;
}

-- `Aggregator::add_vote`
unfoldable pub add_vote :
    Crypto → Aggregator → Vote → AuthorityList → Result (Option Qc) × Aggregator
add_vote c a vote authorities =
    let digest = Vote.digest c vote in
    let (result, maker) = append_qc (qc_maker a vote.view digest) vote authorities in
    (result, put_qc_maker a vote.view digest maker)

-- `Aggregator::add_timeout`
unfoldable pub add_timeout : Aggregator → Timeout → AuthorityList → Result (Option Tc) × Aggregator
add_timeout a timeout authorities =
    let (result, maker) = append_tc (tc_maker a timeout.view) timeout authorities in
    (result, put_tc_maker a timeout.view maker)
