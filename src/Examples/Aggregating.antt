-- ===== src/Examples/Aggregating.antt =====
-- Votes and timeouts of the four authorities, added one after another (aggregator.rs).
use mathlib.Core.List.{Permᴰ}
use mathlib.Core.Quot
use substrate_hot_stuff.Prelude.{◌≡◌, ◌↔◌, ◌≢◌, refl, [], ◌∷◌, some, arith, Within, get_or, put}
use substrate_hot_stuff.Primitives.{ok}
use substrate_hot_stuff.Message.Qc.{Qc}
use substrate_hot_stuff.Message.Qc
use substrate_hot_stuff.Message.Tc.{Tc}
use substrate_hot_stuff.Message.Tc
use substrate_hot_stuff.Message.Vote.{Vote}
use substrate_hot_stuff.Message.Vote
use substrate_hot_stuff.Message.Timeout
use substrate_hot_stuff.Message.Quorum.{voters, ids}
use substrate_hot_stuff.Aggregator.{
  Aggregator, new, add_vote, add_timeout, append_qc, qc_maker, put_qc_maker, append_tc, tc_maker,
  put_tc_maker,
}
use substrate_hot_stuff.Aggregator.QcMaking.{
  AllSound, AllSound-new, add_vote-AllSound, add_vote-verify,
}
use substrate_hot_stuff.Message.Qc
use substrate_hot_stuff.Message.VoteBag.{bag_of, qc_with, verify-bag_of}
use substrate_hot_stuff.Aggregator.QcMaking.Order.{answer-bag_of}
use substrate_hot_stuff.Aggregator.QcMaking.Progress.{IsFor, answer, answer_at_quorum}
use substrate_hot_stuff.Aggregator.TcMaking.{IsBinding, add_timeout-verify_fails}
use substrate_hot_stuff.Examples.World.{toy_crypto, four}
use substrate_hot_stuff.Examples.Messages.{vote_by, timeout_by}

vote_ok1 : Vote.verify toy_crypto (vote_by 5 6 1) four ≡ ok tt
unfolding Vote.verify
vote_ok1 = refl

vote_ok2 : Vote.verify toy_crypto (vote_by 5 6 2) four ≡ ok tt
unfolding Vote.verify
vote_ok2 = refl

vote_ok3 : Vote.verify toy_crypto (vote_by 5 6 3) four ≡ ok tt
unfolding Vote.verify
vote_ok3 = refl

-- The aggregator after the votes of 1 and 2.
abbrev after_one : Aggregator
after_one = (add_vote toy_crypto new (vote_by 5 6 1) four).1

abbrev pub after_two : Aggregator
after_two = (add_vote toy_crypto after_one (vote_by 5 6 2) four).1

after_one-AllSound : AllSound toy_crypto four after_one
after_one-AllSound =
    add_vote-AllSound toy_crypto four new (vote_by 5 6 1) (AllSound-new toy_crypto four) vote_ok1

after_two-AllSound : AllSound toy_crypto four after_two
after_two-AllSound =
    add_vote-AllSound toy_crypto four after_one (vote_by 5 6 2) after_one-AllSound vote_ok2

add_vote-AllSound_example :
    AllSound toy_crypto four (add_vote toy_crypto after_two (vote_by 5 6 3) four).1
add_vote-AllSound_example =
    add_vote-AllSound toy_crypto four after_two (vote_by 5 6 3) after_two-AllSound vote_ok3

abbrev pub three_votes : Qc
three_votes = record { proposal_hash = 5; view = 6; votes = (1, 5007) ∷ (2, 5008) ∷ (3, 5009) ∷ [] }

-- Test: the third vote completes the QC.
pub third_vote : (add_vote toy_crypto after_two (vote_by 5 6 3) four).0 ≡ ok (some three_votes)
unfolding add_vote append_qc qc_maker get_or put_qc_maker put Vote.digest
third_vote = refl

add_vote-verify_example :
    (Qc.verify toy_crypto three_votes four ≡ ok tt)
    × Within (voters three_votes.votes) (ids four)
    × (three_votes.proposal_hash ≡ 5)
    × (three_votes.view ≡ 6)
add_vote-verify_example =
    add_vote-verify toy_crypto four after_two (vote_by 5 6 3) three_votes after_two-AllSound
      vote_ok3 third_vote

IsFor-six1 : IsFor toy_crypto four 5 6 (vote_by 5 6 1)
IsFor-six1 = record { same_hash = refl; same_view = refl; verified = vote_ok1 }

IsFor-six2 : IsFor toy_crypto four 5 6 (vote_by 5 6 2)
IsFor-six2 = record { same_hash = refl; same_view = refl; verified = vote_ok2 }

IsFor-six3 : IsFor toy_crypto four 5 6 (vote_by 5 6 3)
IsFor-six3 = record { same_hash = refl; same_view = refl; verified = vote_ok3 }

answer_at_quorum_example :
    (qc : Qc) × (answer toy_crypto four 5 6 (vote_by 5 6 1 ∷ vote_by 5 6 2 ∷ []) (vote_by 5 6 3)
      ≡ ok (some qc))
    × (voters qc.votes ≡ 1 ∷ 2 ∷ 3 ∷ [])
answer_at_quorum_example =
    answer_at_quorum toy_crypto four 5 6 (vote_by 5 6 1 ∷ vote_by 5 6 2 ∷ []) (vote_by 5 6 3)
      (IsFor-six1, (IsFor-six2, tt)) IsFor-six3 (refl, (refl, (refl, tt))) (omega arith)

toy-IsBinding : IsBinding toy_crypto
toy-IsBinding = record {
  one_digest = λ s d e id p q. ground arith;
  no_collision = λ view a b h j k e. omega (arith, e);
}

-- The aggregator after the timeouts of 1 and 2 in view 6.
abbrev two_timeouts : Aggregator
two_timeouts = (add_timeout (add_timeout new (timeout_by 6 1) four).1 (timeout_by 6 2) four).1

-- The certificate of the third: view 6 stands beside its signature for view 0.
abbrev mixed : Tc
mixed = record { view = 6; votes = (1, 6001, 6) ∷ (2, 6002, 6) ∷ (3, 6003, 6) ∷ [] }

third_timeout : (add_timeout two_timeouts (timeout_by 6 3) four).0 ≡ ok (some mixed)
unfolding add_timeout append_tc tc_maker get_or put_tc_maker put
third_timeout = refl

timeout_ok : Timeout.verify toy_crypto (timeout_by 6 3) four ≡ ok tt
unfolding Timeout.verify
timeout_ok = refl

add_timeout-verify_fails_example : Tc.verify toy_crypto mixed four ≢ ok tt
add_timeout-verify_fails_example =
    add_timeout-verify_fails toy_crypto toy-IsBinding two_timeouts (timeout_by 6 3) four four mixed
      (omega arith) (omega arith) timeout_ok (λ e. omega (arith, e)) third_timeout

answer-bag_of_example :
    (a : Qc) × (b : Qc) × (answer toy_crypto four 5 6
        (vote_by 5 6 1 ∷ vote_by 5 6 2 ∷ [])
        (vote_by 5 6 3)
      ≡ ok (some a))
    × (answer toy_crypto four 5 6 (vote_by 5 6 2 ∷ vote_by 5 6 1 ∷ []) (vote_by 5 6 3)
        ≡ ok (some b))
    × (a.proposal_hash ≡ b.proposal_hash)
    × (a.view ≡ b.view)
    × (bag_of a.votes ≡ bag_of b.votes)
answer-bag_of_example =
    answer-bag_of toy_crypto four 5 6 (vote_by 5 6 1 ∷ vote_by 5 6 2 ∷ [])
      (vote_by 5 6 2 ∷ vote_by 5 6 1 ∷ []) (vote_by 5 6 3) (vote_by 5 6 3) (Permᴰ.swap refl refl)
      (IsFor-six1, (IsFor-six2, (IsFor-six3, tt))) (refl, (refl, (refl, tt))) (omega arith)

verify-bag_of_example :
    (Qc.verify toy_crypto (qc_with toy_crypto four 5 6 ((1, 12) ∷ (2, 13) ∷ [])) four ≡ ok tt)
    ↔ (Qc.verify toy_crypto (qc_with toy_crypto four 5 6 ((2, 13) ∷ (1, 12) ∷ [])) four ≡ ok tt)
verify-bag_of_example =
    verify-bag_of toy_crypto four 5 6 ((1, 12) ∷ (2, 13) ∷ []) ((2, 13) ∷ (1, 12) ∷ [])
      (Quot.sound (Permᴰ.swap refl refl))
