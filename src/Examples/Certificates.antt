-- ===== src/Examples/Certificates.antt =====
-- Certificates and single messages of the four authorities (message.rs).
use substrate_hot_stuff.Prelude.{◌≡◌, refl, ◌↔◌, [], ◌∷◌, true, false, elem, arith}
use substrate_hot_stuff.Primitives.{AuthorityId, ok}
use substrate_hot_stuff.Message.Qc.{Qc}
use substrate_hot_stuff.Message.Qc
use substrate_hot_stuff.Message.Proposal
use substrate_hot_stuff.Message.Quorum.{quorum_intersection, voters}
use substrate_hot_stuff.Message.Authenticity.{IsAuthentic, CarriesQc, verify_proposal_iff}
use substrate_hot_stuff.Examples.World.{toy_crypto, four}
use substrate_hot_stuff.Examples.Messages.{qc_by, proposal_by}

abbrev left : Qc
left = qc_by 5 6 (1 ∷ 2 ∷ 3 ∷ [])

abbrev right : Qc
right = qc_by 8 7 (2 ∷ 3 ∷ 4 ∷ [])

-- Test: `verify` accepts the two certificates.
left_ok : Qc.verify toy_crypto left four ≡ ok tt
unfolding Qc.verify
left_ok = refl

right_ok : Qc.verify toy_crypto right four ≡ ok tt
unfolding Qc.verify
right_ok = refl

quorum_intersection_example :
    (id : AuthorityId) × (elem id (voters left.votes) ≡ true)
    × (elem id (voters right.votes) ≡ true)
    × (elem id (2 ∷ []) ≡ false)
quorum_intersection_example =
    quorum_intersection toy_crypto left right four (2 ∷ []) left_ok right_ok
      (refl, (refl, (refl, tt))) (refl, (refl, (refl, tt))) (omega arith)

verify_proposal_iff_example : (Proposal.verify toy_crypto (proposal_by left 7 4) four ≡ ok tt) ↔ (
    IsAuthentic toy_crypto four
      (proposal_by left 7 4).signature
      (Proposal.digest toy_crypto (proposal_by left 7 4))
      4
    × CarriesQc toy_crypto four left)
verify_proposal_iff_example = verify_proposal_iff toy_crypto four (proposal_by left 7 4)
