-- ===== src/Examples/Local.antt =====
-- Single calls of one replica: its state, its leader, its validator and its store.
use substrate_hot_stuff.Prelude.{
  ℕ, ◌≡◌, ◌≢◌, refl, ◌↔◌, [], ◌∷◌, none, some, true, arith, ◌==◌, ◌&&◌, not,
}
use substrate_hot_stuff.Primitives.{ok, answered, AuthorityId, Bytes}
use substrate_hot_stuff.Message.Qc.{Qc}
use substrate_hot_stuff.Message.Qc
use substrate_hot_stuff.Message.Vote.{Vote}
use substrate_hot_stuff.Message.Timeout.{Timeout}
use substrate_hot_stuff.Message.Proposal.{Proposal}
use substrate_hot_stuff.Message.Proposal
use substrate_hot_stuff.Message.ConsensusMessage.{gossip_topic}
use substrate_hot_stuff.Consensus.State.{
  ConsensusState, new, make_vote, make_timeout, make_proposal, is_leader,
}
use substrate_hot_stuff.Worker.Safety.Signing.{IsSigning}
use substrate_hot_stuff.Network.{
  GossipValidator, validate, message_expired, message_allowed, discard,
}
use substrate_hot_stuff.Network.Window.{filters_agree}
use substrate_hot_stuff.Synchronizer.{save_proposal, get_proposal_ancestors}
use substrate_hot_stuff.Synchronizer.Ancestors.{get_proposal_ancestors-save_proposal}
use substrate_hot_stuff.Examples.World.{toy_crypto, toy_keystore, four}
use substrate_hot_stuff.Examples.Codec.{toy, toy_codec, toy-StoreLaws}
use substrate_hot_stuff.Examples.Messages.{vote_by, qc_by, proposal_by, proposal_digest}

-- Authority 3 in view 6, of which it is the leader.
abbrev pub third : ConsensusState
third = record (new (toy_keystore 3) four) { view = 6; last_voted_view = 5 }

-- The proposal of authority 3 for view 6.
abbrev pub sixth : Proposal
sixth = proposal_by Qc.default 6 3

abbrev vote_for_sixth : Vote
vote_for_sixth = vote_by (proposal_digest sixth) 6 3

votes_for_sixth : (make_vote toy_crypto third sixth).0 ≡ some vote_for_sixth
unfolding make_vote
votes_for_sixth = refl

pub toy_keystore-IsSigning : (own : AuthorityId) → IsSigning toy_crypto (toy_keystore own)
toy_keystore-IsSigning own = record { signs = λ id d bytes s e k. signs_with id d bytes s e k }
  where
    signs_with :
        (id : AuthorityId) (d : ℕ) (bytes : Bytes) (s : ℕ)
        → (toy_keystore own).sign_with id d ≡ answered (some bytes)
        → (toy_keystore own).signature_from bytes ≡ some s
        → toy_crypto.verify_signature s d id ≡ true
    signs_with id d [] s e k = absurd (ground arith)
    signs_with id d (x ∷ xs) s e k = ground arith

pub third-IsSigning : IsSigning toy_crypto (toy_keystore 3)
third-IsSigning = toy_keystore-IsSigning 3

abbrev timeout_of_third : Timeout
timeout_of_third = record { high_qc = Qc.default; view = 6; voter = 3; signature = some 6003 }

times_out : make_timeout toy_crypto third ≡ ok timeout_of_third
unfolding make_timeout
times_out = refl

proposes_sixth : make_proposal toy_crypto third sixth.payload none ≡ ok sixth
unfolding make_proposal
proposes_sixth = refl

leads_sixth : is_leader third ≡ ok true
unfolding is_leader
leads_sixth = refl

-- A validator in view 9, in which the proposal of view 6 has expired.
abbrev ninth : GossipValidator
ninth = record { view = 9 }

abbrev pub sixth_bytes : Bytes
sixth_bytes = toy_codec.encode_proposal sixth

filters_agree_example :
    ((validate toy_crypto toy_codec ninth sixth_bytes ≡ discard)
      ↔ (message_expired toy_crypto toy_codec ninth 4 sixth_bytes ≡ true))
    × (message_allowed toy_crypto toy_codec ninth 4 sixth_bytes ≡ (
        4 == gossip_topic toy_crypto
        && not (message_expired toy_crypto toy_codec ninth 4 sixth_bytes)))
filters_agree_example = filters_agree toy_crypto toy_codec ninth sixth_bytes 4

-- A chain of three proposals.
abbrev seventh : Proposal
seventh = proposal_by (qc_by (proposal_digest sixth) 6 (1 ∷ 2 ∷ 3 ∷ [])) 7 4

abbrev eighth : Proposal
eighth = proposal_by (qc_by (proposal_digest seventh) 7 (1 ∷ 2 ∷ 3 ∷ [])) 8 1

abbrev one_saved : toy.client.State
one_saved = (save_proposal toy [] sixth).1

abbrev two_saved : toy.client.State
two_saved = (save_proposal toy one_saved seventh).1

saves_sixth : save_proposal toy [] sixth ≡ (ok tt, one_saved)
unfolding save_proposal
saves_sixth = refl

saves_seventh : save_proposal toy one_saved seventh ≡ (ok tt, two_saved)
unfolding save_proposal
saves_seventh = refl

seventh_after_sixth : seventh.qc.proposal_hash ≡ Proposal.digest toy_crypto sixth
unfolding Proposal.digest
seventh_after_sixth = refl

eighth_after_seventh : eighth.qc.proposal_hash ≡ Proposal.digest toy_crypto seventh
unfolding Proposal.digest
eighth_after_seventh = refl

digests_differ : Proposal.digest toy_crypto seventh ≢ Proposal.digest toy_crypto sixth
unfolding Proposal.digest
digests_differ e = omega (arith, e)

get_proposal_ancestors-save_proposal_example :
    get_proposal_ancestors toy two_saved eighth ≡ ok (seventh, sixth)
get_proposal_ancestors-save_proposal_example =
    get_proposal_ancestors-save_proposal toy toy-StoreLaws [] one_saved two_saved sixth seventh
      eighth saves_sixth saves_seventh seventh_after_sixth eighth_after_seventh digests_differ
