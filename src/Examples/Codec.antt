-- ===== src/Examples/Codec.antt =====
-- A codec for the examples: the fields in order, a list with a mark before each element.
use substrate_hot_stuff.Prelude.{zero, suc, ◌≡◌, refl, List, [], ◌∷◌, Option, none, some, arith}
use substrate_hot_stuff.Primitives.{
  Bytes, AuthorityId, AuthoritySignature, ViewNumber, External, answered, failed,
}
use substrate_hot_stuff.Message.Tc.{Tc}
use substrate_hot_stuff.Message.Proposal.{Proposal}
use substrate_hot_stuff.Message.ConsensusMessage.{ConsensusMessage, phantom, propose}
use substrate_hot_stuff.Message.Codec.{Codec}
use substrate_hot_stuff.Environment.{Environment, StoreLaws}
use substrate_hot_stuff.Examples.World.{toy_crypto, toy_client, same_bytes_refl, same_bytes-eq}

abbrev Votes : Type 0
Votes = List (AuthorityId × AuthoritySignature)

abbrev Timeouts : Type 0
Timeouts = List (AuthorityId × AuthoritySignature × ViewNumber)

-- A reader returns what it has read, and the bytes left.
abbrev Read : Type 0 → Type 0
Read A = Option (A × Bytes)

abbrev before : {A : Type 0} → A → Read (List A) → Read (List A)
before a none = none
before a (some (found, rest)) = some (a ∷ found, rest)

abbrev put_votes : Votes → Bytes → Bytes
put_votes [] rest = 0 ∷ rest
put_votes ((id, s) ∷ votes) rest = 1 ∷ id ∷ s ∷ put_votes votes rest

abbrev get_votes : Bytes → Read Votes
get_votes (zero ∷ rest) = some ([], rest)
get_votes (suc n ∷ id ∷ s ∷ rest) = before (id, s) (get_votes rest)
get_votes _ = none

get-put_votes :
    (votes : Votes) (rest : Bytes) → get_votes (put_votes votes rest) ≡ some (votes, rest)
get-put_votes [] rest = refl
get-put_votes ((id, s) ∷ votes) rest = rw (get-put_votes votes rest)

abbrev put_timeouts : Timeouts → Bytes → Bytes
put_timeouts [] rest = 0 ∷ rest
put_timeouts ((id, s, view) ∷ votes) rest = 1 ∷ id ∷ s ∷ view ∷ put_timeouts votes rest

abbrev get_timeouts : Bytes → Read Timeouts
get_timeouts (zero ∷ rest) = some ([], rest)
get_timeouts (suc n ∷ id ∷ s ∷ view ∷ rest) = before (id, s, view) (get_timeouts rest)
get_timeouts _ = none

get-put_timeouts :
    (votes : Timeouts) (rest : Bytes) → get_timeouts (put_timeouts votes rest) ≡ some (votes, rest)
get-put_timeouts [] rest = refl
get-put_timeouts ((id, s, view) ∷ votes) rest = rw (get-put_timeouts votes rest)

abbrev put_tc : Option Tc → Bytes → Bytes
put_tc none rest = 0 ∷ rest
put_tc (some tc) rest = 1 ∷ tc.view ∷ put_timeouts tc.votes rest

abbrev with_view : ViewNumber → Read Timeouts → Read (Option Tc)
with_view view none = none
with_view view (some (votes, rest)) = some (some (record { view = view; votes = votes }), rest)

abbrev get_tc : Bytes → Read (Option Tc)
get_tc (zero ∷ rest) = some (none, rest)
get_tc (suc n ∷ view ∷ rest) = with_view view (get_timeouts rest)
get_tc _ = none

get-put_tc : (tc : Option Tc) (rest : Bytes) → get_tc (put_tc tc rest) ≡ some (tc, rest)
get-put_tc none rest = refl
get-put_tc (some tc) rest = rw (get-put_timeouts tc.votes rest)

abbrev put_signature : Option AuthoritySignature → Bytes
put_signature none = []
put_signature (some s) = s ∷ []

abbrev get_signature : Bytes → Option AuthoritySignature
get_signature [] = none
get_signature (s ∷ rest) = some s

get-put_signature : (s : Option AuthoritySignature) → get_signature (put_signature s) ≡ s
get-put_signature none = refl
get-put_signature (some s) = refl

abbrev put_proposal : Proposal → Bytes
put_proposal p =
    p.qc.proposal_hash
    ∷ p.qc.view
    ∷ p.payload.block_hash
    ∷ p.payload.block_number
    ∷ p.view
    ∷ p.author
    ∷ put_votes p.qc.votes (put_tc p.tc (put_signature p.signature))

abbrev with_signature :
    (Option Tc → Option AuthoritySignature → Proposal) → Read (Option Tc) → External Proposal
with_signature make none = failed "no certificate"
with_signature make (some (tc, rest)) = answered (make tc (get_signature rest))

abbrev with_votes :
    (Votes → Option Tc → Option AuthoritySignature → Proposal) → Read Votes → External Proposal
with_votes make none = failed "no votes"
with_votes make (some (votes, rest)) = with_signature (make votes) (get_tc rest)

abbrev get_proposal : Bytes → External Proposal
get_proposal (hash ∷ qc_view ∷ block ∷ number ∷ view ∷ author ∷ rest) =
    with_votes
      (λ votes tc signature. record {
        qc = record { proposal_hash = hash; view = qc_view; votes = votes };
        tc = tc;
        payload = record { block_hash = block; block_number = number };
        view = view;
        author = author;
        signature = signature;
      })
      (get_votes rest)
get_proposal _ = failed "too short"

get-put_proposal : (p : Proposal) → get_proposal (put_proposal p) ≡ answered p
get-put_proposal p = rw (
  get-put_votes p.qc.votes (put_tc p.tc (put_signature p.signature)),
  get-put_tc p.tc (put_signature p.signature),
  get-put_signature p.signature,
)

abbrev get_message : Bytes → External ConsensusMessage
get_message [] = answered phantom
get_message (x ∷ rest) = as_message (get_proposal (x ∷ rest))
  where
    as_message : External Proposal → External ConsensusMessage
    as_message (answered p) = answered (propose p)
    as_message (failed e) = failed e

abbrev pub toy_codec : Codec
toy_codec = record {
  as_ref = λ h. h ∷ [];
  encode_proposal = put_proposal;
  decode_proposal = get_proposal;
  decode_message = get_message;
}

abbrev pub toy : Environment
toy = record { crypto = toy_crypto; codec = toy_codec; client = toy_client }

pub toy-StoreLaws : StoreLaws toy
toy-StoreLaws = record {
  get_aux-insert_aux = λ s t key value e. ground (arith, same_bytes_refl key);
  get_aux-insert_aux_ne = λ s t key other value e differ. ground (arith, same_bytes-eq key other);
  decode-encode = get-put_proposal;
  as_ref_injective = λ h k e. ground arith;
}
