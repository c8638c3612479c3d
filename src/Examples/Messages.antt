-- ===== src/Examples/Messages.antt =====
-- The messages of the examples, with valid signatures.
use substrate_hot_stuff.Prelude.{◌+◌, List, [], ◌∷◌, map, none, some}
use substrate_hot_stuff.Primitives.{Hash, AuthorityId, ViewNumber}
use substrate_hot_stuff.Message.Qc.{Qc}
use substrate_hot_stuff.Message.Qc
use substrate_hot_stuff.Message.Tc.{Tc}
use substrate_hot_stuff.Message.Vote.{Vote}
use substrate_hot_stuff.Message.Timeout.{Timeout}
use substrate_hot_stuff.Message.Proposal.{Proposal}
use substrate_hot_stuff.Examples.World.{number_of}

abbrev pub vote_by : Hash → ViewNumber → AuthorityId → Vote
vote_by hash view id = record {
  proposal_hash = hash;
  view = view;
  voter = id;
  signature = some (number_of 0 (hash ∷ view ∷ []) + id);
}

abbrev pub qc_by : Hash → ViewNumber → List AuthorityId → Qc
qc_by hash view ids = record {
  proposal_hash = hash;
  view = view;
  votes = map (λ id. (id, number_of 0 (hash ∷ view ∷ []) + id)) ids;
}

-- A timeout in `view` with the default QC, whose view is 0.
abbrev pub timeout_by : ViewNumber → AuthorityId → Timeout
timeout_by view id = record {
  high_qc = Qc.default;
  view = view;
  voter = id;
  signature = some (number_of 0 (view ∷ 0 ∷ []) + id);
}

abbrev pub tc_by : ViewNumber → List AuthorityId → Tc
tc_by view ids = record {
  view = view;
  votes = map (λ id. (id, number_of 0 (view ∷ 0 ∷ []) + id, 0)) ids;
}

-- A proposal of block 9.
abbrev pub proposal_by : Qc → ViewNumber → AuthorityId → Proposal
proposal_by qc view id = record {
  qc = qc;
  tc = none;
  payload = record { block_hash = 9; block_number = 3 };
  view = view;
  author = id;
  signature = some (number_of 0 (id ∷ 9 ∷ 3 ∷ view ∷ qc.proposal_hash ∷ []) + id);
}

abbrev pub proposal_digest : Proposal → Hash
proposal_digest p =
    number_of 0
      (p.author ∷ p.payload.block_hash ∷ p.payload.block_number ∷ p.view ∷ p.qc.proposal_hash ∷ [])
