-- ===== src/Examples/Sevens.antt =====
-- Seven authorities, of which 2 and 3 are faulty and lead the views 1 and 2: their crypto and their proposals.
use substrate_hot_stuff.Prelude.{
  ℕ, zero, suc, ◌+◌, ◌*◌, ◌≡◌, ◌≢◌, refl, [], ◌∷◌, map, true, ◌&&◌, Option, none, some, elem, ◌==◌,
  if◌then◌else◌, arith,
}
use substrate_hot_stuff.Primitives.{Bytes, Hash, AuthorityId, AuthorityList, ViewNumber}
use substrate_hot_stuff.Crypto.{Crypto}
use substrate_hot_stuff.Environment.{Environment}
use substrate_hot_stuff.Message.Qc.{Qc}
use substrate_hot_stuff.Message.Qc
use substrate_hot_stuff.Message.Payload.{Payload}
use substrate_hot_stuff.Message.Proposal.{Proposal}
use substrate_hot_stuff.Message.Proposal
use substrate_hot_stuff.Agreement.{IsDigesting}
use substrate_hot_stuff.Agreement.Finality.{IsHashing}
use substrate_hot_stuff.Examples.World.{number_of, toy_client}
use substrate_hot_stuff.Examples.Codec.{toy_codec}
use substrate_hot_stuff.Examples.Agreeing.{doubled, doubled_inj}

-- One number for two, the first small.
abbrev paired : ℕ → ℕ → ℕ
paired a b = doubled a (2 * b + 1)

-- A proposal's digest is 0, a vote's 1 and a timeout's 2 up to a multiple of 4.
abbrev spread : Bytes → Hash
spread (a ∷ b ∷ []) = 4 * number_of 0 (a ∷ b ∷ []) + 2
spread (h ∷ b ∷ v ∷ []) = 4 * paired v h + 1
spread (author ∷ block ∷ b ∷ n ∷ view ∷ parent ∷ d ∷ []) =
    4 * paired author (paired block (paired n (paired view parent)))
spread bytes = 4 * number_of 0 bytes

doubled_pos : (a x : ℕ) → doubled a (2 * x + 1) ≢ 0
doubled_pos zero x e = omega (arith, e)
doubled_pos (suc a) x e = doubled_pos a x (omega (arith, e))

abbrev pub seven : AuthorityList
seven = map (λ id. (id, 1)) (1 ∷ 2 ∷ 3 ∷ 4 ∷ 5 ∷ 6 ∷ 7 ∷ [])

abbrev pub proposal : Qc → Hash → ℕ → ViewNumber → AuthorityId → Option ℕ → Proposal
proposal qc block number view author signature = record {
  qc = qc;
  tc = none;
  payload = record { block_hash = block; block_number = number };
  view = view;
  author = author;
  signature = signature;
}

abbrev pub first_digest : Hash
first_digest = 4 * paired 2 (paired 9 (paired 3 (paired 1 0)))

abbrev pub second_digest : Hash
second_digest = 4 * paired 3 (paired 10 (paired 4 (paired 2 first_digest)))

abbrev pub vote_digest : Hash → ViewNumber → Hash
vote_digest h view = 4 * paired view h + 1

abbrev pub crypto : Crypto
crypto = record {
  hash_of = spread;
  hash = spread;
  encode_hash = λ h. h ∷ 0 ∷ [];
  encode_u64 = λ n. n ∷ [];
  encode_authority = λ id. id ∷ [];
  encode_number = λ n. n ∷ [];
  verify_signature = λ s d id.
      s == d + id
      && (if elem id (2 ∷ 3 ∷ [])
          then true
          else elem d (vote_digest first_digest 1 ∷ vote_digest second_digest 2 ∷ []));
}

abbrev pub env : Environment
env = record { crypto = crypto; codec = toy_codec; client = toy_client }

spread-differs : (h v : ℕ) (p : Proposal) → spread (h ∷ 0 ∷ v ∷ []) ≢ Proposal.digest crypto p
unfolding Proposal.digest
spread-differs h v p e = omega (arith, e)

pub env-IsDigesting : IsDigesting crypto
env-IsDigesting = record {
  votes_differ = λ h k v w e. doubled_inj v w h k (omega (arith, e));
  vote_not_timeout = λ h v a b e. omega (arith, e);
  vote_not_proposal = spread-differs;
}

same_payload :
    (p q : Payload) → p.block_hash ≡ q.block_hash → p.block_number ≡ q.block_number → p ≡ q
same_payload p q a b = rw (a, b) refl

paired_inj : (a b x y : ℕ) → paired a x ≡ paired b y → (x ≡ y) × (a ≡ b)
paired_inj a b x y e = doubled_inj a b x y e

abbrev from_view : Proposal → ℕ
from_view p = paired p.view p.qc.proposal_hash

abbrev from_number : Proposal → ℕ
from_number p = paired p.payload.block_number (from_view p)

abbrev from_block : Proposal → ℕ
from_block p = paired p.payload.block_hash (from_number p)

proposals_differ :
    (p q : Proposal)
    → Proposal.digest crypto p ≡ Proposal.digest crypto q
    → (p.view ≡ q.view) × (p.payload ≡ q.payload)
unfolding Proposal.digest
proposals_differ p q e =
    let (one, author) =
      paired_inj p.author q.author (from_block p) (from_block q) (omega (arith, e)) in
    let (two, block) =
      paired_inj p.payload.block_hash q.payload.block_hash (from_number p) (from_number q) one in
    let (three, number) =
      paired_inj p.payload.block_number q.payload.block_number (from_view p) (from_view q) two in
    let (four, view) = paired_inj p.view q.view p.qc.proposal_hash q.qc.proposal_hash three in
    (view, same_payload p.payload q.payload block number)

pub env-IsHashing : IsHashing crypto
unfolding Proposal.digest
env-IsHashing = record {
  proposals_differ = proposals_differ;
  not_default = λ p e. doubled_pos p.author (from_block p) (omega (arith, e));
}

abbrev certificate : Hash → ViewNumber → Qc
certificate h view = record {
  proposal_hash = h;
  view = view;
  votes = map (λ id. (id, vote_digest h view + id)) (1 ∷ 4 ∷ 5 ∷ 6 ∷ 7 ∷ []);
}

abbrev pub first : Proposal
first = proposal Qc.default 9 3 1 2 (some (first_digest + 2))

abbrev pub second : Proposal
second = proposal (certificate first_digest 1) 10 4 2 3 (some (second_digest + 3))

-- The leaders of the views 8 and 9 are the faulty ones again.
abbrev pub third : ViewNumber → AuthorityId → Proposal
third view author =
    let unsigned = proposal (certificate second_digest 2) 11 5 view author none in
    record unsigned { signature = some (Proposal.digest crypto unsigned + author) }
