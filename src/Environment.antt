-- ===== src/Environment.antt =====
-- What a replica takes from outside the repository: the Substrate client with its block chain and
-- auxiliary store (`ClientForHotstuff`), the cryptography and the codec. The client's state is
-- abstract: every call is a function of it.
use substrate_hot_stuff.Prelude.{◌≡◌, ◌≢◌, Option, some}
use substrate_hot_stuff.Primitives.{Bytes, Hash, BlockNumber, External, answered}
use substrate_hot_stuff.Crypto.{Crypto}
use substrate_hot_stuff.Message.Proposal.{Proposal}
use substrate_hot_stuff.Message.Codec.{Codec}

pub data BlockStatus : Type 0 where
  in_chain unknown : BlockStatus

-- `client.info()`, the fields that are read.
pub record ChainInfo : Type 0 where
  pub finalized_hash : Hash
  pub finalized_number : BlockNumber
  pub best_number : BlockNumber

pub record Client : Type 1 where
  pub State : Type 0
  pub info : State → ChainInfo
  pub status : State → Hash → External BlockStatus
  pub block_hash_from_id : State → BlockNumber → External (Option Hash)
  pub finalize_block : State → Hash → External (Unit {0}) × State
  pub get_aux : State → Bytes → External (Option Bytes)
  pub insert_aux : State → Bytes → Bytes → External (Unit {0}) × State

pub record Environment : Type 1 where
  pub crypto : Crypto
  pub codec : Codec
  pub client : Client

-- What the store relies on: an entry reads back as written, other keys keep theirs, a proposal
-- decodes from its encoding, and a hash is known by its bytes.
pub record StoreLaws (env : Environment) : Type 0 where
  pub get_aux-insert_aux :
      (s t : env.client.State) (key value : Bytes)
      → env.client.insert_aux s key value ≡ (answered tt, t)
      → env.client.get_aux t key ≡ answered (some value)
  pub get_aux-insert_aux_ne :
      (s t : env.client.State) (key other value : Bytes)
      → env.client.insert_aux s key value ≡ (answered tt, t)
      → key ≢ other
      → env.client.get_aux t other ≡ env.client.get_aux s other
  pub decode-encode :
      (p : Proposal) → env.codec.decode_proposal (env.codec.encode_proposal p) ≡ answered p
  pub as_ref_injective : (h k : Hash) → env.codec.as_ref h ≡ env.codec.as_ref k → h ≡ k
