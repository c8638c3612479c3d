-- ===== src/Message/Payload.antt =====
-- hotstuff/consensus/src/message.rs: `Payload`, the block that a proposal wants finalized.
use substrate_hot_stuff.Prelude.{◌++◌}
use substrate_hot_stuff.Primitives.{Bytes, Hash, BlockNumber}
use substrate_hot_stuff.Crypto.{Crypto}

pub record Payload : Type 0 where
  pub block_hash : Hash
  pub block_number : BlockNumber

-- The derived `Encode`: the fields in order.
unfoldable pub encode : Crypto → Payload → Bytes
encode c payload = c.encode_hash payload.block_hash ++ c.encode_number payload.block_number
