-- ===== src/Network/Window.antt =====
-- network.rs: which messages the validator lets through.
use substrate_hot_stuff.Prelude.{◌+◌, ◌≤◌, ◌≡◌, ◌↔◌, true, not, ◌&&◌, ◌==◌, arith}
use substrate_hot_stuff.Primitives.{Bytes, Hash, answered}
use substrate_hot_stuff.Crypto.{Crypto}
use substrate_hot_stuff.Message.Codec.{Codec}
use substrate_hot_stuff.Message.ConsensusMessage.{ConsensusMessage, gossip_topic}
use substrate_hot_stuff.Network.{
  GossipValidator, get_view, message_view, process_and_keep, discard, validate, message_expired,
  message_allowed,
}

module _ (c : Crypto) (codec : Codec) (v : GossipValidator) (bytes : Bytes) where
  -- The bytes are a message of the validator's view, the one before, or a later one.
  abbrev pub Kept : Type 0
  Kept =
      (message : ConsensusMessage) × (codec.decode_message bytes ≡ answered message)
      × (get_view v ≤ message_view message + 1)

  -- `validate` keeps exactly the bytes that decode to a message whose view is the validator's, the
  -- one before it, or a later one.
  validate_iff : (validate c codec v bytes ≡ process_and_keep (gossip_topic c)) ↔ Kept
  unfolding validate
  validate_iff = (ground arith, λ k. ground (arith, k))

  -- The three methods agree, though `validate` tests `current_view > 1` and the others
  -- `current_view >= 1`: a message is discarded on entry exactly if it counts as expired, and it
  -- may leave exactly if it has not expired and goes out under the consensus topic.
  pub filters_agree :
      (topic : Hash)
      → ((validate c codec v bytes ≡ discard) ↔ (message_expired c codec v topic bytes ≡ true))
        × (message_allowed c codec v topic bytes
            ≡ (topic == gossip_topic c && not (message_expired c codec v topic bytes)))
  unfolding validate message_expired message_allowed
  filters_agree topic = ((ground arith, ground arith), ground arith)
