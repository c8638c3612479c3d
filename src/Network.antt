-- ===== src/Network.antt =====
-- hotstuff/consensus/src/network.rs: `GossipValidator`, which drops messages of old views. Its
-- state is the view that the worker sets through the bridge; the gossip engine, the peers and the
-- lock around the view are not modelled.
pub mod Window
pub mod Bridge
use substrate_hot_stuff.Prelude.{
  ℕ, zero, ◌-◌, Bool, true, false, not, ◌&&◌, ltb, leb, ◌==◌, if◌then◌else◌,
}
use substrate_hot_stuff.Primitives.{Bytes, Hash, ViewNumber, External, answered, failed}
use substrate_hot_stuff.Crypto.{Crypto}
use substrate_hot_stuff.Message.Codec.{Codec}
use substrate_hot_stuff.Message.ConsensusMessage.{
  ConsensusMessage, propose, vote, timeout, tc, sync_request, phantom, gossip_topic,
}

pub record GossipValidator : Type 0 where
  pub view : ViewNumber

abbrev pub new : GossipValidator
new = record { view = 0 }

abbrev pub set_view : GossipValidator → ViewNumber → GossipValidator
set_view v new_view = record { view = new_view }

abbrev pub get_view : GossipValidator → ViewNumber
get_view v = v.view

-- The `match` that the three methods repeat.
abbrev pub message_view : ConsensusMessage → ViewNumber
message_view (propose proposal) = proposal.view
message_view (vote v) = v.view
message_view (timeout t) = t.view
message_view (tc certificate) = certificate.view
message_view (sync_request hash id) = 0
message_view phantom = 0

pub data ValidationResult : Type 0 where
  process_and_keep : Hash → ValidationResult
  discard : ValidationResult

module _ (c : Crypto) where
  validate_message : GossipValidator → External ConsensusMessage → ValidationResult
  validate_message v (answered message) =
      let current_view = get_view v in
      if ltb 1 current_view && ltb (message_view message) (current_view - 1)
      then discard
      else process_and_keep (gossip_topic c)
  validate_message v (failed e) = discard

  unfoldable pub validate : Codec → GossipValidator → Bytes → ValidationResult
  unfolding validate_message
  validate codec v bytes = validate_message v (codec.decode_message bytes)

  expired : GossipValidator → External ConsensusMessage → Bool
  expired v (answered message) =
      let current_view = get_view v in
      if leb 1 current_view && ltb (message_view message) (current_view - 1) then true else false
  expired v (failed e) = true

  unfoldable pub message_expired : Codec → GossipValidator → Hash → Bytes → Bool
  unfolding expired
  message_expired codec v topic bytes = expired v (codec.decode_message bytes)

  allowed : GossipValidator → External ConsensusMessage → Bool
  allowed v (answered message) =
      let current_view = get_view v in
      if leb 1 current_view && ltb (message_view message) (current_view - 1) then false else true
  allowed v (failed e) = false

  unfoldable pub message_allowed : Codec → GossipValidator → Hash → Bytes → Bool
  unfolding allowed
  message_allowed codec v topic bytes =
      if not (topic == gossip_topic c) then false else allowed v (codec.decode_message bytes)
