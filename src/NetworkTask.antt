-- ===== src/NetworkTask.antt =====
-- hotstuff/consensus/src/consensus.rs: `ConsensusNetwork`, the task that hands the gossip to the
-- worker's channel and polls the queue of blocks. The notifications that are ready at a poll are a
-- list; the channel of `start_hotstuff` holds 1000 messages.
pub mod Delivery
use substrate_hot_stuff.Prelude.{ℕ, List, [], ◌∷◌, ◌++◌, Bool, length, ltb, if◌then◌else◌}
use substrate_hot_stuff.Primitives.{
  Bytes, BlockNumber, Result, ok, err, other, External, answered, failed,
}
use substrate_hot_stuff.Message.ConsensusMessage.{ConsensusMessage}
use substrate_hot_stuff.Message.Codec.{Codec}
use substrate_hot_stuff.Worker.Defs.{BlockInfo}
use substrate_hot_stuff.Queue.{ImportNotification}
use substrate_hot_stuff.Queue

-- The capacity that `start_hotstuff` gives the channel.
abbrev pub channel_capacity : ℕ
channel_capacity = 1000

pub record ConsensusNetwork : Type 0 where
  pub channel : List ConsensusMessage  -- sent and not yet received by the worker
  pub pending_queue : List BlockInfo
  pub queue_poisoned : Bool

module _ (codec : Codec) where
  -- `try_send`
  unfoldable pub try_send :
      ConsensusMessage → ConsensusNetwork → Result (Unit {0}) × ConsensusNetwork
  try_send message n =
      if ltb (length n.channel) channel_capacity
      then (ok tt, record n { channel = n.channel ++ message ∷ [] })
      else (err (other "no available capacity"), n)

  unfoldable pub send_decoded :
      External ConsensusMessage → ConsensusNetwork → Result (Unit {0}) × ConsensusNetwork
  send_decoded (failed e) n = (err (other e), n)
  send_decoded (answered message) n = try_send message n

  unfoldable pub incoming_message_handler :
      Bytes → ConsensusNetwork → Result (Unit {0}) × ConsensusNetwork
  incoming_message_handler notification n = send_decoded (codec.decode_message notification) n

  -- The loop over the notifications: an error is only logged.
  unfoldable pub receive_all : List Bytes → ConsensusNetwork → ConsensusNetwork
  receive_all [] n = n
  receive_all (notification ∷ notifications) n =
      receive_all notifications (incoming_message_handler notification n).1

  unfoldable pub poll :
      List Bytes → List ImportNotification → List BlockNumber → ConsensusNetwork → ConsensusNetwork
  poll notifications imported finalized n =
      let received = receive_all notifications n in
      record received {
        pending_queue =
            Queue.poll received.queue_poisoned imported finalized received.pending_queue;
      }
