-- ===== src/NetworkTask/Delivery.antt =====
-- consensus.rs, `ConsensusNetwork`: which messages reach the worker's channel.
use mathlib.Core.List.{append-nil, append_assoc}
use substrate_hot_stuff.Prelude.{
  ℕ, ◌+◌, ◌-◌, ◌≤◌, ◌≡◌, refl, sym, ◌∙◌, List, [], ◌∷◌, ◌++◌, false, length, length-append, ltb,
  ◌==◌, if◌then◌else◌, arith, Bool-cases, inl, inr,
}
use substrate_hot_stuff.Primitives.{Bytes, BlockNumber, External, answered, failed}
use substrate_hot_stuff.Message.ConsensusMessage.{ConsensusMessage}
use substrate_hot_stuff.Message.Codec.{Codec}
use substrate_hot_stuff.Queue.{ImportNotification}
use substrate_hot_stuff.NetworkTask.{
  ConsensusNetwork, channel_capacity, try_send, send_decoded, incoming_message_handler, receive_all,
  poll,
}

-- The first `n` messages.
abbrev pub first_of : List ConsensusMessage → ℕ → List ConsensusMessage
first_of [] n = []
first_of (m ∷ ms) n = if n == 0 then [] else m ∷ first_of ms (n - 1)

first_of_none : (ms : List ConsensusMessage) → first_of ms 0 ≡ []
first_of_none [] = refl
first_of_none (m ∷ ms) = refl

module _ (codec : Codec) where
  abbrev cons_decoded : External ConsensusMessage → List ConsensusMessage → List ConsensusMessage
  cons_decoded (answered m) ms = m ∷ ms
  cons_decoded (failed e) ms = ms

  -- The messages that decode, in order.
  abbrev pub decoded : List Bytes → List ConsensusMessage
  decoded [] = []
  decoded (b ∷ bs) = cons_decoded (codec.decode_message b) (decoded bs)

  receive_all-channel :
      (bs : List Bytes) (n : ConsensusNetwork)
      → length n.channel ≤ channel_capacity
      → (receive_all codec bs n).channel
        ≡ n.channel ++ first_of (decoded bs) (channel_capacity - length n.channel)
  unfolding receive_all incoming_message_handler send_decoded try_send
  receive_all-channel [] n h = sym (append-nil n.channel)
  receive_all-channel (b ∷ bs) n h =
      by_message (λ m k. receive_all-channel bs m k) (codec.decode_message b)
    where
      by_message :
          ((m : ConsensusNetwork)
            → length m.channel ≤ channel_capacity
            → (receive_all codec bs m).channel
              ≡ m.channel ++ first_of (decoded bs) (channel_capacity - length m.channel))
          → (x : External ConsensusMessage)
          → (receive_all codec bs (send_decoded codec x n).1).channel
            ≡ n.channel
              ++ first_of (cons_decoded x (decoded bs)) (channel_capacity - length n.channel)
      by_message rest (failed e) = rest n h
      by_message rest (answered m) = elim (Bool-cases (ltb (length n.channel) channel_capacity)) [
        | inl room ↦
            let grown : length (n.channel ++ m ∷ []) ≡ length n.channel + 1 =
              length-append n.channel (m ∷ []) in
            let left : channel_capacity - length (n.channel ++ m ∷ [])
                ≡ channel_capacity - length n.channel - 1 =
              omega (arith, grown) in
            let some_left : (channel_capacity - length n.channel == 0) ≡ false = ground arith in
            rw (room, some_left)
              (rest (record n { channel = n.channel ++ m ∷ [] }) (ground (arith, grown))
                ∙ rw (append_assoc n.channel (m ∷ []) _, left))
        | inr full ↦
            let none_left : channel_capacity - length n.channel ≡ 0 = ground arith in
            rw (full, none_left) (rest n h ∙ rw (none_left, first_of_none (decoded bs)))
      ]

  -- Receiving does not touch the queue of blocks.
  pub receive_all-queue :
      (bs : List Bytes) (n : ConsensusNetwork)
      → ((receive_all codec bs n).pending_queue ≡ n.pending_queue)
        × ((receive_all codec bs n).queue_poisoned ≡ n.queue_poisoned)
  unfolding receive_all incoming_message_handler send_decoded try_send
  receive_all-queue [] n = (refl, refl)
  receive_all-queue (b ∷ bs) n = by_message (receive_all-queue bs) (codec.decode_message b)
    where
      by_message :
          ((m : ConsensusNetwork)
            → ((receive_all codec bs m).pending_queue ≡ m.pending_queue)
              × ((receive_all codec bs m).queue_poisoned ≡ m.queue_poisoned))
          → (x : External ConsensusMessage)
          → ((receive_all codec bs (send_decoded codec x n).1).pending_queue ≡ n.pending_queue)
            × ((receive_all codec bs (send_decoded codec x n).1).queue_poisoned ≡ n.queue_poisoned)
      by_message rest (failed e) = rest n
      by_message rest (answered m) = elim (Bool-cases (ltb (length n.channel) channel_capacity)) [
        | inl room ↦ rw room (rest (record n { channel = n.channel ++ m ∷ [] }))
        | inr full ↦ rw full (rest n)
      ]

  -- A poll of the network task appends the messages that decode to the worker's channel, in the
  -- order of the notifications, as many as fit below its capacity of 1000; the others are lost.
  -- This is of a channel that was within its capacity.
  pub poll-channel :
      (bs : List Bytes) (imported : List ImportNotification) (finalized : List BlockNumber)
      (n : ConsensusNetwork)
      → length n.channel ≤ channel_capacity
      → (poll codec bs imported finalized n).channel
        ≡ n.channel ++ first_of (decoded bs) (channel_capacity - length n.channel)
  unfolding poll
  poll-channel bs imported finalized n h = receive_all-channel bs n h
