-- ===== src/Worker/Payloads.antt =====
-- consensus.rs, `get_proposal_payload` and the bookkeeping of proposed payloads.
pub mod Choice
use substrate_hot_stuff.Prelude.{
  ℕ, ◌+◌, List, [], ◌∷◌, ◌++◌, Bool, true, false, not, ◌&&◌, Option, none, some, find, length, ltb,
  ◌==◌, if◌then◌else◌,
}
use mathlib.Core.List.{reverse}
use substrate_hot_stuff.Primitives.{Hash, BlockNumber}
use substrate_hot_stuff.Crypto.{Crypto}
use substrate_hot_stuff.Message.Payload.{Payload}
use substrate_hot_stuff.Worker.Defs.{BlockInfo, Worker, empty_payload_hash}

-- `hash.unwrap_or(empty)`
abbrev pub unwrap_or : Option Hash → Hash → Hash
unwrap_or none empty = empty
unwrap_or (some hash) empty = hash

module _ (empty : Hash) where
  abbrev pub empty_payload : BlockNumber → Payload
  empty_payload number = record { block_hash = empty; block_number = number }

  abbrev pub payload_of : BlockInfo → Payload
  payload_of b = record { block_hash = unwrap_or b.hash empty; block_number = b.number }

  -- `queue.iter().find(|elem| elem.number > finalized_number)`, or an empty payload.
  found_payload : Option BlockInfo → BlockInfo → Option BlockInfo × Payload
  found_payload none processing = (some processing, empty_payload processing.number)
  found_payload (some b) processing = (some b, payload_of b)

  -- No block in process: the front of the queue.
  front_payload : List BlockInfo → Option BlockInfo × Option Payload
  front_payload [] = (none, none)
  front_payload (b ∷ queue) = (some b, some (payload_of b))

  -- The new `processing_block` and the payload, of a queue that could be locked.
  unfoldable pub choose_payload :
      BlockNumber → List BlockInfo → Option BlockInfo → Option BlockInfo × Option Payload
  unfolding found_payload front_payload
  choose_payload finalized_number queue (some processing) =
      let (next, payload) =
        found_payload (find (λ elem. ltb finalized_number elem.number) queue) processing in
      if ltb finalized_number processing.number
      then (some processing, some (empty_payload processing.number))
      else (next, some payload)
  choose_payload finalized_number queue none = front_payload queue

module _ {Chain : Type 0} where
  unfoldable pub get_proposal_payload :
      Crypto → BlockNumber → Worker Chain → Option Payload × Worker Chain
  unfolding choose_payload
  get_proposal_payload c finalized_number w =
      let (next, payload) =
        choose_payload (empty_payload_hash c) finalized_number w.pending_finalize_queue
          w.processing_block in
      if w.queue_poisoned then (none, w) else (payload, record w { processing_block = next })

-- The loop of `handle_vote` over the proposed payloads, latest first: whether it returns early,
-- since the last two payloads were empty and so is this one.
unfoldable pub empty_run : Hash → Hash → List Hash → ℕ → Bool
empty_run empty payload_hash [] count = false
empty_run empty payload_hash (item ∷ rest) count =
    let more = empty_run empty payload_hash rest (count + 1) in
    if not (item == empty)
    then false
    else (if (count + 1) == 2 && payload_hash == empty then true else more)

unfoldable pub is_suppressed : Hash → Hash → List Hash → Bool
unfolding empty_run
is_suppressed empty payload_hash queue = empty_run empty payload_hash (reverse queue) 0

-- `if len() > 3 { clear() }`, then `push`.
unfoldable pub remember : Hash → List Hash → List Hash
remember payload_hash queue = (if ltb 3 (length queue) then [] else queue) ++ payload_hash ∷ []
