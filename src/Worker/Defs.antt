-- ===== src/Worker/Defs.antt =====
-- consensus.rs: the state of `ConsensusWorker` and its small methods. The network bridge is the
-- validator's view and the messages handed to the gossip engine; `timer_resets` counts the calls
-- of `local_timer.reset()`; `sync_requests` are the calls of `set_sync_fork_request`.
use substrate_hot_stuff.Prelude.{
  ℕ, suc, List, [], ◌∷◌, ◌++◌, Bool, Option, none, some, codes, leb, if◌then◌else◌,
}
use substrate_hot_stuff.Primitives.{Hash, BlockNumber, ViewNumber}
use substrate_hot_stuff.Crypto.{Crypto}
use substrate_hot_stuff.Exec.{Exec, modify}
use substrate_hot_stuff.Message.Qc.{Qc}
use substrate_hot_stuff.Message.ConsensusMessage.{ConsensusMessage}
use substrate_hot_stuff.Consensus.State.{ConsensusState, advance_view_from_target, update_high_qc}
use substrate_hot_stuff.Network.{GossipValidator, set_view}
use substrate_hot_stuff.Network

-- hotstuff/consensus/src/import.rs: `BlockInfo`
pub record BlockInfo : Type 0 where
  pub hash : Option Hash
  pub number : BlockNumber

-- A message given to `gossip_message`, with the argument `force`.
pub record Gossip : Type 0 where
  pub message : ConsensusMessage
  pub force : Bool

pub record Worker (Chain : Type 0) : Type 0 where
  pub state : ConsensusState
  pub validator : GossipValidator
  pub outbox : List Gossip
  pub chain : Chain
  pub sync_requests : List (Hash × BlockNumber)
  pub timer_resets : ℕ
  pub processing_block : Option BlockInfo
  pub pending_finalize_queue : List BlockInfo
  pub queue_poisoned : Bool  -- whether locking the queue's mutex fails
  pub proposal_hash_queue : List Hash

-- `queue.lock().ok().and_then(|q| q.front().cloned())`
abbrev front {ℓ} : {A : Type ℓ} → List A → Option A
front [] = none
front (x ∷ xs) = some x

unfoldable pub empty_payload_hash : Crypto → Hash
empty_payload_hash c = c.hash (codes "hotstuff/empty_payload")

abbrev pub pending_front : List BlockInfo → Bool → Option BlockInfo
pending_front queue poisoned = if poisoned then none else front queue

module _ {Chain : Type 0} where
  -- `ConsensusWorker::new`
  abbrev pub new : ConsensusState → Chain → List BlockInfo → Bool → Worker Chain
  new state chain queue poisoned = record {
    state = state;
    validator = Network.new;
    outbox = [];
    chain = chain;
    sync_requests = [];
    timer_resets = 0;
    processing_block = pending_front queue poisoned;
    pending_finalize_queue = queue;
    queue_poisoned = poisoned;
    proposal_hash_queue = [];
  }

  unfoldable pub gossip_message : ConsensusMessage → Bool → Exec (Worker Chain) (Unit {0})
  gossip_message message force =
      modify λ w. record w { outbox = w.outbox ++ record { message = message; force = force } ∷ [] }

  unfoldable pub reset_timer : Exec (Worker Chain) (Unit {0})
  reset_timer = modify λ w. record w { timer_resets = suc w.timer_resets }

  -- `advance_view`: the state's view, and with it the validator's.
  unfoldable pub advance : ViewNumber → Worker Chain → Worker Chain
  advance view w =
      let state = advance_view_from_target w.state view in
      record w { state = state; validator = set_view w.validator state.view }

  unfoldable pub advance_view : ViewNumber → Exec (Worker Chain) (Unit {0})
  advance_view view = modify (advance view)

  unfoldable pub handle_qc : Qc → Worker Chain → Worker Chain
  handle_qc qc w =
      let v = advance qc.view w in
      if leb w.state.view qc.view
      then record v { state = update_high_qc v.state qc; timer_resets = suc v.timer_resets }
      else w
