-- ===== src/Tasks.antt =====
-- hotstuff/consensus/src/consensus.rs: `start_hotstuff` and the two tasks that it makes, the worker
-- and the network task, which share the channel of messages and the queue of blocks.
pub mod Composed
pub mod Replay
pub mod Channel
pub mod Started
use substrate_hot_stuff.Prelude.{
  ℕ, List, [], ◌∷◌, Bool, true, false, Option, none, some, String, if◌then◌else◌,
}
use substrate_hot_stuff.Primitives.{
  Bytes, AuthorityId, AuthorityList, BlockNumber, Result, ok, err, panic, exhausted, ◌>>=◌,
  External, answered, failed,
}
use substrate_hot_stuff.Crypto.{Keystore}
use substrate_hot_stuff.Environment.{Environment}
use substrate_hot_stuff.Message.ConsensusMessage.{ConsensusMessage}
use substrate_hot_stuff.Consensus.State
use substrate_hot_stuff.Queue.{ImportNotification}
use substrate_hot_stuff.Queue
use substrate_hot_stuff.NetworkTask.{ConsensusNetwork}
use substrate_hot_stuff.NetworkTask
use substrate_hot_stuff.Authorities.{get_genesis_authorities_from_client}
use substrate_hot_stuff.Worker.Defs.{BlockInfo}
use substrate_hot_stuff.Worker.Defs
use substrate_hot_stuff.Worker.Proposals.{Node}
use substrate_hot_stuff.Worker.Handlers.{Event, timer, received, handle_event}

-- The duration of the local timer, from the variable HOTSTUFF_DURATION; `parse` is `parse::<u64>`.
unfoldable pub local_timer_duration : (String → Option ℕ) → Option String → ℕ
local_timer_duration parse none = 3000
local_timer_duration parse (some value) = or_default (parse value)
  where
    or_default : Option ℕ → ℕ
    or_default none = 3000
    or_default (some duration) = duration

module _ (env : Environment) where
  -- The worker with the channel that it reads; the queue of blocks is the worker's. A worker that
  -- panicked has ended, and its end of the channel is closed.
  pub record Tasks : Type 0 where
    pub worker : Node env
    pub channel : List ConsensusMessage
    pub ended : Bool
    pub timer_duration : ℕ  -- of the worker's local timer

  -- `expect("error")`
  abbrev expect : Result (List BlockInfo) → Result (List BlockInfo)
  expect (ok queue) = ok queue
  expect (err e) = panic
  expect panic = panic
  expect exhausted = exhausted

  -- `variable` is the value of HOTSTUFF_DURATION.
  unfoldable pub start_hotstuff :
      (String → Option ℕ)
      → Option String
      → External (List AuthorityId)
      → Keystore
      → env.client.State
      → Result Tasks
  unfolding local_timer_duration
  start_hotstuff parse variable runtime keystore chain = do
    authorities ← get_genesis_authorities_from_client runtime
    queue ← expect (Queue.new env chain)
    ok (record {
      worker = Defs.new (State.new keystore authorities) chain queue false;
      channel = [];
      ended = false;
      timer_duration = local_timer_duration parse variable;
    })

  -- What happens next: the network task is polled, or the worker takes a message or a tick.
  pub data Activity : Type 0 where
    polled : List Bytes → List ImportNotification → List BlockNumber → Activity
    receives ticks : Activity

  -- The network task's part of the two.
  abbrev pub network_of : Tasks → ConsensusNetwork
  network_of t = record {
    channel = t.channel;
    pending_queue = t.worker.pending_finalize_queue;
    queue_poisoned = t.worker.queue_poisoned;
  }

  -- On a closed channel `try_send` fails; the queue is polled all the same.
  unfoldable pub poll_network :
      List Bytes → List ImportNotification → List BlockNumber → Tasks → Tasks
  poll_network notifications imported finalized t =
      let n = NetworkTask.poll env.codec notifications imported finalized (network_of t) in
      record t {
        channel = if t.ended then t.channel else n.channel;
        worker = record t.worker { pending_finalize_queue = n.pending_queue };
      }

  abbrev pub goes_on : Result (Unit {0}) → Bool
  goes_on (ok _) = true
  goes_on _ = false

  unfoldable pub take_event : ℕ → Event → Tasks → Tasks
  take_event fuel event t =
      let (result, worker) = handle_event env fuel event t.worker in
      record t { worker = worker; ended = if goes_on result then false else true }

  unfoldable pub take_message : ℕ → List ConsensusMessage → Tasks → Tasks
  take_message fuel [] t = t
  take_message fuel (message ∷ rest) t =
      take_event fuel (received message) (record t { channel = rest })

  unfoldable pub act : ℕ → Activity → Tasks → Tasks
  act fuel (polled notifications imported finalized) t =
      poll_network notifications imported finalized t
  act fuel receives t = let next = take_message fuel t.channel t in if t.ended then t else next
  act fuel ticks t = let next = take_event fuel timer t in if t.ended then t else next

  abbrev pub act_all : ℕ → List Activity → Tasks → Tasks
  act_all fuel [] t = t
  act_all fuel (a ∷ activities) t = act_all fuel activities (act fuel a t)
