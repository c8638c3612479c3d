-- ===== src/Tasks/Composed.antt =====
-- consensus.rs: the worker among the tasks.
use substrate_hot_stuff.Prelude.{ℕ, List, [], ◌∷◌, Bool, true, false, if◌then◌else◌}
use substrate_hot_stuff.Primitives.{Bytes, BlockNumber}
use substrate_hot_stuff.Environment.{Environment}
use substrate_hot_stuff.Message.ConsensusMessage.{ConsensusMessage}
use substrate_hot_stuff.Queue.{ImportNotification}
use substrate_hot_stuff.NetworkTask
use substrate_hot_stuff.NetworkTask.Delivery.{receive_all-queue}
use substrate_hot_stuff.Worker.Proposals.{Node}
use substrate_hot_stuff.Worker.Handlers.{Event, timer, received}
use substrate_hot_stuff.Worker.Steps.{Steps, done, polls, Steps-trans, one}
use substrate_hot_stuff.Worker.Refines.Events.{handle_event-Steps}
use substrate_hot_stuff.Tasks.{
  Tasks, network_of, Activity, polled, receives, ticks, poll_network, take_event, take_message, act,
  act_all,
}

module _ (env : Environment) (fuel : ℕ) where
  choose-Steps :
      {w : Node env} (b : Bool) (x y : Tasks env)
      → Steps env w x.worker
      → Steps env w y.worker
      → Steps env w (if b then x else y).worker
  choose-Steps true x y h k = h
  choose-Steps false x y h k = k

  poll_network-Steps :
      (bs : List Bytes) (imported : List ImportNotification) (finalized : List BlockNumber)
      (t : Tasks env)
      → Steps env t.worker (poll_network env bs imported finalized t).worker
  unfolding poll_network NetworkTask.poll
  poll_network-Steps bs imported finalized t =
      let (same, locked) = receive_all-queue env.codec bs (network_of env t) in
      one env (polls imported finalized (rw (same, locked)))

  take_event-Steps :
      (e : Event) (t : Tasks env) → Steps env t.worker (take_event env fuel e t).worker
  unfolding take_event
  take_event-Steps e t = handle_event-Steps env fuel e t.worker

  take_message-Steps :
      (ms : List ConsensusMessage) (t : Tasks env)
      → Steps env t.worker (take_message env fuel ms t).worker
  unfolding take_message
  take_message-Steps [] t = done
  take_message-Steps (m ∷ ms) t = take_event-Steps (received m) (record t { channel = ms })

  act-Steps : (a : Activity env) (t : Tasks env) → Steps env t.worker (act env fuel a t).worker
  unfolding act
  act-Steps (polled bs imported finalized) t = poll_network-Steps bs imported finalized t
  act-Steps receives t = choose-Steps t.ended _ _ done (take_message-Steps t.channel t)
  act-Steps ticks t = choose-Steps t.ended _ _ done (take_event-Steps timer t)

  -- The worker among the tasks: whatever the two tasks do, in any order, what happens to the worker is
  -- a sequence of steps of the relation `Step`, the polls of the shared queue among them.
  pub act_all-Steps :
      (activities : List (Activity env)) (t : Tasks env)
      → Steps env t.worker (act_all env fuel activities t).worker
  act_all-Steps [] t = done
  act_all-Steps (a ∷ activities) t =
      Steps-trans env (act-Steps a t) (act_all-Steps activities (act env fuel a t))
