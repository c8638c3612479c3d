-- ===== src/Tasks/Replay.antt =====
-- consensus.rs: what the worker is given among the tasks, and what it makes of that on its own.
use substrate_hot_stuff.Prelude.{
  ℕ, ◌≡◌, refl, sym, ap, ◌∙◌, List, [], ◌∷◌, ◌++◌, Bool, true, false, if◌then◌else◌,
}
use substrate_hot_stuff.Primitives.{BlockNumber}
use substrate_hot_stuff.Environment.{Environment}
use substrate_hot_stuff.Message.ConsensusMessage.{ConsensusMessage}
use substrate_hot_stuff.Queue.{ImportNotification}
use substrate_hot_stuff.Queue
use substrate_hot_stuff.NetworkTask
use substrate_hot_stuff.NetworkTask.Delivery.{receive_all-queue}
use substrate_hot_stuff.Worker.Proposals.{Node}
use substrate_hot_stuff.Worker.Handlers.{timer, received, handle_event}
use substrate_hot_stuff.Tasks.{
  Tasks, network_of, Activity, polled, receives, ticks, poll_network, take_event, take_message, act,
  act_all,
}

-- A message, a tick of the timer, or a poll of the queue that is shared.
pub data Input : Type 0 where
  message : ConsensusMessage → Input
  tick : Input
  shared_poll : List ImportNotification → List BlockNumber → Input

abbrev pub messages : List Input → List ConsensusMessage
messages [] = []
messages (message m ∷ inputs) = m ∷ messages inputs
messages (_ ∷ inputs) = messages inputs

pub messages-append : (xs ys : List Input) → messages (xs ++ ys) ≡ messages xs ++ messages ys
messages-append [] ys = refl
messages-append (message m ∷ xs) ys = ap (λ ms. m ∷ ms) (messages-append xs ys)
messages-append (tick ∷ xs) ys = messages-append xs ys
messages-append (shared_poll imported finalized ∷ xs) ys = messages-append xs ys

module _ (env : Environment) (fuel : ℕ) where
  -- The worker alone, on one input after the other.
  abbrev pub respond : Input → Node env → Node env
  respond (message m) w = (handle_event env fuel (received m) w).1
  respond tick w = (handle_event env fuel timer w).1
  respond (shared_poll imported finalized) w = record w {
    pending_finalize_queue =
        Queue.poll w.queue_poisoned imported finalized w.pending_finalize_queue;
  }

  abbrev pub replay : List Input → Node env → Node env
  replay [] w = w
  replay (i ∷ inputs) w = replay inputs (respond i w)

  replay-append :
      (xs ys : List Input) (w : Node env) → replay (xs ++ ys) w ≡ replay ys (replay xs w)
  replay-append [] ys w = refl
  replay-append (x ∷ xs) ys w = replay-append xs ys (respond x w)

  abbrev pub first_input : List ConsensusMessage → List Input
  first_input [] = []
  first_input (m ∷ ms) = message m ∷ []

  -- What an activity gives to the worker: the front of the channel, a tick, or a poll.
  abbrev pub inputs_by : Activity env → Tasks env → List Input
  inputs_by (polled notifications imported finalized) t = shared_poll imported finalized ∷ []
  inputs_by receives t = if t.ended then [] else first_input t.channel
  inputs_by ticks t = if t.ended then [] else tick ∷ []

  abbrev pub inputs : List (Activity env) → Tasks env → List Input
  inputs [] t = []
  inputs (a ∷ activities) t = inputs_by a t ++ inputs activities (act env fuel a t)

  receives-replay :
      (ended : Bool) (ms : List ConsensusMessage) (t : Tasks env)
      → (if ended then t else take_message env fuel ms t).worker
        ≡ replay (if ended then [] else first_input ms) t.worker
  unfolding take_message take_event
  receives-replay true ms t = refl
  receives-replay false [] t = refl
  receives-replay false (m ∷ ms) t = refl

  ticks-replay :
      (ended : Bool) (t : Tasks env)
      → (if ended then t else take_event env fuel timer t).worker
        ≡ replay (if ended then [] else tick ∷ []) t.worker
  unfolding take_event
  ticks-replay true t = refl
  ticks-replay false t = refl

  act-replay :
      (a : Activity env) (t : Tasks env)
      → (act env fuel a t).worker ≡ replay (inputs_by a t) t.worker
  unfolding act poll_network NetworkTask.poll
  act-replay (polled bs imported finalized) t =
      let (same, locked) = receive_all-queue env.codec bs (network_of env t) in
      rw (same, locked) refl
  act-replay receives t = receives-replay t.ended t.channel t
  act-replay ticks t = ticks-replay t.ended t

  -- Among the tasks the worker is as it would be on its inputs alone.
  pub act_all-replay :
      (activities : List (Activity env)) (t : Tasks env)
      → (act_all env fuel activities t).worker ≡ replay (inputs activities t) t.worker
  act_all-replay [] t = refl
  act_all-replay (a ∷ activities) t =
      let u = act env fuel a t in
      act_all-replay activities u
      ∙ ap (replay (inputs activities u)) (act-replay a t)
      ∙ sym (replay-append (inputs_by a t) (inputs activities u) t.worker)
