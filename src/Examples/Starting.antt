-- ===== src/Examples/Starting.antt =====
-- The tasks of authority 3, from its start.
use mathlib.Core.List.{Sublistᴰ}
use substrate_hot_stuff.Prelude.{
  ℕ, ◌≤◌, ◌≡◌, List, [], ◌∷◌, ◌++◌, true, Option, none, String, length, arith,
}
use substrate_hot_stuff.Primitives.{AuthorityId}
use substrate_hot_stuff.Worker.Steps.{Steps}
use substrate_hot_stuff.Tasks.{Tasks, Activity, polled, receives, ticks, act_all}
use substrate_hot_stuff.Tasks.Composed.{act_all-Steps}
use substrate_hot_stuff.Tasks.Replay.{messages, inputs, replay}
use substrate_hot_stuff.Tasks.Channel.{arrivals, act_all-Sublistᴰ}
use substrate_hot_stuff.Tasks.Started.{started}
use substrate_hot_stuff.Examples.World.{toy_keystore}
use substrate_hot_stuff.Examples.Codec.{toy}
use substrate_hot_stuff.Examples.Local.{sixth_bytes}

abbrev keys : List AuthorityId
keys = 1 ∷ 2 ∷ 3 ∷ 4 ∷ []

abbrev no_number : String → Option ℕ
no_number text = none

abbrev pub first_state : Tasks toy
first_state = started toy no_number none (toy_keystore 3) [] keys

-- Blocks 4 and 5 are imported, two notifications come of which one decodes, and the worker has a
-- tick before and after it takes the message.
abbrev pub activities : List (Activity toy)
activities =
    polled (sixth_bytes ∷ (1 ∷ []) ∷ [])
      (record { hash = 104; number = 4; is_new_best = true }
        ∷ record { hash = 105; number = 5; is_new_best = true }
        ∷ [])
      []
    ∷ ticks
    ∷ receives
    ∷ ticks
    ∷ []

act_all-Steps_example : Steps toy first_state.worker (act_all toy 9 activities first_state).worker
act_all-Steps_example = act_all-Steps toy 9 activities first_state

act_all-Sublistᴰ_example :
    let given = inputs toy 9 activities first_state in
    let last = act_all toy 9 activities first_state in
    (last.worker ≡ replay toy 9 given first_state.worker)
    × (length last.channel ≤ 1000)
    × Sublistᴰ (messages given ++ last.channel) (arrivals toy activities)
act_all-Sublistᴰ_example = act_all-Sublistᴰ toy 9 activities first_state (omega arith)
