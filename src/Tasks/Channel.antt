-- ===== src/Tasks/Channel.antt =====
-- consensus.rs: the messages between the network task and the worker.
use mathlib.Core.List.{Sublistᴰ, append_assoc, append-nil}
use mathlib.Core.List.Sublistᴰ as Sub
use substrate_hot_stuff.Prelude.{
  ℕ, ◌-◌, ◌≤◌, ◌≡◌, refl, sym, ◌∙◌, subst, List, [], ◌∷◌, ◌++◌, Bool, true, false, if◌then◌else◌,
  ◌==◌, length, length-append, arith, Bool-cases, inl, inr,
}
use substrate_hot_stuff.Environment.{Environment}
use substrate_hot_stuff.Message.ConsensusMessage.{ConsensusMessage}
use substrate_hot_stuff.Worker.Handlers.{timer}
use substrate_hot_stuff.NetworkTask.{channel_capacity}
use substrate_hot_stuff.NetworkTask.Delivery.{first_of, decoded, poll-channel}
use substrate_hot_stuff.Tasks.Replay.{
  tick, messages, messages-append, first_input, inputs_by, inputs, replay, act_all-replay,
}
use substrate_hot_stuff.Tasks.{
  Tasks, network_of, Activity, polled, receives, ticks, poll_network, take_event, take_message, act,
  act_all,
}

first_of-length : (ms : List ConsensusMessage) (n : ℕ) → length (first_of ms n) ≤ n
first_of-length [] n = omega arith
first_of-length (m ∷ ms) n = ground (arith, first_of-length ms (n - 1))

first_of-Sublistᴰ : (ms : List ConsensusMessage) (n : ℕ) → Sublistᴰ (first_of ms n) ms
first_of-Sublistᴰ [] n = Sub.slnil
first_of-Sublistᴰ (m ∷ ms) n = elim (Bool-cases (n == 0)) [
  | inl none_left ↦ rw none_left (Sub.nil-sublist (m ∷ ms))
  | inr more ↦ rw more (Sub.cons-cons refl (first_of-Sublistᴰ ms (n - 1)))
]

module _ (env : Environment) where
  abbrev first_message : List ConsensusMessage → List ConsensusMessage
  first_message [] = []
  first_message (m ∷ ms) = m ∷ []

  -- The message that an activity hands to the worker.
  abbrev handled_by : Activity env → Tasks env → List ConsensusMessage
  handled_by receives t = if t.ended then [] else first_message t.channel
  handled_by _ t = []

  -- The messages that come from the network and decode.
  abbrev arrives : Activity env → List ConsensusMessage
  arrives (polled notifications imported finalized) = decoded env.codec notifications
  arrives _ = []

  abbrev pub arrivals : List (Activity env) → List ConsensusMessage
  arrivals [] = []
  arrivals (a ∷ activities) = arrives a ++ arrivals activities

  -- A channel that grew by the messages that fit, or was closed.
  grows :
      (ended : Bool) (before after ms : List ConsensusMessage)
      → length before ≤ channel_capacity
      → after ≡ before ++ first_of ms (channel_capacity - length before)
      → (length (if ended then before else after) ≤ channel_capacity)
        × Sublistᴰ (if ended then before else after) (before ++ ms)
  grows true before after ms h e = (
    h,
    subst (λ x. Sublistᴰ x (before ++ ms)) (append-nil before)
        (Sub.append (Sub.refl before) (Sub.nil-sublist ms)),
  )
  grows false before after ms h e = rw e (
    omega (
      arith,
      h,
      length-append before (first_of ms (channel_capacity - length before)),
      first_of-length ms (channel_capacity - length before),
    ),
    Sub.append (Sub.refl before) (first_of-Sublistᴰ ms (channel_capacity - length before)),
  )

module _ (env : Environment) (fuel : ℕ) where
  abbrev handled : List (Activity env) → Tasks env → List ConsensusMessage
  handled [] t = []
  handled (a ∷ activities) t = handled_by env a t ++ handled activities (act env fuel a t)

  -- A worker that takes the first message, if it has not ended.
  takes :
      (ended : Bool) (ms : List ConsensusMessage) (t : Tasks env)
      → t.channel ≡ ms
      → length ms ≤ channel_capacity
      → (length (if ended then t else take_message env fuel ms t).channel ≤ channel_capacity)
        × Sublistᴰ
            ((if ended then [] else first_message env ms)
              ++ (if ended then t else take_message env fuel ms t).channel)
            ms
  unfolding take_message take_event
  takes true ms t e h = rw e (h, Sub.refl ms)
  takes false [] t e h = rw e (h, Sub.refl [])
  takes false (m ∷ ms) t e h = (omega (arith, h), Sub.refl (m ∷ ms))

  ticks_on :
      (ended : Bool) (t : Tasks env)
      → (if ended then t else take_event env fuel timer t).channel ≡ t.channel
  unfolding take_event
  ticks_on true t = refl
  ticks_on false t = refl

  abbrev Fits : Tasks env → Type 0
  Fits t = length t.channel ≤ channel_capacity

  -- One activity keeps the channel within its capacity; what it hands on, and then the channel, come
  -- in order from the channel before and what arrived.
  act_in_order :
      (a : Activity env) (t : Tasks env)
      → Fits t
      → Fits (act env fuel a t)
        × Sublistᴰ (handled_by env a t ++ (act env fuel a t).channel) (t.channel ++ arrives env a)
  unfolding act poll_network
  act_in_order (polled bs imported finalized) t h =
      grows env t.ended t.channel _ (decoded env.codec bs) h
        (poll-channel env.codec bs imported finalized (network_of env t) h)
  act_in_order receives t h = rw (append-nil t.channel) (takes t.ended t.channel t refl h)
  act_in_order ticks t h = rw (append-nil t.channel, ticks_on t.ended t) (h, Sub.refl t.channel)

  all_in_order :
      (activities : List (Activity env)) (t : Tasks env)
      → length t.channel ≤ channel_capacity
      → (length (act_all env fuel activities t).channel ≤ channel_capacity)
        × Sublistᴰ
            (handled activities t ++ (act_all env fuel activities t).channel)
            (t.channel ++ arrivals env activities)
  all_in_order [] t h = rw (append-nil t.channel) (h, Sub.refl t.channel)
  all_in_order (a ∷ activities) t h =
      let u = act env fuel a t in
      let (fits, in_order) = act_in_order a t h in
      let (end_fits, rest) = all_in_order activities u fits in
      (
        end_fits,
        Sub.trans {l₂ = handled_by env a t ++ (u.channel ++ arrivals env activities)}
            (rw
              (append_assoc (handled_by env a t) (handled activities u)
                (act_all env fuel activities u).channel)
              (Sub.append (Sub.refl (handled_by env a t)) rest))
            (rw
              (
                sym (append_assoc (handled_by env a t) u.channel (arrivals env activities)),
                sym (append_assoc t.channel (arrives env a) (arrivals env activities)),
              )
              (Sub.append in_order (Sub.refl (arrivals env activities)))),
      )

  messages-inputs_by :
      (a : Activity env) (t : Tasks env) → messages (inputs_by env fuel a t) ≡ handled_by env a t
  messages-inputs_by (polled bs imported finalized) t = refl
  messages-inputs_by receives t = by_channel t.ended t.channel
    where
      by_channel :
          (ended : Bool) (ms : List ConsensusMessage)
          → messages (if ended then [] else first_input env fuel ms)
            ≡ (if ended then [] else first_message env ms)
      by_channel true ms = refl
      by_channel false [] = refl
      by_channel false (m ∷ ms) = refl
  messages-inputs_by ticks t = by_end t.ended
    where
      by_end : (ended : Bool) → messages (if ended then [] else tick ∷ []) ≡ []
      by_end true = refl
      by_end false = refl

  messages-inputs :
      (activities : List (Activity env)) (t : Tasks env)
      → messages (inputs env fuel activities t) ≡ handled activities t
  messages-inputs [] t = refl
  messages-inputs (a ∷ activities) t =
      let u = act env fuel a t in
      messages-append (inputs_by env fuel a t) (inputs env fuel activities u)
      ∙ rw (messages-inputs_by a t, messages-inputs activities u) refl

  -- The channel between the two tasks, whatever they do and in any order, from a channel within its
  -- capacity of 1000. The worker ends as it would by itself on a list of inputs, one after the other:
  -- messages, which it handles, ticks of its timer, and polls of the queue that is shared. The channel
  -- stays within its capacity; and the messages of these inputs, followed by those that wait in the
  -- channel, are a subsequence of the messages that waited at the start followed by those that came from
  -- the network and decoded. So no message that the worker handles is made up, doubled or overtaken.
  pub act_all-Sublistᴰ :
      (activities : List (Activity env)) (t : Tasks env)
      → length t.channel ≤ channel_capacity
      → let given = inputs env fuel activities t in
        let u = act_all env fuel activities t in
        (u.worker ≡ replay env fuel given t.worker)
        × (length u.channel ≤ channel_capacity)
        × Sublistᴰ (messages given ++ u.channel) (t.channel ++ arrivals env activities)
  act_all-Sublistᴰ activities t h =
      let u = act_all env fuel activities t in
      let (fits, in_order) = all_in_order activities t h in
      (
        act_all-replay env fuel activities t,
        fits,
        subst (λ ms. Sublistᴰ (ms ++ u.channel) (t.channel ++ arrivals env activities))
            (sym (messages-inputs activities t)) in_order,
      )
