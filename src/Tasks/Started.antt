-- ===== src/Tasks/Started.antt =====
-- consensus.rs: the tasks of `start_hotstuff`, from the start on.
use substrate_hot_stuff.Prelude.{
  ℕ, ◌≤◌, ◌<◌, ◌≡◌, refl, List, [], map, false, Option, String, arith, All,
}
use substrate_hot_stuff.Primitives.{
  AuthorityId, AuthorityList, ok, External, answered, failed, u64_mod,
}
use substrate_hot_stuff.Crypto.{Keystore}
use substrate_hot_stuff.Environment.{Environment}
use substrate_hot_stuff.Message.Authenticity.{CarriesQc}
use substrate_hot_stuff.Consensus.State
use substrate_hot_stuff.Queue
use substrate_hot_stuff.Authorities.{get_genesis_authorities_from_client}
use substrate_hot_stuff.Worker.Defs.{Gossip}
use substrate_hot_stuff.Worker.Safety.Signing.{IsSigning}
use substrate_hot_stuff.Worker.Safety.Votes.{Climbs, votes_in, Steps-Ordered}
use substrate_hot_stuff.Worker.Safety.Views.{Steps-Moves}
use substrate_hot_stuff.Worker.Safety.Certificates.{IsAccepted, fresh_worker, start-Inv, Steps-Inv}
use substrate_hot_stuff.Tasks.{local_timer_duration, Tasks, Activity, act_all, start_hotstuff}
use substrate_hot_stuff.Tasks.Composed.{act_all-Steps}

zero_le_zero : 0 ≤ 0
zero_le_zero = omega arith

zero_small : 0 < u64_mod
zero_small = omega arith

module _ (env : Environment) where
  -- What holds of the worker of tasks that began as `t` and have come to `u`.
  abbrev pub IsSafe : Tasks env → Tasks env → Type 0
  IsSafe t u =
      Climbs 0 (votes_in u.worker.outbox) u.worker.state.last_voted_view
      × All (λ (g : Gossip). IsAccepted env t.worker.state g.message) u.worker.outbox
      × CarriesQc env.crypto t.worker.state.authorities u.worker.state.high_qc
      × (u.worker.state.view < u64_mod)
      × (u.worker.validator.view ≡ u.worker.state.view)

module _ (env : Environment) (parse : String → Option ℕ) (variable : Option String)
    (keystore : Keystore) (chain : env.client.State) where
  -- The tasks at the start: the genesis keys with weight 0, and no block in the queue.
  abbrev pub started : List AuthorityId → Tasks env
  started keys = record {
    worker = fresh_worker env keystore (map (λ id. (id, 0)) keys) chain [];
    channel = [];
    ended = false;
    timer_duration = local_timer_duration parse variable;
  }

  -- What `start_hotstuff` makes, if it returns.
  pub start_hotstuff-started :
      (runtime : External (List AuthorityId)) (t : Tasks env)
      → start_hotstuff env parse variable runtime keystore chain ≡ ok t
      → (keys : List AuthorityId) × (runtime ≡ answered keys) × (t ≡ started keys)
  unfolding start_hotstuff get_genesis_authorities_from_client Queue.new
  start_hotstuff-started (failed e) t h = absurd (ground arith)
  start_hotstuff-started (answered keys) t h = (keys, refl, ground arith)

  pub started-act_all :
      (keys : List AuthorityId)
      → IsSigning env.crypto keystore
      → (fuel : ℕ) (activities : List (Activity env))
      → IsSafe env (started keys) (act_all env fuel activities (started keys))
  started-act_all keys signing fuel activities =
      let authorities : AuthorityList = map (λ id. (id, 0)) keys in
      let steps = act_all-Steps env fuel activities (started keys) in
      let i =
        Steps-Inv env (State.new keystore authorities) signing steps
          (start-Inv env keystore authorities signing chain []) in
      let m = Steps-Moves env steps in
      (
        Steps-Ordered env 0 steps zero_le_zero,
        i.accepted,
        i.certified.carried,
        m.small zero_small,
        m.followed refl,
      )

  -- From the start, whatever the network brings and in whatever order the two tasks run, if the
  -- keystore's signatures are valid: the votes that the worker gossips are for strictly rising views
  -- above 0, none above its last voted view; each vote, timeout and proposal that it gossips passes the
  -- check of every peer with the genesis keys, or has no signature; its high QC is the default one or
  -- is valid for these keys; its view is a u64, and the validator has that view.
  start_hotstuff-act_all :
      (runtime : External (List AuthorityId)) (t : Tasks env)
      → IsSigning env.crypto keystore
      → start_hotstuff env parse variable runtime keystore chain ≡ ok t
      → (fuel : ℕ) (activities : List (Activity env))
      → let w = (act_all env fuel activities t).worker in
        Climbs 0 (votes_in w.outbox) w.state.last_voted_view
        × All (λ (g : Gossip). IsAccepted env t.worker.state g.message) w.outbox
        × CarriesQc env.crypto t.worker.state.authorities w.state.high_qc
        × (w.state.view < u64_mod)
        × (w.validator.view ≡ w.state.view)
  start_hotstuff-act_all runtime t signing h fuel activities =
      let (keys, answer, e) = start_hotstuff-started runtime t h in
      rw e (started-act_all keys signing fuel activities)
