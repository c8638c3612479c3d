-- ===== src/Service/Safety.antt =====
-- From the node's start in service.rs to what its voter gossips in consensus.rs.
use substrate_hot_stuff.Prelude.{
  ℕ, ◌≡◌, sym, subst, List, [], ◌∷◌, Bool, true, false, if◌then◌else◌, All,
}
use substrate_hot_stuff.Primitives.{ok, answered}
use substrate_hot_stuff.Crypto.{Keystore}
use substrate_hot_stuff.Environment.{Environment}
use substrate_hot_stuff.Worker.Safety.Signing.{IsSigning}
use substrate_hot_stuff.Tasks.{Tasks, Activity, act_all}
use substrate_hot_stuff.Tasks.Started.{IsSafe, started-act_all}
use substrate_hot_stuff.Service.{
  Configuration, Substrate, Work, voter, network, Task, Service, new_full,
}
use substrate_hot_stuff.Service.Parts.{consensus_tasks}
use substrate_hot_stuff.Service.Running.{new_full-IsRunning}

module _ (env : Environment) (substrate : Substrate env) where
  -- What `start_hotstuff` has made for a task.
  abbrev pub tasks_of : Work env → List (Tasks env)
  tasks_of (voter bridge tasks) = tasks ∷ []
  tasks_of (network bridge tasks) = tasks ∷ []
  tasks_of _ = []

  abbrev pub StaysSafe : ℕ → List (Activity env) → Task env → Type 0
  StaysSafe fuel activities task =
      All (λ t. IsSafe env t (act_all env fuel activities t)) (tasks_of task.work)

  -- A node that has started, if the signatures of its keystore are valid, runs the consensus safely
  -- or not at all. For each of its consensus tasks, whatever the network brings and in whatever order the
  -- worker and the network task go on: the votes that are gossiped are for strictly rising views above
  -- 0, none above the last voted view; each vote, timeout and proposal that is gossiped passes the check
  -- of every peer with the authorities that the worker starts with, or has no signature (nothing is said
  -- of TCs); the high QC is the default one or valid for these authorities; the view is a u64, and the
  -- validator's too.
  pub new_full-StaysSafe :
      (config : Configuration) (s : Service env)
      → new_full env substrate config ≡ ok s
      → ((k : Keystore) (chain : env.client.State)
          → substrate.new_full_parts ≡ answered (k, chain)
          → IsSigning env.crypto k)
      → (fuel : ℕ) (activities : List (Activity env))
      → All (StaysSafe fuel activities) (consensus_tasks env s.tasks)
  new_full-StaysSafe config s e signing fuel activities =
      let r = new_full-IsRunning env substrate config s e in
      let good = signing r.components.keystore r.components.chain r.opened in
      let safe =
        started-act_all env substrate.parse substrate.hotstuff_duration r.components.keystore
          r.components.chain r.keys good fuel activities in
      let stays = subst (λ t. IsSafe env t (act_all env fuel activities t)) (sym r.begun) safe in
      subst (All (StaysSafe fuel activities)) (sym r.consensus)
        (of_pair config.is_authority _ _ (stays, tt) (stays, tt))
    where
      of_pair :
          (b : Bool) (x y : Task env)
          → StaysSafe fuel activities x
          → StaysSafe fuel activities y
          → All (StaysSafe fuel activities) (if b then x ∷ y ∷ [] else [])
      of_pair true x y p q = (p, (q, tt))
      of_pair false x y p q = tt
