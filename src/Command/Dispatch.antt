-- ===== src/Command/Dispatch.antt =====
-- command.rs: which subcommands start the consensus.
use substrate_hot_stuff.Prelude.{
  ◌≡◌, refl, ◌↔◌, inl, inr, Bool-cases, Bool, true, false, Option, none, some, arith,
}
use substrate_hot_stuff.Primitives.{Result, ok, other, ◌>>=◌, >>=-eq-ok, answered, map_err}
use substrate_hot_stuff.Service.Parts.{map_err-eq-ok}
use substrate_hot_stuff.Environment.{Environment}
use substrate_hot_stuff.Service.{Configuration, Service, new_partial, new_full}
use substrate_hot_stuff.Command.{
  BenchmarkCmd, pallet, block, storage, overhead, extrinsic, machine, Subcommand, key, build_spec,
  check_block, export_blocks, export_state, import_blocks, purge_chain, revert, benchmark,
  try_runtime, chain_info, substrate, Cli, Features, Action, run_key, run_command, run_with,
  run_node, Runner, run_benchmark, run_subcommand, run,
}

module _ (env : Environment) (features : Features) (runner : Runner env) where
  -- Whether the action is to run the node.
  abbrev is_node : Action env → Bool
  is_node (run_node s) = true
  is_node _ = false

  -- The result is not a running node.
  Stays : Result (Action env) → Type 0
  Stays r = (s : Service env) → r ≡ ok (run_node s) → ⊥

  Stays-bind :
      {A : Type 0} (m : Result A) (f : A → Result (Action env))
      → ((a : A) → Stays (f a))
      → Stays (m >>= f)
  unfolding Stays
  Stays-bind m f h s e = let (a, q, r) = >>=-eq-ok m f e in h a s r

  Stays-ok : (a : Action env) → is_node a ≡ false → Stays (ok a)
  unfolding Stays
  Stays-ok a other_action s e = absurd (ground (arith, e, other_action))

  with_components-Stays :
      (cmd : Subcommand) (config : Configuration)
      → Stays (new_partial env runner.substrate config >>= λ c. ok (run_with cmd c))
  with_components-Stays cmd config =
      Stays-bind (new_partial env runner.substrate config) _ λ c. Stays-ok (run_with cmd c) refl

  inherent-Stays :
      (cmd : BenchmarkCmd) (config : Configuration)
      → Stays (
          new_partial env runner.substrate config >>= λ c.
          (map_err other runner.inherent_benchmark_data >>= λ u. ok (run_with (benchmark cmd) c)))
  inherent-Stays cmd config = Stays-bind (new_partial env runner.substrate config) _ λ c.
      Stays-bind (map_err other runner.inherent_benchmark_data) _
        λ u. Stays-ok (run_with (benchmark cmd) c) refl

  run_benchmark-Stays :
      (cmd : BenchmarkCmd) (config : Configuration)
      → Stays (run_benchmark env features runner cmd config)
  unfolding run_benchmark Stays
  run_benchmark-Stays pallet config s e = ground (arith, e)
  run_benchmark-Stays block config s e = with_components-Stays (benchmark block) config s e
  run_benchmark-Stays storage config s e = elim (Bool-cases features.runtime_benchmarks) [
    | inl on ↦ with_components-Stays (benchmark storage) config s (ground (arith, e, on))
    | inr off ↦ ground (arith, e, off)
  ]
  run_benchmark-Stays overhead config s e = inherent-Stays overhead config s e
  run_benchmark-Stays extrinsic config s e = inherent-Stays extrinsic config s e
  run_benchmark-Stays machine config s e =
      Stays-ok (run_command (benchmark machine) config) refl s e

  config-Stays :
      (f : Configuration → Result (Action env))
      → ((config : Configuration) → Stays (f config))
      → Stays (map_err other runner.create_runner >>= f)
  config-Stays f = Stays-bind (map_err other runner.create_runner) f

  command-Stays :
      (cmd : Subcommand)
      → Stays (map_err other runner.create_runner >>= λ config. ok (run_command cmd config))
  command-Stays cmd = config-Stays _ λ config. Stays-ok (run_command cmd config) refl

  try_runtime-Stays : Stays (run_subcommand env features runner try_runtime)
  unfolding run_subcommand Stays
  try_runtime-Stays s e = elim (Bool-cases features.try_runtime) [
    | inl on ↦
        config-Stays _
          (λ config.
            Stays-bind (map_err other runner.new_task_manager) _
              λ u. Stays-ok (run_command try_runtime config) refl)
          s (ground (arith, e, on))
    | inr off ↦ ground (arith, e, off)
  ]

  -- The runner gives a configuration, with which `new_full` makes this node.
  abbrev pub StartsAs : Service env → Type 0
  StartsAs s =
      (config : Configuration) × (runner.create_runner ≡ answered config)
      × (new_full env runner.substrate config ≡ ok s)

  full :
      (s : Service env)
      → (map_err other runner.create_runner >>= λ config.
          (new_full env runner.substrate config >>= λ s. ok (run_node s)))
        ≡ ok (run_node s)
      → StartsAs s
  full s e =
      let (config, found, e1) = >>=-eq-ok (map_err other runner.create_runner) _ e in
      let (t, begun, e2) = >>=-eq-ok (new_full env runner.substrate config) _ e1 in
      let same : t ≡ s = ground (arith, e2) in
      (config, map_err-eq-ok other runner.create_runner found, rw (← same) begun)

  full_back :
      (s : Service env)
      → StartsAs s
      → (map_err other runner.create_runner >>= λ config.
          (new_full env runner.substrate config >>= λ s. ok (run_node s)))
        ≡ ok (run_node s)
  full_back s (config, found, begun) = rw (found, begun) refl

  -- The subcommands that run the node: `Substrate`, and none.
  abbrev pub IsNodeCommand : Option Subcommand → Type 0
  IsNodeCommand none = Unit
  IsNodeCommand (some substrate) = Unit
  IsNodeCommand (some _) = ⊥

  run_subcommand_node :
      (cmd : Subcommand) (s : Service env)
      → run_subcommand env features runner cmd ≡ ok (run_node s)
      → IsNodeCommand (some cmd) × StartsAs s
  unfolding run_subcommand Stays
  run_subcommand_node key s e = absurd (Stays-ok run_key refl s e)
  run_subcommand_node build_spec s e = absurd (command-Stays build_spec s e)
  run_subcommand_node check_block s e =
      absurd (config-Stays _ (with_components-Stays check_block) s e)
  run_subcommand_node export_blocks s e =
      absurd (config-Stays _ (with_components-Stays export_blocks) s e)
  run_subcommand_node export_state s e =
      absurd (config-Stays _ (with_components-Stays export_state) s e)
  run_subcommand_node import_blocks s e =
      absurd (config-Stays _ (with_components-Stays import_blocks) s e)
  run_subcommand_node purge_chain s e = absurd (command-Stays purge_chain s e)
  run_subcommand_node revert s e = absurd (config-Stays _ (with_components-Stays revert) s e)
  run_subcommand_node (benchmark cmd) s e = absurd (config-Stays _ (run_benchmark-Stays cmd) s e)
  run_subcommand_node try_runtime s e = absurd (try_runtime-Stays s e)
  run_subcommand_node chain_info s e = absurd (command-Stays chain_info s e)
  run_subcommand_node substrate s e = (tt, full s e)

  node_run_subcommand :
      (cmd : Subcommand) (s : Service env)
      → IsNodeCommand (some cmd)
      → StartsAs s
      → run_subcommand env features runner cmd ≡ ok (run_node s)
  unfolding run_subcommand
  node_run_subcommand substrate s h starts = full_back s starts
  node_run_subcommand _ s h starts = absurd h

  -- What starts the node. The command line ends in a running node exactly if it has no subcommand or
  -- `Substrate`, the runner gives a configuration, and `new_full` starts with it; the node that runs is
  -- the one that it makes. So no other subcommand, of the benchmarks or of try-runtime neither, runs the
  -- node, whichever features it was built with.
  pub run_iff :
      (cli : Cli) (s : Service env)
      → (run env features runner cli ≡ ok (run_node s))
        ↔ (IsNodeCommand cli.subcommand × StartsAs s)
  unfolding run
  run_iff cli s = by_subcommand cli.subcommand
    where
      by_subcommand :
          (sub : Option Subcommand)
          → (run env features runner (record { subcommand = sub }) ≡ ok (run_node s))
            ↔ (IsNodeCommand sub × StartsAs s)
      by_subcommand none = (λ e. (tt, full s e), λ h. full_back s h.1)
      by_subcommand (some cmd) = (run_subcommand_node cmd s, λ h. node_run_subcommand cmd s h.0 h.1)
