-- ===== src/Command.antt =====
-- node-template/node/src/command.rs and cli.rs: the subcommands, and what each runs. The commands are those of
-- sc_cli and frame_benchmarking_cli: kept is which one is run, and with which of the node's parts.
pub mod Dispatch
use substrate_hot_stuff.Prelude.{
  List, [], ◌∷◌, Bool, true, false, not, Option, none, some, String, if◌then◌else◌,
}
use substrate_hot_stuff.Primitives.{
  Result, ok, err, panic, exhausted, other, ◌>>=◌, ◌>>◌, External, answered, failed, map_err,
}
use substrate_hot_stuff.Environment.{Environment}
use substrate_hot_stuff.Service.{
  Configuration, Substrate, PartialComponents, Service, new_partial, new_full,
}

-- `BenchmarkCmd`
pub data BenchmarkCmd : Type 0 where
  pallet block storage overhead extrinsic machine : BenchmarkCmd

-- `Subcommand`, without the arguments of each.
pub data Subcommand : Type 0 where
  key build_spec check_block export_blocks export_state import_blocks purge_chain revert :
      Subcommand
  benchmark : BenchmarkCmd → Subcommand
  try_runtime chain_info substrate : Subcommand

pub record Cli : Type 0 where
  pub subcommand : Option Subcommand

-- The features that the node was built with.
pub record Features : Type 0 where
  pub runtime_benchmarks : Bool
  pub try_runtime : Bool

module _ (env : Environment) where
  -- What is run in the end: a command, with the configuration, or with the components that
  -- `new_partial` makes and, for `overhead` and `extrinsic`, the inherent data; or the node.
  pub data Action : Type 0 where
    run_key : Action
    run_command : Subcommand → Configuration → Action
    run_with : Subcommand → PartialComponents env → Action
    run_node : Service env → Action

  -- `create_runner` gives the configuration; `inherent_benchmark_data` is of benchmarking.rs, and the task
  -- manager that try-runtime needs is of sc_service.
  pub record Runner : Type 0 where
    pub substrate : Substrate env
    pub create_runner : External Configuration
    pub inherent_benchmark_data : External (Unit {0})
    pub new_task_manager : External (Unit {0})

  module _ (features : Features) (runner : Runner) where
    abbrev with_config : (Configuration → Result (Action)) → Result Action
    with_config f = map_err other runner.create_runner >>= f

    -- `let PartialComponents { … } = service::new_partial(&config)?` and the command.
    abbrev with_components : Subcommand → Configuration → Result Action
    with_components cmd config = do
      components ← new_partial env runner.substrate config
      ok (run_with cmd components)

    abbrev refused : String → Result Action
    refused message = err (other message)

    unfoldable pub run_benchmark : BenchmarkCmd → Configuration → Result Action
    run_benchmark pallet config =
        if not features.runtime_benchmarks
        then refused
            "Runtime benchmarking wasn't enabled when building the node. You can enable it with `--features runtime-benchmarks`."
        else ok (run_command (benchmark pallet) config)
    run_benchmark block config = with_components (benchmark block) config
    run_benchmark storage config =
        let run = with_components (benchmark storage) config in
        if features.runtime_benchmarks
        then run
        else refused "Storage benchmarking can be enabled with `--features runtime-benchmarks`."
    run_benchmark overhead config = do
      components ← new_partial env runner.substrate config
      map_err other runner.inherent_benchmark_data
      ok (run_with (benchmark overhead) components)
    run_benchmark extrinsic config = do
      components ← new_partial env runner.substrate config
      map_err other runner.inherent_benchmark_data
      ok (run_with (benchmark extrinsic) components)
    run_benchmark machine config = ok (run_command (benchmark machine) config)

    -- `service::new_full(config)` until it exits
    abbrev run_full : Result Action
    run_full = with_config λ config. new_full env runner.substrate config >>= λ s. ok (run_node s)

    unfoldable pub run_subcommand : Subcommand → Result Action
    unfolding run_benchmark
    run_subcommand key = ok run_key
    run_subcommand build_spec = with_config λ config. ok (run_command build_spec config)
    run_subcommand check_block = with_config (with_components check_block)
    run_subcommand export_blocks = with_config (with_components export_blocks)
    run_subcommand export_state = with_config (with_components export_state)
    run_subcommand import_blocks = with_config (with_components import_blocks)
    run_subcommand purge_chain = with_config λ config. ok (run_command purge_chain config)
    run_subcommand revert = with_config (with_components revert)
    run_subcommand (benchmark cmd) = with_config (run_benchmark cmd)
    run_subcommand try_runtime =
        let run = with_config λ config.
          (map_err other runner.new_task_manager >>= λ _. ok (run_command try_runtime config)) in
        if features.try_runtime
        then run
        else refused
            "TryRuntime wasn't enabled when building the node. You can enable it with `--features try-runtime`."
    run_subcommand chain_info = with_config λ config. ok (run_command chain_info config)
    run_subcommand substrate = run_full

    unfoldable pub run : Cli → Result Action
    unfolding run_subcommand
    run cli = by_subcommand cli.subcommand
      where
        by_subcommand : Option Subcommand → Result Action
        by_subcommand none = run_full
        by_subcommand (some cmd) = run_subcommand cmd
