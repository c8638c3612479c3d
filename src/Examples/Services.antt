-- ===== src/Examples/Services.antt =====
-- The node of authority 3, from the command line on.
use substrate_hot_stuff.Prelude.{◌≡◌, refl, List, [], ◌∷◌, true, false, none, some, All, ◌↔◌, arith}
use substrate_hot_stuff.Primitives.{AuthorityId, ok, answered}
use substrate_hot_stuff.Authorities.{
  get, block_import, load_persistent, genesis, invalid_authority_list,
  get_genesis_authorities_from_client,
}
use substrate_hot_stuff.Queue
use substrate_hot_stuff.Network.Bridge.{standard_name, hotstuff_peers_set_config}
use substrate_hot_stuff.Tasks.{start_hotstuff}
use substrate_hot_stuff.Service.{
  Configuration, Substrate, Service, author_task, voter_task, network_task, new_partial,
  authority_tasks, run_network, new_full,
}
use substrate_hot_stuff.Service.Parts.{consensus_tasks}
use substrate_hot_stuff.Service.Expected.{IsRunning}
use substrate_hot_stuff.Service.Running.{new_full-IsRunning}
use substrate_hot_stuff.Service.Starting.{IsWorking, new_full_starts}
use substrate_hot_stuff.Service.Safety.{StaysSafe, new_full-StaysSafe}
use substrate_hot_stuff.Command.{Features, Runner, run_node, run}
use substrate_hot_stuff.Command.Dispatch.{IsNodeCommand, StartsAs, run_iff}
use substrate_hot_stuff.Examples.World.{toy_keystore}
use substrate_hot_stuff.Examples.Codec.{toy}
use substrate_hot_stuff.Examples.Local.{third-IsSigning}
use substrate_hot_stuff.Examples.Starting.{first_state, activities}

abbrev keys : List AuthorityId
keys = 1 ∷ 2 ∷ 3 ∷ 4 ∷ []

abbrev substrate : Substrate toy
substrate = record {
  new_telemetry = answered tt;
  new_full_parts = answered (toy_keystore 3, []);
  slot_duration = λ s. answered 6000;
  import_queue = λ duration. answered tt;
  block_hash = λ s. answered (some 7);
  expect_block_hash = λ s. answered 7;
  call_authorities = λ s hash. answered keys;
  decode_authorities = λ bytes. some bytes;
  build_network = λ protocols. answered tt;
  spawn_tasks = answered tt;
  start_aura = λ duration force. answered tt;
  bytes2hex = λ hash. "07";
  parse = λ text. none;
  hotstuff_duration = none;
}

working : IsWorking toy substrate
working = record {
  telemetry = refl;
  keystore = toy_keystore 3;
  chain = [];
  opened = refl;
  duration = 6000;
  slots = refl;
  imports = refl;
  genesis_hash = 7;
  found = refl;
  expected = refl;
  data_read = keys;
  called = refl;
  key = 1;
  keys = 2 ∷ 3 ∷ 4 ∷ [];
  decoded = refl;
  connects = λ p. refl;
  spawns = refl;
  authors = λ force. refl;
  numbers = λ n. (none, refl);
}

abbrev config : Configuration
config = record {
  telemetry_endpoints = none;
  is_authority = true;
  offchain_worker_enabled = false;
  force_authoring = false;
  fork_id = none;
}

abbrev node : Service toy
node = record {
  tasks =
      author_task toy 6000 false
      ∷ voter_task toy "/07/hotstuff/1" first_state
      ∷ network_task toy "/07/hotstuff/1" first_state
      ∷ [];
  protocols = hotstuff_peers_set_config "/07/hotstuff/1" ∷ [];
  network_started = true;
}

starts : new_full toy substrate config ≡ ok node
unfolding new_full new_partial run_network authority_tasks get block_import load_persistent genesis
    invalid_authority_list get_genesis_authorities_from_client start_hotstuff Queue.new
    standard_name
starts = refl

new_full_starts_example : (s : Service toy) × (new_full toy substrate config ≡ ok s)
new_full_starts_example = new_full_starts toy substrate working config

new_full-IsRunning_example : IsRunning toy substrate config node
new_full-IsRunning_example = new_full-IsRunning toy substrate config node starts

new_full-StaysSafe_example :
    All (StaysSafe toy substrate 9 activities) (consensus_tasks toy node.tasks)
new_full-StaysSafe_example =
    new_full-StaysSafe toy substrate config node starts
      (λ k chain e. ground (arith, e, third-IsSigning)) 9 activities

abbrev features : Features
features = record { runtime_benchmarks = false; try_runtime = false }

abbrev runner : Runner toy
runner = record {
  substrate = substrate;
  create_runner = answered config;
  inherent_benchmark_data = answered tt;
  new_task_manager = answered tt;
}

run_iff_example :
    (run toy features runner (record { subcommand = none }) ≡ ok (run_node node))
    ↔ (IsNodeCommand toy features runner none × StartsAs toy features runner node)
run_iff_example = run_iff toy features runner (record { subcommand = none }) node
