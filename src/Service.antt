-- ===== src/Service.antt =====
-- node-template/node/src/service.rs: the node, from its configuration to its tasks. What Substrate builds is
-- a parameter; kept are the order of the calls, what each is given that concerns the consensus, the
-- errors that end the start, and the tasks that are spawned. The client's state is that with which it is
-- opened.
pub mod Parts
pub mod Expected
pub mod Running
pub mod Starting
pub mod Safety
use substrate_hot_stuff.Prelude.{
  ℕ, List, [], ◌∷◌, ◌++◌, Bool, true, false, Option, none, some, String, if◌then◌else◌,
}
use substrate_hot_stuff.Primitives.{
  Bytes, Hash, AuthorityId, Result, ok, err, panic, exhausted, other, ◌>>=◌, ◌>>◌, External,
  answered, failed, map_err,
}
use substrate_hot_stuff.Crypto.{Keystore}
use substrate_hot_stuff.Environment.{Environment}
use substrate_hot_stuff.Authorities.{AuthoritySet, get, block_import}
use substrate_hot_stuff.Network.Bridge.{
  NonDefaultSetConfig, HotstuffNetworkBridge, standard_name, hotstuff_peers_set_config,
}
use substrate_hot_stuff.Network.Bridge
use substrate_hot_stuff.Tasks.{Tasks, start_hotstuff}

-- The parts of `sc_service::Configuration` that service.rs reads.
pub record Configuration : Type 0 where
  pub telemetry_endpoints : Option (List String)
  pub is_authority : Bool  -- `role.is_authority()`
  pub offchain_worker_enabled : Bool
  pub force_authoring : Bool
  pub fork_id : Option String

module _ (env : Environment) where
  -- The calls of Substrate. `slot_duration` is that of sc_consensus_aura, `block_hash` of block 0.
  pub record Substrate : Type 0 where
    pub new_telemetry : External (Unit {0})
    pub new_full_parts : External (Keystore × env.client.State)
    pub slot_duration : env.client.State → External ℕ
    pub import_queue : ℕ → External (Unit {0})
    pub block_hash : env.client.State → External (Option Hash)
    pub expect_block_hash : env.client.State → External Hash
    pub call_authorities : env.client.State → Hash → External Bytes
    pub decode_authorities : Bytes → Option (List AuthorityId)
    pub build_network : List NonDefaultSetConfig → External (Unit {0})
    pub spawn_tasks : External (Unit {0})
    pub start_aura : ℕ → Bool → External (Unit {0})
    pub bytes2hex : Hash → String
    pub parse : String → Option ℕ
    pub hotstuff_duration : Option String  -- the variable HOTSTUFF_DURATION

  -- What a task runs: with the slot duration and `force_authoring`, or with the bridge and the
  -- two tasks of `start_hotstuff`.
  pub data Work : Type 0 where
    telemetry_worker offchain_workers : Work
    block_author : ℕ → Bool → Work
    voter network : HotstuffNetworkBridge → Tasks env → Work

  pub record Task : Type 0 where
    pub name : String
    pub group : Option String
    pub essential : Bool
    pub blocking : Bool
    pub work : Work

  abbrev pub author_task : ℕ → Bool → Task
  author_task slot_duration force_authoring = record {
    name = "hotstuff block author";
    group = some "block-authoring";
    essential = true;
    blocking = true;
    work = block_author slot_duration force_authoring;
  }

  -- The bridge is made by `start_hotstuff`, for the protocol's name.
  abbrev pub voter_task : String → Tasks env → Task
  voter_task protocol_name tasks = record {
    name = "hotstuff block voter";
    group = none;
    essential = true;
    blocking = true;
    work = voter (Bridge.new protocol_name) tasks;
  }

  abbrev pub network_task : String → Tasks env → Task
  network_task protocol_name tasks = record {
    name = "hotstuff network";
    group = none;
    essential = true;
    blocking = true;
    work = network (Bridge.new protocol_name) tasks;
  }

  pub record PartialComponents : Type 0 where
    pub keystore : Keystore
    pub chain : env.client.State
    pub tasks : List Task
    pub link : AuthoritySet

  pub record Service : Type 0 where
    pub tasks : List Task
    pub protocols : List NonDefaultSetConfig
    pub network_started : Bool

  module _ (substrate : Substrate) where
    -- `filter(|x| !x.is_empty())`, and the worker if endpoints are left.
    abbrev pub make_telemetry : Option (List String) → Result (List Task)
    make_telemetry none = ok []
    make_telemetry (some []) = ok []
    make_telemetry (some (x ∷ endpoints)) = do
      map_err other substrate.new_telemetry
      ok (
          record {
            name = "telemetry";
            group = none;
            essential = false;
            blocking = false;
            work = telemetry_worker;
          }
          ∷ [])

    abbrev pub genesis_authorities : env.client.State → External (List AuthorityId)
    genesis_authorities chain =
        get (substrate.expect_block_hash chain) (substrate.call_authorities chain)
          substrate.decode_authorities

    unfoldable pub new_partial : Configuration → Result PartialComponents
    new_partial config = do
      telemetry ← make_telemetry config.telemetry_endpoints
      parts ← map_err other substrate.new_full_parts
      link ← block_import (genesis_authorities parts.1)
      slot_duration ← map_err other (substrate.slot_duration parts.1)
      map_err other (substrate.import_queue slot_duration)
      ok (record { keystore = parts.0; chain = parts.1; tasks = telemetry; link = link })

    -- `.ok().flatten().expect("Genesis block exists; qed")`
    abbrev pub expect_genesis : External (Option Hash) → Result Hash
    expect_genesis (answered (some hash)) = ok hash
    expect_genesis (answered none) = panic
    expect_genesis (failed e) = panic

    abbrev pub offchain_tasks : Configuration → List Task
    offchain_tasks config =
        if config.offchain_worker_enabled
        then record {
          name = "offchain-workers-runner";
          group = some "offchain-worker";
          essential = false;
          blocking = false;
          work = offchain_workers;
        }
          ∷ []
        else []

    -- What an authority runs beside.
    unfoldable pub authority_tasks : Configuration → String → PartialComponents → Result (List Task)
    authority_tasks config protocol_name components = do
      slot_duration ← map_err other (substrate.slot_duration components.chain)
      map_err other (substrate.start_aura slot_duration config.force_authoring)
      tasks ←
          start_hotstuff env substrate.parse substrate.hotstuff_duration
            (genesis_authorities components.chain) components.keystore components.chain
      ok (
          author_task slot_duration config.force_authoring
          ∷ voter_task protocol_name tasks
          ∷ network_task protocol_name tasks
          ∷ [])

    -- `new_full` after `new_partial`, with the name of the protocol.
    unfoldable pub run_network : Configuration → PartialComponents → String → Result Service
    unfolding authority_tasks
    run_network config components protocol_name = do
      map_err other (substrate.build_network (hotstuff_peers_set_config protocol_name ∷ []))
      map_err other substrate.spawn_tasks
      authoring ←
          if config.is_authority then authority_tasks config protocol_name components else ok []
      ok (record {
        tasks = components.tasks ++ offchain_tasks config ++ authoring;
        protocols = hotstuff_peers_set_config protocol_name ∷ [];
        network_started = true;
      })

    unfoldable pub new_full : Configuration → Result Service
    new_full config = do
      components ← new_partial config
      genesis_hash ← expect_genesis (substrate.block_hash components.chain)
      run_network config components (standard_name substrate.bytes2hex genesis_hash config.fork_id)
