-- ===== src/Service/Expected.antt =====
-- service.rs: what a started node is to run, written without the functions that build it.
use Prim.Native.String as Text
use substrate_hot_stuff.Prelude.{
  Option, none, false, map, ◌≡◌, ◌≢◌, List, [], ◌∷◌, true, some, String, if◌then◌else◌,
}
use substrate_hot_stuff.Primitives.{Bytes, Hash, AuthorityId, answered}
use substrate_hot_stuff.Environment.{Environment}
use substrate_hot_stuff.Network.Bridge.{NonDefaultSetConfig, deny, HotstuffNetworkBridge}
use substrate_hot_stuff.Tasks.{Tasks}
use substrate_hot_stuff.Tasks.Started.{started}
use substrate_hot_stuff.Service.{
  Configuration, Substrate, voter, network, Task, PartialComponents, Service,
}
use substrate_hot_stuff.Service.Parts.{consensus_tasks}

module _ (env : Environment) (substrate : Substrate env) where
  -- The tasks of the consensus for the keys that the runtime has at genesis.
  abbrev pub started_tasks : PartialComponents env → List AuthorityId → Tasks env
  started_tasks components keys =
      started env substrate.parse substrate.hotstuff_duration components.keystore components.chain
        keys

  -- The protocol of a genesis block and a fork.
  abbrev pub protocol_of : Hash → Option String → String
  protocol_of hash none = Text.◌++◌ (Text.◌++◌ "/" (substrate.bytes2hex hash)) "/hotstuff/1"
  protocol_of hash (some fork_id) =
      Text.◌++◌ (Text.◌++◌ "/" (Text.◌++◌ (substrate.bytes2hex hash) (Text.◌++◌ "/" fork_id)))
        "/hotstuff/1"

  -- One that no peer but reserved ones may join.
  abbrev pub closed_set : String → NonDefaultSetConfig
  closed_set protocol = record {
    notifications_protocol = protocol;
    fallback_names = [];
    max_notification_size = 1048576;
    in_peers = 0;
    out_peers = 0;
    reserved_nodes = [];
    non_reserved_mode = deny;
  }

  abbrev pub bridge_of : String → HotstuffNetworkBridge
  bridge_of protocol = record { protocol_name = protocol; gossip_validator = record { view = 0 } }

  -- One voter and one network task, on the same bridge and the same worker.
  abbrev pub consensus_pair : String → Tasks env → List (Task env)
  consensus_pair protocol tasks =
      record {
        name = "hotstuff block voter";
        group = none;
        essential = true;
        blocking = true;
        work = voter (bridge_of protocol) tasks;
      }
      ∷ record {
        name = "hotstuff network";
        group = none;
        essential = true;
        blocking = true;
        work = network (bridge_of protocol) tasks;
      }
      ∷ []

  -- At the start: a worker of these keys that has not voted or gossiped, and an empty channel.
  pub record IsFresh (components : PartialComponents env) (keys : List AuthorityId)
      (tasks : Tasks env) : Type 0 where
    pub own_keystore : tasks.worker.state.keystore ≡ components.keystore
    pub own_chain : tasks.worker.chain ≡ components.chain
    pub authorities : tasks.worker.state.authorities ≡ map (λ id. (id, 0)) keys
    pub first_view : tasks.worker.state.view ≡ 0
    pub no_vote : tasks.worker.state.last_voted_view ≡ 0
    pub silent : tasks.worker.outbox ≡ []
    pub no_message : tasks.channel ≡ []
    pub running : tasks.ended ≡ false

  pub record IsRunning (config : Configuration) (s : Service env) : Type 0 where
    pub components : PartialComponents env
    pub opened : substrate.new_full_parts ≡ answered (components.keystore, components.chain)
    pub keys : List AuthorityId
    pub expected_hash : Hash
    pub expected : substrate.expect_block_hash components.chain ≡ answered expected_hash
    pub key_data : Bytes
    pub called : substrate.call_authorities components.chain expected_hash ≡ answered key_data
    pub decoded : substrate.decode_authorities key_data ≡ some keys
    pub some_key : keys ≢ []
    pub genesis_hash : Hash
    pub found : substrate.block_hash components.chain ≡ answered (some genesis_hash)
    pub announced : s.protocols ≡ closed_set (protocol_of genesis_hash config.fork_id) ∷ []
    pub tasks : Tasks env
    pub begun : tasks ≡ started_tasks components keys
    pub fresh : IsFresh components keys tasks
    pub consensus : consensus_tasks env s.tasks ≡ (
        if config.is_authority
        then consensus_pair (protocol_of genesis_hash config.fork_id) tasks
        else [])
    pub open_network : s.network_started ≡ true
