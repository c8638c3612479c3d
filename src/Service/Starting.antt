-- ===== src/Service/Starting.antt =====
-- service.rs: a node whose parts answer starts, and what its voter does then.
use substrate_hot_stuff.Prelude.{
  ℕ, ◌≡◌, refl, List, [], ◌∷◌, Bool, true, false, Option, none, some, String, if◌then◌else◌,
}
use substrate_hot_stuff.Primitives.{
  Bytes, Hash, AuthorityId, Result, ok, other, ◌>>=◌, External, answered, map_err,
}
use substrate_hot_stuff.Crypto.{Keystore}
use substrate_hot_stuff.Environment.{Environment}
use substrate_hot_stuff.Authorities.{AuthoritySet, get, get_genesis_authorities_from_client}
use substrate_hot_stuff.Authorities.Genesis.{genesis-from_client}
use substrate_hot_stuff.Network.Bridge.{
  NonDefaultSetConfig, standard_name, hotstuff_peers_set_config,
}
use substrate_hot_stuff.Queue.Opening.{Answers, new_returns}
use substrate_hot_stuff.Tasks.{start_hotstuff}
use substrate_hot_stuff.Tasks.Started.{started}
use substrate_hot_stuff.Service.{
  Configuration, Substrate, Task, PartialComponents, Service, make_telemetry, genesis_authorities,
  new_partial, expect_genesis, authority_tasks, run_network, new_full,
}

abbrev Starts : {A : Type 0} → Result A → Type 0
Starts {A} r = (a : A) × (r ≡ ok a)

goes_on :
    {A B : Type 0} {a : A} (m : Result A) (f : A → Result B)
    → m ≡ ok a
    → Starts (f a)
    → Starts (m >>= f)
goes_on m f e (b, r) = (b, rw e r)

either : {A : Type 0} (b : Bool) (r : Result (List A)) → Starts r → Starts (if b then r else ok [])
either true r s = s
either false r s = ([], refl)

answers : {A : Type 0} {a : A} (x : External A) → x ≡ answered a → map_err other x ≡ ok a
answers x e = rw e refl

module _ (env : Environment) where
  -- Every call of Substrate answers, and the runtime has an authority at genesis.
  pub record IsWorking (substrate : Substrate env) : Type 0 where
    pub telemetry : substrate.new_telemetry ≡ answered tt
    pub keystore : Keystore
    pub chain : env.client.State
    pub opened : substrate.new_full_parts ≡ answered (keystore, chain)
    pub duration : ℕ
    pub slots : substrate.slot_duration chain ≡ answered duration
    pub imports : substrate.import_queue duration ≡ answered tt
    pub genesis_hash : Hash
    pub found : substrate.block_hash chain ≡ answered (some genesis_hash)
    pub expected : substrate.expect_block_hash chain ≡ answered genesis_hash
    pub data_read : Bytes
    pub called : substrate.call_authorities chain genesis_hash ≡ answered data_read
    pub key : AuthorityId
    pub keys : List AuthorityId
    pub decoded : substrate.decode_authorities data_read ≡ some (key ∷ keys)
    pub connects : (p : List NonDefaultSetConfig) → substrate.build_network p ≡ answered tt
    pub spawns : substrate.spawn_tasks ≡ answered tt
    pub authors : (force : Bool) → substrate.start_aura duration force ≡ answered tt
    pub numbers : Answers env chain

  module _ (substrate : Substrate env) (w : IsWorking substrate) where
    read_keys : genesis_authorities env substrate w.chain ≡ answered (w.key ∷ w.keys)
    unfolding get
    read_keys = rw (w.expected, w.called, w.decoded) refl

    telemetry_starts :
        (endpoints : Option (List String))
        → (ts : List (Task env)) × (make_telemetry env substrate endpoints ≡ ok ts)
    telemetry_starts none = ([], refl)
    telemetry_starts (some []) = ([], refl)
    telemetry_starts (some (x ∷ rest)) =
        goes_on (map_err other substrate.new_telemetry) _
          (answers substrate.new_telemetry w.telemetry) (_, refl)

    new_partial_starts :
        (config : Configuration)
        → (ts : List (Task env)) × (set : AuthoritySet) × (new_partial env substrate config
            ≡ ok (record { keystore = w.keystore; chain = w.chain; tasks = ts; link = set }))
    unfolding new_partial
    new_partial_starts config =
        let (ts, e) = telemetry_starts config.telemetry_endpoints in
        let (set, imported, same) = (genesis-from_client w.key w.keys).0 in
        (ts, set, rw (e, w.opened, read_keys, imported, w.slots, w.imports) refl)

    start_hotstuff_starts :
        start_hotstuff env substrate.parse substrate.hotstuff_duration
          (genesis_authorities env substrate w.chain)
          w.keystore
          w.chain
        ≡ ok (
            started env substrate.parse substrate.hotstuff_duration w.keystore w.chain
              (w.key ∷ w.keys))
    unfolding start_hotstuff get_genesis_authorities_from_client
    start_hotstuff_starts = rw (read_keys, new_returns env w.chain w.numbers) refl

    authority_tasks_starts :
        (config : Configuration) (name : String) (c : PartialComponents env)
        → c.keystore ≡ w.keystore
        → c.chain ≡ w.chain
        → (ts : List (Task env)) × (authority_tasks env substrate config name c ≡ ok ts)
    unfolding authority_tasks
    authority_tasks_starts config name c keystore chain =
        goes_on (map_err other (substrate.slot_duration c.chain)) _
          (answers (substrate.slot_duration c.chain) (rw chain w.slots))
          (goes_on (map_err other (substrate.start_aura w.duration config.force_authoring)) _
            (answers (substrate.start_aura w.duration config.force_authoring)
              (w.authors config.force_authoring))
            (goes_on
              {a = started env substrate.parse substrate.hotstuff_duration w.keystore w.chain
                (w.key ∷ w.keys)}
              (start_hotstuff env substrate.parse substrate.hotstuff_duration
                (genesis_authorities env substrate c.chain) c.keystore c.chain)
              _ (rw (keystore, chain) start_hotstuff_starts) (_, refl)))

    beside_starts :
        (config : Configuration) (name : String) (c : PartialComponents env)
        → c.keystore ≡ w.keystore
        → c.chain ≡ w.chain
        → Starts
            (if config.is_authority then authority_tasks env substrate config name c else ok [])
    beside_starts config name c keystore chain =
        either config.is_authority (authority_tasks env substrate config name c)
          (authority_tasks_starts config name c keystore chain)

    -- A node starts if each part that Substrate builds for it answers and the runtime has an authority at
    -- genesis, with whatever telemetry endpoints, as an authority or not.
    pub new_full_starts :
        (config : Configuration) → (s : Service env) × (new_full env substrate config ≡ ok s)
    unfolding new_full run_network
    new_full_starts config =
        let (ts, set, e) = new_partial_starts config in
        let c : PartialComponents env = record {
          keystore = w.keystore;
          chain = w.chain;
          tasks = ts;
          link = set;
        } in
        let name = standard_name substrate.bytes2hex w.genesis_hash config.fork_id in
        let protocols = hotstuff_peers_set_config name ∷ [] in
        let (more, run) = beside_starts config name c refl refl in
        goes_on (new_partial env substrate config) _ e (
          goes_on (expect_genesis env substrate (substrate.block_hash w.chain)) _ (rw w.found refl)
            (goes_on (map_err other (substrate.build_network protocols)) _
              (answers (substrate.build_network protocols) (w.connects protocols))
              (goes_on (map_err other substrate.spawn_tasks) _
                (answers substrate.spawn_tasks w.spawns)
                (goes_on
                  (if config.is_authority
                    then authority_tasks env substrate config name c
                    else ok [])
                  _ run (_, refl)))))
