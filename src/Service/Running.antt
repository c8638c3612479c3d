-- ===== src/Service/Running.antt =====
-- service.rs: what a node runs that has started.
use substrate_hot_stuff.Prelude.{
  Option, none, ap, ◌≡◌, refl, ◌∙◌, subst, Bool-cases, inl, inr, List, [], ◌∷◌, ◌++◌, true, some,
  String, if◌then◌else◌, arith,
}
use substrate_hot_stuff.Primitives.{Hash, AuthorityId, ok, other, >>=-eq-ok, answered, map_err}
use substrate_hot_stuff.Authorities.Genesis.{get-answered}
use substrate_hot_stuff.Environment.{Environment}
use substrate_hot_stuff.Network.Bridge.{standard_name, hotstuff_peers_set_config}
use substrate_hot_stuff.Tasks.{start_hotstuff}
use substrate_hot_stuff.Tasks.Started.{start_hotstuff-started}
use substrate_hot_stuff.Service.{
  Configuration, Substrate, Task, PartialComponents, Service, genesis_authorities, new_partial,
  expect_genesis, offchain_tasks, authority_tasks, run_network, new_full,
}
use substrate_hot_stuff.Service.Parts.{
  consensus_tasks, consensus_tasks-append, new_partial-Opened, genesis_found, offchain_quiet,
}
use substrate_hot_stuff.Service.Expected.{
  started_tasks, protocol_of, closed_set, consensus_pair, IsFresh, IsRunning,
}

module _ (env : Environment) (substrate : Substrate env) where
  standard_name-protocol_of :
      (hash : Hash) (fork_id : Option String)
      → standard_name substrate.bytes2hex hash fork_id ≡ protocol_of env substrate hash fork_id
  unfolding standard_name
  standard_name-protocol_of hash none = refl
  standard_name-protocol_of hash (some fork_id) = refl

  started-IsFresh :
      (c : PartialComponents env) (keys : List AuthorityId)
      → IsFresh env substrate c keys (started_tasks env substrate c keys)
  started-IsFresh c keys = record {
    own_keystore = refl;
    own_chain = refl;
    authorities = refl;
    first_view = refl;
    no_vote = refl;
    silent = refl;
    no_message = refl;
    running = refl;
  }

  authority_tasks-expected :
      (config : Configuration) (name : String) (c : PartialComponents env) (keys : List AuthorityId)
      (ts : List (Task env))
      → genesis_authorities env substrate c.chain ≡ answered keys
      → authority_tasks env substrate config name c ≡ ok ts
      → consensus_tasks env ts
        ≡ consensus_pair env substrate name (started_tasks env substrate c keys)
  unfolding authority_tasks
  authority_tasks-expected config name c keys ts read e =
      let (duration, timed, e1) = >>=-eq-ok (map_err other (substrate.slot_duration c.chain)) _ e in
      let (u, authoring, e2) =
        >>=-eq-ok (map_err other (substrate.start_aura duration config.force_authoring)) _ e1 in
      let (tasks, begun, e3) =
        >>=-eq-ok
          (start_hotstuff env substrate.parse substrate.hotstuff_duration
            (genesis_authorities env substrate c.chain) c.keystore c.chain)
          _ e2 in
      let (found, again, same) =
        start_hotstuff-started env substrate.parse substrate.hotstuff_duration c.keystore c.chain _
          tasks begun in
      let agree : found ≡ keys = ground (arith, again, read) in ground (arith, e3, same, agree)

  beside :
      (config : Configuration) (hash : Hash) (c : PartialComponents env) (keys : List AuthorityId)
      (ts : List (Task env))
      → genesis_authorities env substrate c.chain ≡ answered keys
      → (if config.is_authority
          then authority_tasks env substrate config
              (standard_name substrate.bytes2hex hash config.fork_id)
              c
          else ok [])
        ≡ ok ts
      → consensus_tasks env ts ≡ (
          if config.is_authority
          then consensus_pair env substrate
              (standard_name substrate.bytes2hex hash config.fork_id)
              (started_tasks env substrate c keys)
          else [])
  beside config hash c keys ts read e = elim (Bool-cases config.is_authority) [
    | inl runs ↦
        let run : authority_tasks env substrate config
              (standard_name substrate.bytes2hex hash config.fork_id) c
            ≡ ok ts =
          ground (arith, e, runs) in
        rw runs (authority_tasks-expected config _ c keys ts read run)
    | inr idle ↦ ground (arith, e, idle)
  ]

  all_tasks :
      (config : Configuration) (ts us : List (Task env))
      → consensus_tasks env ts ≡ []
      → consensus_tasks env (ts ++ offchain_tasks env substrate config ++ us)
        ≡ consensus_tasks env us
  all_tasks config ts us quiet =
      rw
        (
          consensus_tasks-append env (ts ++ offchain_tasks env substrate config) us,
          consensus_tasks-append env ts (offchain_tasks env substrate config),
          quiet,
          offchain_quiet env substrate config,
        )
        refl

  -- What a node runs that has started. The runtime has authorities at genesis, at least one. The
  -- network is open, with the HotStuff protocol of this genesis block and fork, "/", the hash in hex,
  -- "/" and the fork if there is one, and "/hotstuff/1", for reserved peers only. Among the tasks
  -- that are spawned, those of the consensus are none if the node is no authority, and otherwise one
  -- voter and one network task, both essential and blocking, for the same bridge of that protocol
  -- and the same worker, which has the node's keystore and the keys of those authorities with weight
  -- 0, is in view 0, and has not voted or gossiped.
  pub new_full-IsRunning :
      (config : Configuration) (s : Service env)
      → new_full env substrate config ≡ ok s
      → IsRunning env substrate config s
  unfolding new_full run_network
  new_full-IsRunning config s e =
      let (c, opening, e1) = >>=-eq-ok (new_partial env substrate config) _ e in
      let (hash, found, e2) =
        >>=-eq-ok (expect_genesis env substrate (substrate.block_hash c.chain)) _ e1 in
      let name = standard_name substrate.bytes2hex hash config.fork_id in
      let (u, built, e3) =
        >>=-eq-ok (map_err other (substrate.build_network (hotstuff_peers_set_config name ∷ []))) _
          e2 in
      let (v, spawned, e4) = >>=-eq-ok (map_err other substrate.spawn_tasks) _ e3 in
      let (ts, authoring, e5) =
        >>=-eq-ok
          (if config.is_authority then authority_tasks env substrate config name c else ok []) _
          e4 in
      let named = standard_name-protocol_of hash config.fork_id in
      let o = new_partial-Opened env substrate config c opening in
      let (expected_hash, key_data, expected, called, decoded) =
        get-answered (substrate.expect_block_hash c.chain) (substrate.call_authorities c.chain)
          substrate.decode_authorities o.keys o.read in
      let made : record {
        tasks = c.tasks ++ offchain_tasks env substrate config ++ ts;
        protocols = hotstuff_peers_set_config name ∷ [];
        network_started = true;
      }
          ≡ s =
        ground (arith, e5) in
      subst (IsRunning env substrate config) made (record {
        components = c;
        opened = o.opened;
        keys = o.keys;
        expected_hash = expected_hash;
        expected = expected;
        key_data = key_data;
        called = called;
        decoded = decoded;
        some_key = o.some_key;
        genesis_hash = hash;
        found = genesis_found env substrate (substrate.block_hash c.chain) hash found;
        announced = ap (λ name. closed_set env substrate name ∷ []) named;
        tasks = started_tasks env substrate c o.keys;
        begun = refl;
        fresh = started-IsFresh c o.keys;
        consensus =
            all_tasks config c.tasks ts o.quiet
            ∙ beside config hash c o.keys ts o.read authoring
            ∙ ap
                (λ name.
                  if config.is_authority
                  then consensus_pair env substrate name (started_tasks env substrate c o.keys)
                  else [])
                named;
        open_network = refl;
      })
