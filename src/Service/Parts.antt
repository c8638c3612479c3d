-- ===== src/Service/Parts.antt =====
-- service.rs: the parts of `new_full`, each on its own.
use substrate_hot_stuff.Prelude.{
  ◌≡◌, ◌≢◌, refl, subst, List, [], ◌∷◌, ◌++◌, Bool, true, false, Option, none, some, String,
  if◌then◌else◌, arith,
}
use substrate_hot_stuff.Primitives.{
  Hash, AuthorityId, ok, other, >>=-eq-ok, External, answered, failed, map_err,
}
use substrate_hot_stuff.Environment.{Environment}
use substrate_hot_stuff.Authorities.{
  AuthoritySet, block_import, load_persistent, genesis, invalid_authority_list,
}
use substrate_hot_stuff.Service.{
  Configuration, Substrate, Work, voter, network, Task, PartialComponents, make_telemetry,
  genesis_authorities, new_partial, expect_genesis, offchain_tasks,
}

pub map_err-eq-ok :
    {A : Type 0} {a : A} (f : String → _) (x : External A) → map_err f x ≡ ok a → x ≡ answered a
map_err-eq-ok f (answered b) e = ground (arith, e)
map_err-eq-ok f (failed t) e = absurd (ground (arith, e))

module _ (env : Environment) where
  abbrev pub is_consensus : Work env → Bool
  is_consensus (voter bridge tasks) = true
  is_consensus (network bridge tasks) = true
  is_consensus _ = false

  -- The tasks of `start_hotstuff`.
  abbrev pub consensus_tasks : List (Task env) → List (Task env)
  consensus_tasks [] = []
  consensus_tasks (t ∷ ts) =
      let rest = consensus_tasks ts in if is_consensus t.work then t ∷ rest else rest

  pub consensus_tasks-append :
      (ts us : List (Task env))
      → consensus_tasks (ts ++ us) ≡ consensus_tasks ts ++ consensus_tasks us
  consensus_tasks-append [] us = refl
  consensus_tasks-append (t ∷ ts) us = ground (arith, consensus_tasks-append ts us)

  module _ (substrate : Substrate env) where
    telemetry_quiet :
        (endpoints : Option (List String)) (ts : List (Task env))
        → make_telemetry env substrate endpoints ≡ ok ts
        → consensus_tasks ts ≡ []
    telemetry_quiet none ts e = ground (arith, e)
    telemetry_quiet (some []) ts e = ground (arith, e)
    telemetry_quiet (some (x ∷ rest)) ts e =
        let (u, made, h) = >>=-eq-ok (map_err other substrate.new_telemetry) _ e in
        ground (arith, h)

    some_keys :
        (runtime : External (List AuthorityId)) (set : AuthoritySet)
        → block_import runtime ≡ ok set
        → (keys : List AuthorityId) × (runtime ≡ answered keys) × (keys ≢ [])
    unfolding block_import load_persistent genesis invalid_authority_list
    some_keys (failed t) set e = absurd (ground (arith, e))
    some_keys (answered []) set e = absurd (ground (arith, e))
    some_keys (answered (key ∷ keys)) set e = (key ∷ keys, refl, λ q. ground (arith, q))

    -- What `new_partial` has found and made.
    pub record Opened (c : PartialComponents env) : Type 0 where
      pub opened : substrate.new_full_parts ≡ answered (c.keystore, c.chain)
      pub keys : List AuthorityId
      pub read : genesis_authorities env substrate c.chain ≡ answered keys
      pub some_key : keys ≢ []
      pub quiet : consensus_tasks c.tasks ≡ []

    pub new_partial-Opened :
        (config : Configuration) (c : PartialComponents env)
        → new_partial env substrate config ≡ ok c
        → Opened c
    unfolding new_partial
    new_partial-Opened config c e =
        let (ts, telemetry, e1) =
          >>=-eq-ok (make_telemetry env substrate config.telemetry_endpoints) _ e in
        let (parts, opened, e2) = >>=-eq-ok (map_err other substrate.new_full_parts) _ e1 in
        let (link, imported, e3) =
          >>=-eq-ok (block_import (genesis_authorities env substrate parts.1)) _ e2 in
        let (duration, timed, e4) =
          >>=-eq-ok (map_err other (substrate.slot_duration parts.1)) _ e3 in
        let (u, queued, e5) = >>=-eq-ok (map_err other (substrate.import_queue duration)) _ e4 in
        let made : record { keystore = parts.0; chain = parts.1; tasks = ts; link = link } ≡ c =
          ground (arith, e5) in
        let (keys, read, some_key) = some_keys _ link imported in
        subst Opened made (record {
          opened = map_err-eq-ok other substrate.new_full_parts opened;
          keys = keys;
          read = read;
          some_key = some_key;
          quiet = telemetry_quiet config.telemetry_endpoints ts telemetry;
        })

    pub genesis_found :
        (x : External (Option Hash)) (hash : Hash)
        → expect_genesis env substrate x ≡ ok hash
        → x ≡ answered (some hash)
    genesis_found (answered (some h)) hash e = ground (arith, e)
    genesis_found (answered none) hash e = absurd (ground (arith, e))
    genesis_found (failed t) hash e = absurd (ground (arith, e))

    pub offchain_quiet :
        (config : Configuration) → consensus_tasks (offchain_tasks env substrate config) ≡ []
    offchain_quiet config = ground arith
