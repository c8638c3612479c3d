-- ===== src/ChainSpec/Starting.antt =====
-- From a chain specification to the authorities of the consensus: chain_spec.rs, the pallet's genesis,
-- and the two readers of hotstuff/consensus.
use substrate_hot_stuff.Prelude.{
  ◌+◌, ◌≤◌, ◌≡◌, refl, List, ◌∷◌, map, Bool, true, false, Option, none, some, String, if◌then◌else◌,
  length, ltb, subst, ◌⊎◌, inl, inr, arith,
}
use substrate_hot_stuff.Primitives.{Bytes, AuthorityId, ok, External, answered}
use substrate_hot_stuff.Message.Quorum.{ids}
use substrate_hot_stuff.Pallet.{Config, initialize_authorities, put_authorities}
use substrate_hot_stuff.Authorities.{
  AuthoritySet, block_import, get_genesis_authorities_from_client,
}
use substrate_hot_stuff.Authorities.Genesis.{genesis-from_client}
use substrate_hot_stuff.ChainSpec.{
  Keys, RuntimeGenesisConfig, Spec, with_wasm, same_text, testnet_genesis, development_config,
  local_testnet_config, load_spec, build, empty_storage, api_authorities,
}

-- What a genesis gives: the pallet builds it, and both readers of the runtime's authorities get its keys.
pub record Starts (config : Config) (genesis : RuntimeGenesisConfig) : Type 0 where
  pub builds : (build config genesis).0 ≡ ok tt
  pub stored : api_authorities (build config genesis).1 ≡ genesis.hotstuff_authorities
  pub paired : length genesis.aura_authorities ≡ length genesis.hotstuff_authorities
  pub consensus :
      get_genesis_authorities_from_client (answered (api_authorities (build config genesis).1))
      ≡ ok (map (λ id. (id, 0)) genesis.hotstuff_authorities)
  pub imports :
      (set : AuthoritySet) × (block_import (answered (api_authorities (build config genesis).1))
        ≡ ok set)
      × (ids set.current_authorities ≡ genesis.hotstuff_authorities)

build-eq :
    (config : Config) (genesis : RuntimeGenesisConfig) (key : AuthorityId) (keys : List AuthorityId)
    → genesis.hotstuff_authorities ≡ key ∷ keys
    → length keys + 1 ≤ config.max_authorities
    → build config genesis ≡ (ok tt, put_authorities empty_storage (key ∷ keys))
unfolding build initialize_authorities
build-eq config genesis key keys e few =
    let fits : ltb config.max_authorities (length (key ∷ keys)) ≡ false = ground (arith, few) in
    rw (e, fits) refl

-- A genesis of at least one authority, and no more than the pallet holds.
build-Starts :
    (config : Config) (genesis : RuntimeGenesisConfig) (key : AuthorityId) (keys : List AuthorityId)
    → genesis.hotstuff_authorities ≡ key ∷ keys
    → length keys + 1 ≤ config.max_authorities
    → length genesis.aura_authorities ≡ length genesis.hotstuff_authorities
    → Starts config genesis
unfolding get_genesis_authorities_from_client
build-Starts config genesis key keys e few paired =
    let built = build-eq config genesis key keys e few in
    record {
      builds = rw built refl;
      stored = rw (built, e) refl;
      paired = paired;
      consensus = rw (built, e) refl;
      imports = rw (built, e) (genesis-from_client key keys).0;
    }

choices :
    (a b c : Bool) (x y z s : External Spec)
    → (if a then x else (if b then y else (if c then y else z))) ≡ s
    → (x ≡ s) ⊎ ((y ≡ s) ⊎ (z ≡ s))
choices true b c x y z s e = inl e
choices false true c x y z s e = inr (inl e)
choices false false true x y z s e = inr (inl e)
choices false false false x y z s e = inr (inr e)

module _ (config : Config) (spec : Spec) where
  with_wasm-Starts :
      (wasm : Option Bytes) (f : Bytes → Spec)
      → ((binary : Bytes) → Starts config (f binary).genesis)
      → with_wasm wasm f ≡ answered spec
      → Starts config spec.genesis
  with_wasm-Starts none f h e = absurd (ground arith)
  with_wasm-Starts (some binary) f h e =
      let same : f binary ≡ spec = ground (arith, e) in
      subst (λ s. Starts config s.genesis) same (h binary)

  development-Starts :
      (keys : Keys) (wasm : Option Bytes)
      → 6 ≤ config.max_authorities
      → development_config keys wasm ≡ answered spec
      → Starts config spec.genesis
  unfolding development_config testnet_genesis
  development-Starts keys wasm few e =
      with_wasm-Starts wasm _
        (λ binary.
          build-Starts config _ (keys.hotstuff_from_string "//Alice") _ refl (omega (arith, few))
            refl)
        e

  local_testnet-Starts :
      (keys : Keys) (wasm : Option Bytes)
      → 6 ≤ config.max_authorities
      → local_testnet_config keys wasm ≡ answered spec
      → Starts config spec.genesis
  unfolding local_testnet_config testnet_genesis
  local_testnet-Starts keys wasm few e =
      with_wasm-Starts wasm _
        (λ binary.
          build-Starts config _ (keys.hotstuff_from_string "//Alice") _ refl (omega (arith, few))
            refl)
        e

  -- A node's chain specification, from any `--chain` argument, is one read from a file, or its genesis
  -- starts the consensus: for a pallet that may hold six authorities the genesis builds; the runtime then
  -- answers with the keys of the specification, and the consensus runs with these, in their order,
  -- as does the authority set of the block import; there is an Aura key for each.
  pub load_spec-Starts :
      (keys : Keys) (from_json_file : String → External Spec) (wasm : Option Bytes) (id : String)
      → 6 ≤ config.max_authorities
      → load_spec keys from_json_file wasm id ≡ answered spec
      → (from_json_file id ≡ answered spec) ⊎ Starts config spec.genesis
  unfolding load_spec
  load_spec-Starts keys from_json_file wasm id few e = by_choice (
      choices (same_text id "dev") (same_text id "") (same_text id "local")
        (development_config keys wasm) (local_testnet_config keys wasm) (from_json_file id)
        (answered spec) e)
    where
      by_choice :
          (development_config keys wasm ≡ answered spec)
            ⊎ ((local_testnet_config keys wasm ≡ answered spec)
                ⊎ (from_json_file id ≡ answered spec))
          → (from_json_file id ≡ answered spec) ⊎ Starts config spec.genesis
      by_choice (inl dev) = inr (development-Starts keys wasm few dev)
      by_choice (inr (inl testnet)) = inr (local_testnet-Starts keys wasm few testnet)
      by_choice (inr (inr path)) = inl path
