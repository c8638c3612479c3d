-- ===== src/ChainSpec.antt =====
-- node-template: the chain specifications of node/src/chain_spec.rs and the choice between them in
-- node/src/command.rs, with the constants that runtime/src/lib.rs gives to the pallet. The derivation of
-- keys, the reader of specification files and the Wasm binary are parameters.
pub mod Starting
use Prim.Native.Nat.{Ordering}
use Prim.Native.String as Text
use substrate_hot_stuff.Prelude.{
  ℕ, ◌^◌, ◌/◌, List, [], ◌∷◌, map, Bool, true, false, Option, none, some, String, if◌then◌else◌,
}
use substrate_hot_stuff.Primitives.{Bytes, AuthorityId, Result, External, answered, failed}
use substrate_hot_stuff.Pallet.{ConsensusLog, Slot, Config, Runtime, initialize_authorities}
use substrate_hot_stuff.Pallet

pub data ChainType : Type 0 where
  development local : ChainType

-- What chain_spec.rs takes from sp_core, and command.rs from `ChainSpec::from_json_file`: `from_string`
-- is the public key of `Pair::from_string(…)`, of the type of Aura, HotStuff or an account, and is for
-- seeds for which the source's `expect` holds.
pub record Keys : Type 0 where
  pub aura_from_string : String → ℕ
  pub hotstuff_from_string : String → AuthorityId
  pub account_from_string : String → ℕ

-- `GenesisConfig` of the parts of the runtime; `Default::default()` is not kept.
pub record RuntimeGenesisConfig : Type 0 where
  pub system_code : Bytes
  pub balances : List (ℕ × ℕ)
  pub aura_authorities : List ℕ
  pub sudo_key : Option ℕ
  pub hotstuff_authorities : List AuthorityId

-- `GenericChainSpec::from_genesis`; the arguments that are `None` or empty in each are left out.
pub record Spec : Type 0 where
  pub name : String
  pub id : String
  pub chain_type : ChainType
  pub genesis : RuntimeGenesisConfig

unfoldable pub testnet_genesis :
    Bytes → List (ℕ × AuthorityId) → ℕ → List ℕ → Bool → RuntimeGenesisConfig
testnet_genesis wasm_binary initial_authorities root_key endowed_accounts enable_println = record {
  system_code = wasm_binary;
  balances = map (λ k. (k, 2 ^ 60)) endowed_accounts;
  aura_authorities = map (λ x. x.0) initial_authorities;
  sudo_key = some root_key;
  hotstuff_authorities = map (λ x. x.1) initial_authorities;
}

-- `ok_or_else(…)` on the binary
abbrev pub with_wasm : Option Bytes → (Bytes → Spec) → External Spec
with_wasm none f = failed "Development wasm not available"
with_wasm (some wasm_binary) f = answered (f wasm_binary)

abbrev pub same_text : String → String → Bool
same_text a b = is_eq (Text.compare a b)
  where
    is_eq : Ordering → Bool
    is_eq Ordering.eq = true
    is_eq _ = false

module _ (keys : Keys) where
  -- `get_from_seed` is here for each type of key.
  abbrev get_account_id_from_seed : String → ℕ
  get_account_id_from_seed seed = keys.account_from_string (Text.◌++◌ "//" seed)

  abbrev authority_keys_from_seed : String → ℕ × AuthorityId
  authority_keys_from_seed s =
      (keys.aura_from_string (Text.◌++◌ "//" s), keys.hotstuff_from_string (Text.◌++◌ "//" s))

  unfoldable pub development_config : Option Bytes → External Spec
  development_config wasm = with_wasm wasm λ wasm_binary. record {
    name = "Development";
    id = "dev";
    chain_type = development;
    genesis =
        testnet_genesis wasm_binary
          (authority_keys_from_seed "Alice" ∷ authority_keys_from_seed "Bob" ∷ [])
          (get_account_id_from_seed "Alice")
          (get_account_id_from_seed "Alice"
            ∷ get_account_id_from_seed "Bob"
            ∷ get_account_id_from_seed "Alice//stash"
            ∷ get_account_id_from_seed "Bob//stash"
            ∷ [])
          true;
  }

  unfoldable pub local_testnet_config : Option Bytes → External Spec
  local_testnet_config wasm = with_wasm wasm λ wasm_binary. record {
    name = "Local Testnet";
    id = "local_testnet";
    chain_type = local;
    genesis =
        testnet_genesis wasm_binary
          (authority_keys_from_seed "Alice"
            ∷ authority_keys_from_seed "Bob"
            ∷ authority_keys_from_seed "Charlie"
            ∷ authority_keys_from_seed "Dave"
            ∷ authority_keys_from_seed "Eve"
            ∷ authority_keys_from_seed "Ferdie"
            ∷ [])
          (get_account_id_from_seed "Alice")
          (get_account_id_from_seed "Alice"
            ∷ get_account_id_from_seed "Bob"
            ∷ get_account_id_from_seed "Charlie"
            ∷ get_account_id_from_seed "Dave"
            ∷ get_account_id_from_seed "Eve"
            ∷ get_account_id_from_seed "Ferdie"
            ∷ get_account_id_from_seed "Alice//stash"
            ∷ get_account_id_from_seed "Bob//stash"
            ∷ get_account_id_from_seed "Charlie//stash"
            ∷ get_account_id_from_seed "Dave//stash"
            ∷ get_account_id_from_seed "Eve//stash"
            ∷ get_account_id_from_seed "Ferdie//stash"
            ∷ [])
          true;
  }

  -- `Cli::load_spec`; `from_json_file` reads a specification from a path.
  unfoldable pub load_spec : (String → External Spec) → Option Bytes → String → External Spec
  load_spec from_json_file wasm id =
      if same_text id "dev"
      then development_config wasm
      else (if same_text id ""
          then local_testnet_config wasm
          else (if same_text id "local" then local_testnet_config wasm else from_json_file id))

-- `MILLISECS_PER_BLOCK` and `SLOT_DURATION`
abbrev pub slot_duration_millis : ℕ
slot_duration_millis = 6000

-- `impl pallet_hotstuff::Config for Runtime`; `DisabledValidators = ()` disables none. `HOTSTUFF_ENGINE_ID`
-- is `HOTS`, read as a number.
abbrev pub runtime_config : (Bytes → Option Slot) → (ConsensusLog → Bytes) → Config
runtime_config decode_slot encode_log = record {
  max_authorities = 32;
  is_disabled = λ i. false;
  allow_multiple_blocks_per_slot = false;
  minimum_period = slot_duration_millis / 2;
  engine_id = 1213158483;
  decode_slot = decode_slot;
  encode_log = encode_log;
}

-- The pallet's storage before genesis, and `GenesisConfig::build`.
abbrev pub empty_storage : Runtime
empty_storage = record { stored_authorities = none; current_slot = 0; logs = [] }

unfoldable pub build : Config → RuntimeGenesisConfig → Result (Unit {0}) × Runtime
build config genesis = initialize_authorities config genesis.hotstuff_authorities empty_storage

-- `HotstuffApi::authorities` of the runtime
abbrev pub api_authorities : Runtime → List AuthorityId
api_authorities r = Pallet.authorities r
