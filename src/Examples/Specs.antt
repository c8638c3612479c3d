-- ===== src/Examples/Specs.antt =====
-- The chain specification of the local network.
use Prim.Native.String as Text
use substrate_hot_stuff.Prelude.{◌+◌, ◌≡◌, refl, [], ◌∷◌, true, none, some, String, ◌⊎◌, arith}
use substrate_hot_stuff.Primitives.{External, answered, failed}
use substrate_hot_stuff.Pallet.{Config}
use substrate_hot_stuff.ChainSpec.{
  Keys, Spec, local_testnet_config, load_spec, runtime_config, local, testnet_genesis,
}
use substrate_hot_stuff.ChainSpec.Starting.{Starts, load_spec-Starts}

abbrev keys : Keys
keys = record {
  aura_from_string = λ s. Text.len s;
  hotstuff_from_string = λ s. 1000 + Text.len s;
  account_from_string = λ s. Text.len s;
}

abbrev no_file : String → External Spec
no_file path = failed "no such file"

abbrev config : Config
config = runtime_config (λ bytes. none) (λ log. [])

abbrev spec_of : External Spec → Spec
spec_of (answered spec) = spec
spec_of (failed e) = record {
  name = "";
  id = "";
  chain_type = local;
  genesis = testnet_genesis [] [] 0 [] true;
}

abbrev local_spec : Spec
local_spec = spec_of (local_testnet_config keys (some (7 ∷ [])))

loads_local : load_spec keys no_file (some (7 ∷ [])) "local" ≡ answered local_spec
unfolding load_spec local_testnet_config
loads_local = refl

load_spec-Starts_example :
    (no_file "local" ≡ answered local_spec) ⊎ Starts config local_spec.genesis
load_spec-Starts_example =
    load_spec-Starts config local_spec keys no_file (some (7 ∷ [])) "local" (omega arith)
      loads_local
