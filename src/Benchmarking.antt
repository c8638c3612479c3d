-- ===== src/Benchmarking.antt =====
-- node-template/node/src/benchmarking.rs: the extrinsics of the benchmarks. The key pairs, the encoding of
-- a payload and the client's answers are parameters.
pub mod Signed
use substrate_hot_stuff.Prelude.{
  ℕ, zero, suc, ◌*◌, ◌/◌, List, [], Option, none, some, leb, if◌then◌else◌,
}
use substrate_hot_stuff.Primitives.{Bytes, Hash, Result, ok, panic, External, answered, failed}

-- `checked_next_power_of_two` of a u32: the first power of two that is not below, or none above 2^31.
double_until : ℕ → ℕ → ℕ → Option ℕ
double_until zero p n = none
double_until (suc k) p n = let rest = double_until k (2 * p) n in if leb n p then some p else rest

unfoldable pub checked_next_power_of_two : ℕ → Option ℕ
unfolding double_until
checked_next_power_of_two n = double_until 32 1 n

-- The calls that are signed: `SystemCall::remark`, and `BalancesCall::transfer_keep_alive`.
pub data RuntimeCall : Type 0 where
  remark : Bytes → RuntimeCall
  transfer_keep_alive : ℕ → ℕ → RuntimeCall

-- `SignedExtra`, its parts with a value: the mortal era, the nonce, the tip.
pub record SignedExtra : Type 0 where
  pub era_period : ℕ
  pub era_current : ℕ
  pub nonce : ℕ
  pub tip : ℕ

-- `SignedPayload::from_raw`, with what each extension adds.
pub record SignedPayload : Type 0 where
  pub call : RuntimeCall
  pub extra : SignedExtra
  pub spec_version : ℕ
  pub transaction_version : ℕ
  pub genesis_hash : Hash
  pub best_hash : Hash

pub record UncheckedExtrinsic : Type 0 where
  pub call : RuntimeCall
  pub signer : ℕ
  pub signature : ℕ
  pub extra : SignedExtra

-- A pair of sp_core, and the client's answers.
pub record Pair : Type 0 where
  pub public : ℕ
  pub sign : Bytes → ℕ

pub record Chain : Type 0 where
  pub block_hash : External (Option Hash)  -- of block 0
  pub best_hash : Hash
  pub best_number : ℕ

-- `BlockHashCount`, and the versions of the runtime.
abbrev pub block_hash_count : ℕ
block_hash_count = 2400

abbrev pub spec_version : ℕ
spec_version = 100

abbrev pub transaction_version : ℕ
transaction_version = 1

-- `.map(|c| c / 2).unwrap_or(2)`
abbrev half_or_two : Option ℕ → ℕ
half_or_two none = 2
half_or_two (some c) = c / 2

unfoldable pub period : ℕ → ℕ
period count = half_or_two (checked_next_power_of_two count)

-- `.ok().flatten().expect("Genesis block exists; qed")`
abbrev pub expect_genesis : External (Option Hash) → Result Hash
expect_genesis (answered (some hash)) = ok hash
expect_genesis (answered none) = panic
expect_genesis (failed e) = panic

-- `kept_hashes` is the runtime's `BlockHashCount::get()`, a u32.
module _ (kept_hashes : ℕ) (encode : SignedPayload → Bytes) where
  abbrev pub raw_payload : Chain → Hash → RuntimeCall → SignedExtra → SignedPayload
  raw_payload chain genesis_hash call extra = record {
    call = call;
    extra = extra;
    spec_version = spec_version;
    transaction_version = transaction_version;
    genesis_hash = genesis_hash;
    best_hash = chain.best_hash;
  }

  abbrev pub extra_for : Chain → ℕ → SignedExtra
  extra_for chain nonce = record {
    era_period = period kept_hashes;
    era_current = chain.best_number;
    nonce = nonce;
    tip = 0;
  }

  signed_with : Chain → Pair → RuntimeCall → ℕ → Result Hash → Result UncheckedExtrinsic
  signed_with chain sender call nonce (ok genesis_hash) =
      let extra = extra_for chain nonce in
      ok (record {
        call = call;
        signer = sender.public;
        signature = sender.sign (encode (raw_payload chain genesis_hash call extra));
        extra = extra;
      })
  signed_with chain sender call nonce _ = panic

  unfoldable pub create_benchmark_extrinsic :
      Chain → Pair → RuntimeCall → ℕ → Result UncheckedExtrinsic
  unfolding signed_with
  create_benchmark_extrinsic chain sender call nonce =
      signed_with chain sender call nonce (expect_genesis chain.block_hash)

  -- `RemarkBuilder::build` and `TransferKeepAliveBuilder::build`; `bob` is the pair of the keyring.
  abbrev pub build_remark : Chain → Pair → ℕ → Result UncheckedExtrinsic
  build_remark chain bob nonce = create_benchmark_extrinsic chain bob (remark []) nonce

  abbrev pub build_transfer : Chain → Pair → ℕ → ℕ → ℕ → Result UncheckedExtrinsic
  build_transfer chain bob dest value nonce =
      create_benchmark_extrinsic chain bob (transfer_keep_alive dest value) nonce
