-- ===== src/Examples/Authoring.antt =====
-- A block of the runtime at time 60000, a queue of blocks, and a certificate.
use substrate_hot_stuff.Prelude.{
  ℕ, ◌+◌, ◌/◌, ◌≡◌, refl, [], ◌∷◌, true, false, Option, none, some, arith,
}
use substrate_hot_stuff.Primitives.{Bytes, ok, answered}
use substrate_hot_stuff.Worker.Defs.{BlockInfo}
use substrate_hot_stuff.Queue
use substrate_hot_stuff.Queue.{ImportNotification}
use substrate_hot_stuff.Queue.Filtering.{filter, is_pending, poll-filter}
use substrate_hot_stuff.Pallet.{
  Slot, Config, Runtime, pre_runtime, on_initialize, on_timestamp_set, slot_duration,
  new_slot_allowed, check_author,
}
use substrate_hot_stuff.Pallet.Digests.{InherentData, hotstuff_pre_digest, hotstuff_seal}
use substrate_hot_stuff.Pallet.Authored.{SlotLaws, InherentLaws, authored_block}
use substrate_hot_stuff.ChainSpec.{runtime_config}
use substrate_hot_stuff.Message.Qc.{Qc, verify}
use substrate_hot_stuff.Message.Quorum.{IsValidQc}
use substrate_hot_stuff.Message.Certificate.{Certificate, Certificate-IsValidQc}
use substrate_hot_stuff.Examples.World.{toy_crypto, four}

abbrev block : ℕ → BlockInfo
block n = record { hash = some (100 + n); number = n }

abbrev notice : ℕ → ImportNotification
notice n = record { hash = 100 + n; number = n; is_new_best = true }

poll-filter_example :
    Queue.poll false (notice 6 ∷ notice 7 ∷ []) (5 ∷ 4 ∷ []) (block 4 ∷ block 5 ∷ [])
    ≡ filter (is_pending (5 ∷ 4 ∷ [])) (block 4 ∷ block 5 ∷ block 6 ∷ block 7 ∷ [])
poll-filter_example = poll-filter (notice 6 ∷ notice 7 ∷ []) (5 ∷ 4 ∷ []) (block 4 ∷ block 5 ∷ []) (
  (omega arith, (omega arith, (omega arith, tt))),
  ((omega arith, (omega arith, tt)), ((omega arith, tt), (tt, tt))),
)

abbrev first_byte : Bytes → Option Slot
first_byte [] = none
first_byte (b ∷ bytes) = some b

abbrev config : Config
config = runtime_config first_byte (λ log. [])

-- The inherent data of one slot.
abbrev one_slot : InherentData
one_slot = record {
  State = Option Slot;
  get_data = λ s id. answered s;
  put_data = λ s id slot. (answered tt, some slot);
  replace_data = λ s id slot. some slot;
}

one_slot-InherentLaws : InherentLaws one_slot
one_slot-InherentLaws = record { get_data-put_data = λ s u id slot e. ground (arith, e) }

slots : SlotLaws config (λ slot. slot ∷ []) (λ t d. t / d)
slots = record { decode-encode = λ slot. refl; slot_at = λ t d. refl }

abbrev engine : ℕ
engine = config.engine_id

-- The slot 9 is the current one.
abbrev running : Runtime
running = record {
  stored_authorities = some (1 ∷ 2 ∷ []);
  current_slot = 9;
  logs =
      pre_runtime 5 (8 ∷ [])
      ∷ hotstuff_pre_digest engine (λ slot. slot ∷ []) 10
      ∷ hotstuff_seal engine (λ s. s ∷ []) 77
      ∷ [];
}

authored_block_example :
    (on_initialize config running ≡ (ok tt, record running { current_slot = 10 }))
    × (on_timestamp_set config 60000 (record running { current_slot = 10 }) ≡ ok tt)
unfolding slot_duration new_slot_allowed check_author
authored_block_example =
    authored_block config (λ slot. slot ∷ []) (λ t d. t / d) one_slot none (some 10) running
      (pre_runtime 5 (8 ∷ []) ∷ []) (hotstuff_seal engine (λ s. s ∷ []) 77 ∷ []) 60000 10 slots
      one_slot-InherentLaws refl refl (refl, tt) refl (omega arith) (λ e. omega (arith, e)) refl
      refl

Certificate-IsValidQc_example :
    (Certificate toy_crypto four ≡ ((qc : Qc) × IsValidQc toy_crypto qc 4))
    × ((a b : Certificate toy_crypto four) → a.0 ≡ b.0 → a ≡ b)
    × ((qc : Qc) → (verify toy_crypto qc four ≡ ok tt) ≡ IsValidQc toy_crypto qc 4)
Certificate-IsValidQc_example = Certificate-IsValidQc toy_crypto four
