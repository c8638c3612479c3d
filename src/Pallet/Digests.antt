-- ===== src/Pallet/Digests.antt =====
-- hotstuff/primitives/src/digests.rs and inherents.rs: the items that a block's author puts into its digest, and
-- the slot that it takes from its clock. `DigestItem` and `InherentData` are Substrate's; reading an
-- item back, the store of inherent data and `Slot::from_timestamp` are parameters.
use substrate_hot_stuff.Prelude.{ℕ, [], ◌∷◌, Option}
use substrate_hot_stuff.Primitives.{Bytes, External}
use substrate_hot_stuff.Pallet.{Slot, DigestItem, pre_runtime, seal}

module _ (engine_id : ℕ) where
  -- `CompatibleDigestItem` for `DigestItem`: `encode` and `try_to` are of the signature, or of a slot.
  abbrev pub hotstuff_seal : {Signature : Type 0} → (Signature → Bytes) → Signature → DigestItem
  hotstuff_seal encode signature = seal engine_id (encode signature)

  abbrev pub as_hotstuff_seal :
      {Signature : Type 0} → (ℕ → DigestItem → Option Signature) → DigestItem → Option Signature
  as_hotstuff_seal seal_try_to item = seal_try_to engine_id item

  abbrev pub hotstuff_pre_digest : (Slot → Bytes) → Slot → DigestItem
  hotstuff_pre_digest encode slot = pre_runtime engine_id (encode slot)

  abbrev pub as_hotstuff_pre_digest : (ℕ → DigestItem → Option Slot) → DigestItem → Option Slot
  as_hotstuff_pre_digest pre_runtime_try_to item = pre_runtime_try_to engine_id item

-- `InherentData` of Substrate, for slots.
pub record InherentData : Type 1 where
  pub State : Type 0
  pub get_data : State → Bytes → External (Option Slot)
  pub put_data : State → Bytes → Slot → External (Unit {0}) × State
  pub replace_data : State → Bytes → Slot → State

-- `*b"hotsslot"`
abbrev pub inherent_identifier : Bytes
inherent_identifier = 104 ∷ 111 ∷ 116 ∷ 115 ∷ 115 ∷ 108 ∷ 111 ∷ 116 ∷ []

pub record InherentDataProvider : Type 0 where
  pub slot : Slot

abbrev pub new : Slot → InherentDataProvider
new slot = record { slot = slot }

abbrev pub from_timestamp_and_slot_duration : (ℕ → ℕ → Slot) → ℕ → ℕ → InherentDataProvider
from_timestamp_and_slot_duration from_timestamp timestamp slot_duration = record {
  slot = from_timestamp timestamp slot_duration;
}

-- `*provider`
abbrev pub deref : InherentDataProvider → Slot
deref provider = provider.slot

module _ (d : InherentData) where
  abbrev pub hotstuff_inherent_data : d.State → External (Option Slot)
  hotstuff_inherent_data s = d.get_data s inherent_identifier

  abbrev pub hotstuff_replace_inherent_data : Slot → d.State → d.State
  hotstuff_replace_inherent_data slot s = d.replace_data s inherent_identifier slot

  abbrev pub provide_inherent_data : InherentDataProvider → d.State → External (Unit {0}) × d.State
  provide_inherent_data provider s = d.put_data s inherent_identifier (deref provider)
