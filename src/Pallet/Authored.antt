-- ===== src/Pallet/Authored.antt =====
-- digests.rs, inherents.rs and the pallet together: a block whose author follows them.
use Prim.Native.Nat.{min}
use native.Mathlib.Nat.{div-le_self}
use substrate_hot_stuff.Prelude.{
  ℕ, ap, ◌-◌, ◌/◌, ◌<◌, ◌≡◌, ◌≢◌, refl, ◌∙◌, List, [], ◌∷◌, ◌++◌, true, false, some, All, ◌==◌,
  arith,
}
use substrate_hot_stuff.Primitives.{Bytes, u64_mod, ok, answered}
use substrate_hot_stuff.Pallet.{
  Slot, DigestItem, pre_runtime, consensus, seal, another, Config, Runtime, slot_of,
  current_slot_from_digests, decode_len, check_author, new_slot_allowed, enter_slot, on_initialize,
  slot_duration, on_timestamp_set,
}
use substrate_hot_stuff.Pallet.Digests.{
  hotstuff_pre_digest, InherentData, from_timestamp_and_slot_duration, provide_inherent_data,
  hotstuff_inherent_data,
}

-- The item of another engine's digest.
abbrev pub IsForeign : ℕ → DigestItem → Type 0
IsForeign engine_id (pre_runtime id bytes) = (id == engine_id) ≡ false
IsForeign engine_id _ = Unit

-- What is relied on: inherent data that was put can be got.
pub record InherentLaws (d : InherentData) : Type 0 where
  pub get_data-put_data :
      (s u : d.State) (id : Bytes) (slot : Slot)
      → d.put_data s id slot ≡ (answered tt, u)
      → d.get_data u id ≡ answered (some slot)

module _ (config : Config) where
  -- What precedes the first item of the engine does not count.
  slot_of-IsForeign :
      (before items : List DigestItem)
      → All (IsForeign config.engine_id) before
      → slot_of config (before ++ items) ≡ slot_of config items
  unfolding slot_of
  slot_of-IsForeign [] items h = refl
  slot_of-IsForeign (pre_runtime id bytes ∷ before) items h =
      let rest = slot_of-IsForeign before items h.1 in ground (arith, h.0, rest)
  slot_of-IsForeign (consensus id bytes ∷ before) items h = slot_of-IsForeign before items h.1
  slot_of-IsForeign (seal id bytes ∷ before) items h = slot_of-IsForeign before items h.1
  slot_of-IsForeign (another ∷ before) items h = slot_of-IsForeign before items h.1

  -- The pallet reads the slot that was put into the digest.
  slot_of-hotstuff_pre_digest :
      (encode : Slot → Bytes) (slot : Slot) (after : List DigestItem)
      → config.decode_slot (encode slot) ≡ some slot
      → slot_of config (hotstuff_pre_digest config.engine_id encode slot ∷ after) ≡ some slot
  unfolding slot_of
  slot_of-hotstuff_pre_digest encode slot after e = ground (arith, e)

  -- What the pallet relies on: a slot decodes from its encoding, and the slot of a timestamp is how
  -- often the duration is in it.
  pub record SlotLaws (encode : Slot → Bytes) (from_timestamp : ℕ → ℕ → Slot) : Type 0 where
    pub decode-encode : (slot : Slot) → config.decode_slot (encode slot) ≡ some slot
    pub slot_at : (t d : ℕ) → from_timestamp t d ≡ t / d

  small_quotient : (t d : ℕ) → t < u64_mod → min (t / d) (u64_mod - 1) ≡ t / d
  small_quotient t d small = ground (arith, div-le_self t d)

  -- A block whose author follows the helpers is accepted. The author's clock gives the inherent data
  -- provider; the author reads the slot from the inherent data that this has provided, and puts it into the
  -- digest, after items of other engines only and before any others. If the slot may follow the
  -- current one and its author is enabled, `on_initialize` accepts the block and makes the slot the
  -- current one, and then setting the clock's time on chain passes the check of `on_timestamp_set`. The
  -- time is a u64 and the slot duration not 0.
  pub authored_block :
      (encode : Slot → Bytes) (from_timestamp : ℕ → ℕ → Slot) (d : InherentData) (s u : d.State)
      (r : Runtime) (before after : List DigestItem) (t : ℕ) (slot : Slot)
      → SlotLaws encode from_timestamp
      → InherentLaws d
      → let provider = from_timestamp_and_slot_duration from_timestamp t (slot_duration config) in
        provide_inherent_data d provider s ≡ (answered tt, u)
        → hotstuff_inherent_data d u ≡ answered (some slot)
        → All (IsForeign config.engine_id) before
        → r.logs ≡ before ++ hotstuff_pre_digest config.engine_id encode slot ∷ after
        → t < u64_mod
        → slot_duration config ≢ 0
        → new_slot_allowed config r.current_slot slot ≡ true
        → check_author config slot (decode_len r) ≡ ok tt
        → (on_initialize config r ≡ (ok tt, record r { current_slot = slot }))
          × (on_timestamp_set config t (record r { current_slot = slot }) ≡ ok tt)
  unfolding on_initialize current_slot_from_digests enter_slot on_timestamp_set
  authored_block encode from_timestamp d s u r before after t slot laws store put got foreign logs
        small positive allowed enabled =
      let now : from_timestamp t (slot_duration config) ≡ slot =
        ground (arith, got, store.get_data-put_data s u _ _ put) in
      let read : slot_of config r.logs ≡ some slot =
        ap (slot_of config) logs
        ∙ slot_of-IsForeign before _ foreign
        ∙ slot_of-hotstuff_pre_digest encode slot after (laws.decode-encode slot) in
      (
        rw (read, allowed, enabled) refl,
        ground (
          arith,
          now,
          positive,
          laws.slot_at t (slot_duration config),
          small_quotient t (slot_duration config) small,
        ),
      )
