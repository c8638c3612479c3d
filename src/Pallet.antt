-- ===== src/Pallet.antt =====
-- hotstuff/pallets/hotstuff/src/lib.rs: the pallet that keeps the authorities and the slot on chain.
-- The storage and the digest of the block are the state; a value that was never stored reads as the
-- default. A failed `assert!` is a panic. The feature `experimental` is off.
pub mod Slots
pub mod Sessions
pub mod Digests
pub mod Authored
use Prim.Native.Nat.{min}
use substrate_hot_stuff.Prelude.{
  ℕ, ◌^◌, ◌*◌, ◌/◌, ◌%◌, ◌-◌, List, [], ◌∷◌, ◌++◌, Bool, true, false, not, Option, none, some,
  length, any, get_elem?, map, ltb, leb, ◌==◌, if◌then◌else◌,
}
use mathlib.Core.List.{take}
use substrate_hot_stuff.Primitives.{
  Bytes, AuthorityId, u64_mod, Result, ok, err, panic, exhausted, ◌>>=◌, External, answered, failed,
}

abbrev pub Slot : Type 0
Slot = ℕ

-- hotstuff/primitives/src/lib.rs: `ConsensusLog`
pub data ConsensusLog : Type 0 where
  authorities_change : List AuthorityId → ConsensusLog
  on_disabled_log : ℕ → ConsensusLog

-- The items of a block's digest: a pre-runtime item, a consensus item, a seal, or another one.
pub data DigestItem : Type 0 where
  pre_runtime : ℕ → Bytes → DigestItem
  consensus : ℕ → Bytes → DigestItem
  seal : ℕ → Bytes → DigestItem
  another : DigestItem

-- `Config`, and what the pallet takes from the codec and from Substrate.
pub record Config : Type 0 where
  pub max_authorities : ℕ
  pub is_disabled : ℕ → Bool  -- `T::DisabledValidators::is_disabled`, of a u32
  pub allow_multiple_blocks_per_slot : Bool
  pub minimum_period : ℕ
  pub engine_id : ℕ  -- `HOTSTUFF_ENGINE_ID`
  pub decode_slot : Bytes → Option Slot
  pub encode_log : ConsensusLog → Bytes

pub record Runtime : Type 0 where
  pub stored_authorities : Option (List AuthorityId)
  pub current_slot : Slot
  pub logs : List DigestItem  -- `frame_system`'s digest of this block

-- `Self::authorities()`, a `ValueQuery`
abbrev pub authorities : Runtime → List AuthorityId
authorities r = or_empty r.stored_authorities
  where
    or_empty : Option (List AuthorityId) → List AuthorityId
    or_empty none = []
    or_empty (some xs) = xs

-- `decode_len()`
abbrev pub decode_len : Runtime → Option ℕ
decode_len r = length_of r.stored_authorities
  where
    length_of : Option (List AuthorityId) → Option ℕ
    length_of none = none
    length_of (some xs) = some (length xs)

abbrev pub put_authorities : Runtime → List AuthorityId → Runtime
put_authorities r xs = record r { stored_authorities = some xs }

abbrev pub deposit_log : Runtime → DigestItem → Runtime
deposit_log r item = record r { logs = r.logs ++ item ∷ [] }

abbrev pub is_empty : List AuthorityId → Bool
is_empty [] = true
is_empty (x ∷ xs) = false

abbrev pub same_authorities : List AuthorityId → List AuthorityId → Bool
same_authorities [] [] = true
same_authorities [] (y ∷ ys) = false
same_authorities (x ∷ xs) [] = false
same_authorities (x ∷ xs) (y ∷ ys) = if x == y then same_authorities xs ys else false

-- `truncate_from`: the first `max_authorities`.
abbrev pub truncate_from : List AuthorityId → ℕ → List AuthorityId
truncate_from [] n = []
truncate_from (x ∷ xs) n = if n == 0 then [] else x ∷ truncate_from xs (n - 1)

module _ (config : Config) where
  -- The first pre-runtime item of the engine decides.
  unfoldable pub slot_of : List DigestItem → Option Slot
  slot_of [] = none
  slot_of (pre_runtime id bytes ∷ items) =
      let rest = slot_of items in if id == config.engine_id then config.decode_slot bytes else rest
  slot_of (_ ∷ items) = slot_of items

  unfoldable pub current_slot_from_digests : Runtime → Option Slot
  current_slot_from_digests r = slot_of r.logs

  -- The check that the author of the slot is not disabled. `% 0` panics.
  unfoldable pub check_author : Slot → Option ℕ → Result (Unit {0})
  check_author slot none = ok tt
  check_author slot (some n) =
      if n == 0 then panic else (if config.is_disabled (slot % n % 2 ^ 32) then panic else ok tt)

  unfoldable pub new_slot_allowed : Slot → Slot → Bool
  new_slot_allowed current new_slot =
      if config.allow_multiple_blocks_per_slot then leb current new_slot else ltb current new_slot

  unfoldable pub enter_slot : Option Slot → Runtime → Result (Unit {0}) × Runtime
  enter_slot none r = (ok tt, r)
  enter_slot (some new_slot) r =
      if new_slot_allowed r.current_slot new_slot
      then (check_author new_slot (decode_len r), record r { current_slot = new_slot })
      else (panic, r)

  unfoldable pub on_initialize : Runtime → Result (Unit {0}) × Runtime
  on_initialize r = enter_slot (current_slot_from_digests r) r

  -- `new` is a `BoundedVec`.
  unfoldable pub change_authorities : List AuthorityId → Runtime → Runtime
  change_authorities new r =
      let stored = put_authorities r new in
      let log = consensus config.engine_id (config.encode_log (authorities_change new)) in
      if is_empty new then r else deposit_log stored log

  unfoldable pub initialize_authorities : List AuthorityId → Runtime → Result (Unit {0}) × Runtime
  initialize_authorities new r =
      if is_empty new
      then (ok tt, r)
      else (if not (is_empty (authorities r))
          then (panic, r)
          else (if ltb config.max_authorities (length new)
              then (panic, r)
              else (ok tt, put_authorities r new)))

  -- `saturating_mul(2)` on a u64
  unfoldable pub slot_duration : ℕ
  slot_duration = min (config.minimum_period * 2) (u64_mod - 1)

  abbrev slot_or : Option Slot → Slot → Slot
  slot_or none slot = slot
  slot_or (some slot) old = slot

  unfoldable pub check_state : Slot → Option ℕ → External (Unit {0})
  check_state slot n =
      if not config.allow_multiple_blocks_per_slot
      then (if ltb slot (u64_mod - 1)
          then check_length n
          else failed "Current slot has reached maximum value and cannot be incremented further.")
      else check_length n
    where
      check_length : Option ℕ → External (Unit {0})
      check_length none = failed "Failed to decode authorities length"
      check_length (some n) =
          if n == 0
          then failed "Authorities must be non-empty."
          else (if config.is_disabled (slot % n % 2 ^ 32)
              then failed
                  "Current validator is disabled and should not be attempting to author blocks."
              else answered tt)

  unfoldable pub do_try_state : Runtime → External (Unit {0})
  do_try_state r = check_state (slot_or (current_slot_from_digests r) r.current_slot) (decode_len r)

  -- `validators` are the pairs of an account and a key; the queued validators are not read.
  unfoldable pub on_genesis_session : List (ℕ × AuthorityId) → Runtime → Result (Unit {0}) × Runtime
  on_genesis_session validators r = initialize_authorities (map (λ v. v.1) validators) r

  unfoldable pub on_new_session : Bool → List (ℕ × AuthorityId) → Runtime → Runtime
  on_new_session changed validators r =
      let next_authorities = map (λ v. v.1) validators in
      if not changed
      then r
      else (if same_authorities (authorities r) next_authorities
          then r
          else change_authorities (truncate_from next_authorities config.max_authorities) r)

  unfoldable pub on_disabled : ℕ → Runtime → Runtime
  on_disabled i r =
      deposit_log r (consensus config.engine_id (config.encode_log (on_disabled_log i)))

  unfoldable pub author_of : Option Slot → ℕ → Result (Option ℕ)
  author_of none n = ok none
  author_of (some slot) n = if n == 0 then panic else ok (some (slot % n % 2 ^ 32))

  -- The digests are pairs of an engine and bytes. `% 0` panics.
  unfoldable pub find_author : List (ℕ × Bytes) → Runtime → Result (Option ℕ)
  find_author [] r = ok none
  find_author ((id, bytes) ∷ digests) r =
      let rest = find_author digests r in
      if id == config.engine_id
      then author_of (config.decode_slot bytes) (length (authorities r))
      else rest

  abbrev at_index : List AuthorityId → Option ℕ → Option AuthorityId
  at_index xs none = none
  at_index xs (some i) = get_elem? xs i

  -- `FindAccountFromAuthorIndex`, over the pallet
  unfoldable pub find_author_id : List (ℕ × Bytes) → Runtime → Result (Option AuthorityId)
  find_author_id digests r = do i ← find_author digests r; ok (at_index (authorities r) i)

  unfoldable pub on_timestamp_set : ℕ → Runtime → Result (Unit {0})
  on_timestamp_set moment r =
      if slot_duration == 0
      then panic
      else (if r.current_slot == min (moment / slot_duration) (u64_mod - 1) then ok tt else panic)

unfoldable pub is_member : AuthorityId → Runtime → Bool
is_member authority_id r = any (λ id. id == authority_id) (authorities r)
